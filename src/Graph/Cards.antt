-- ===== src/Graph/Cards.antt =====
-- AccessGraph.tsx: the cards of the map, where they stand and which frame holds them.
pub mod Order
use beauty_awg.Base.{
  ℕ, zero, suc, ◌+◌, ◌*◌, max, ◌≡◌, refl, Bool, true, false, ◌&&◌, ◌||◌, not, Option, none, some,
  List, [], ◌∷◌, ◌++◌, arith, Text, ◌==◌, eq_refl, find, find-eq-some, All, All-append, any,
  if◌then◌else◌, Option-cases, inl, inr,
}
use beauty_awg.Base.Int.{ℤ, pos}
use beauty_awg.Base.Sets
use beauty_awg.Base.Dict.{Dict, lookup}
use beauty_awg.Api.{VpnNode, Client}
use beauty_awg.Groups.{Group, gid, Seat, member_seat}
use beauty_awg.Graph.{cid, nid}
use beauty_awg.Graph.State.{Position}

pub record Card : Type 0 where
  pub id : Text
  pub position : Position
  pub parent : Option Text

-- `a ?? b`
unfoldable pub or_else_position : Option Position → Position → Position
or_else_position none p = p
or_else_position (some q) p = q

at : ℕ → ℕ → Position
at x y = record { x = pos x; y = pos y }

-- `members.indexOf(id)`, of a member.
index_of : List Text → Text → ℕ
index_of [] id = 0
index_of (m ∷ ms) id = if m == id then 0 else suc (index_of ms id)

-- The places to look in: a card that was just let out, the map before, and the saved layout.
pub record Places : Type 0 where
  pub detached : Dict Position
  pub before : Dict Position
  pub layout : Dict Position

unfoldable pub place : Places → Text → Position → Position
unfolding or_else_position
place ps id fallback =
    or_else_position (lookup id ps.detached)
      (or_else_position (lookup id ps.before) (or_else_position (lookup id ps.layout) fallback))

group_cards : Places → ℕ → List Group → List Card
unfolding place at
group_cards ps i [] = []
group_cards ps i (g ∷ gs) =
    record { id = gid g.id; position = place ps (gid g.id) (at 20 (24 + i * 96)); parent = none }
    ∷ group_cards ps (suc i) gs

seat_in : Places → Text → Group → Text → Position
unfolding or_else_position index_of at
seat_in ps id g client =
    let s = member_seat (index_of g.members client) in
    or_else_position (lookup id ps.layout) (at s.x s.y)

client_card : Places → ℕ → Client → Option Group → Card
unfolding place seat_in at
client_card ps i c none = record {
  id = cid c.id;
  position = place ps (cid c.id) (at 20 (24 + i * 96));
  parent = none;
}
client_card ps i c (some g) = record {
  id = cid c.id;
  position = seat_in ps (cid c.id) g c.id;
  parent = some (gid g.id);
}

client_cards : Places → List Group → ℕ → List Client → List Card
unfolding client_card
client_cards ps live i [] = []
client_cards ps live i (c ∷ cs) =
    client_card ps i c (find (λ g. Sets.includes g.members c.id) live)
    ∷ client_cards ps live (suc i) cs

server_cards : Places → ℕ → List VpnNode → List Card
unfolding place at
server_cards ps i [] = []
server_cards ps i (n ∷ ns) =
    record { id = nid n.id; position = place ps (nid n.id) (at 380 (24 + i * 96)); parent = none }
    ∷ server_cards ps (suc i) ns

count : List Group → ℕ
count [] = 0
count (g ∷ gs) = suc (count gs)

-- `next`: the frames first, then the devices, which count on, and the locations.
unfoldable pub cards : Places → List Group → List Client → List VpnNode → List Card
unfolding group_cards client_cards server_cards count
cards ps live clients servers =
    group_cards ps 0 live
    ++ (client_cards ps live (count live) clients ++ server_cards ps 0 servers)
