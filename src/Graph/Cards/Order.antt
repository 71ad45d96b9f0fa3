-- ===== src/Graph/Cards/Order.antt =====
-- The order of the cards of AccessGraph.tsx.
use mathlib.Core.List.{append_assoc, append-nil}
use beauty_awg.Base.{
  ℕ, suc, ◌≡◌, refl, sym, subst, Bool, true, Option, none, some, List, [], ◌∷◌, ◌++◌, arith, Text,
  eq_refl, find,
}
use beauty_awg.Base.Sets
use beauty_awg.Api.{VpnNode, Client}
use beauty_awg.Groups.{Group, gid}
use beauty_awg.Graph.Cards.{
  Card, Places, cards, group_cards, client_cards, client_card, server_cards, count,
}

-- The ids that a card's parent may have.
abbrev ParentIn : List Text → Card → Type 0
ParentIn ids c = (p : Text) → c.parent ≡ some p → Sets.includes ids p ≡ true

-- Each card that is held by a frame comes after the frame's own card.
abbrev pub AreInOrder : List Text → List Card → Type 0
AreInOrder seen [] = Unit
AreInOrder seen (c ∷ cs) = ParentIn seen c × AreInOrder (seen ++ (c.id ∷ [])) cs

frame_ids : List Group → List Text
frame_ids [] = []
frame_ids (g ∷ gs) = gid g.id ∷ frame_ids gs

includes-frame_ids :
    (gs : List Group) (p : Group → Bool) (g : Group)
    → find p gs ≡ some g
    → Sets.includes (frame_ids gs) (gid g.id) ≡ true
unfolding find frame_ids Sets.includes
includes-frame_ids [] p g h = cc
includes-frame_ids (x ∷ xs) p g h = ground (arith, includes-frame_ids xs p g, eq_refl (gid g.id))

order-append :
    (seen : List Text) (cs ds : List Card)
    → AreInOrder seen cs
    → ((s : List Text) → AreInOrder s ds)
    → AreInOrder seen (cs ++ ds)
order-append seen [] ds h k = k seen
order-append seen (c ∷ cs) ds (p, h) k = (p, order-append (seen ++ (c.id ∷ [])) cs ds h k)

server_cards-order :
    (ps : Places) (i : ℕ) (ns : List VpnNode) (seen : List Text)
    → AreInOrder seen (server_cards ps i ns)
unfolding server_cards
server_cards-order ps i [] seen = tt
server_cards-order ps i (n ∷ ns) seen = (λ p h. cc, server_cards-order ps (suc i) ns _)

still_there :
    (seen more : List Text) (a : Text)
    → Sets.includes seen a ≡ true
    → Sets.includes (seen ++ more) a ≡ true
still_there seen more a h = ground (arith, Sets.includes-append seen more a)

carry :
    (seen : List Text) (a b : Text)
    → some a ≡ some b
    → Sets.includes seen a ≡ true
    → Sets.includes seen b ≡ true
carry seen a b e h = cc

client_card-ParentIn :
    (ps : Places) (i : ℕ) (c : Client) (seen : List Text) (o : Option Group)
    → ((g : Group) → o ≡ some g → Sets.includes seen (gid g.id) ≡ true)
    → ParentIn seen (client_card ps i c o)
unfolding client_card
client_card-ParentIn ps i c seen none h = λ p k. cc
client_card-ParentIn ps i c seen (some g) h = λ p k. carry seen (gid g.id) p k (h g refl)

client_cards-order :
    (ps : Places) (live : List Group) (i : ℕ) (cs : List Client) (seen : List Text)
    → ((q : Group → Bool) (g : Group) → find q live ≡ some g → Sets.includes seen (gid g.id) ≡ true)
    → AreInOrder seen (client_cards ps live i cs)
unfolding client_cards
client_cards-order ps live i [] seen h = tt
client_cards-order ps live i (c ∷ cs) seen h = (
  client_card-ParentIn ps i c seen _ (h (λ g. Sets.includes g.members c.id)),
  client_cards-order ps live (suc i) cs _ (λ q g e. still_there seen _ (gid g.id) (h q g e)),
)

group_cards-order :
    (ps : Places) (i : ℕ) (gs : List Group) (seen : List Text) (rest : List Card)
    → AreInOrder (seen ++ frame_ids gs) rest
    → AreInOrder seen (group_cards ps i gs ++ rest)
unfolding group_cards frame_ids
group_cards-order ps i [] seen rest h = subst (λ s. AreInOrder s rest) (append-nil seen) h
group_cards-order ps i (g ∷ gs) seen rest h = (
  λ p k. cc,
  group_cards-order ps (suc i) gs (seen ++ (gid g.id ∷ [])) rest
      (subst (λ s. AreInOrder s rest) (sym (append_assoc seen (gid g.id ∷ []) (frame_ids gs))) h),
)

-- Every card that a group's frame holds comes after the card of its frame, as React Flow requires
-- of a parent.
pub cards-AreInOrder :
    (ps : Places) (live : List Group) (clients : List Client) (servers : List VpnNode)
    → AreInOrder [] (cards ps live clients servers)
unfolding cards
cards-AreInOrder ps live clients servers = group_cards-order ps 0 live [] _ (
    order-append (frame_ids live) (client_cards ps live (count live) clients) _
      (client_cards-order ps live (count live) clients (frame_ids live) (includes-frame_ids live))
      (server_cards-order ps 0 servers))
