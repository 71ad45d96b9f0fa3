-- ===== src/Graph/Highlight.antt =====
-- AccessGraph.tsx: the selection, the cards and lines that it lights, and where a connection that is
-- dragged may land.
pub mod Anchors
pub mod Landing
use beauty_awg.Base.{
  ℕ, Bool, true, false, ◌&&◌, ◌||◌, not, Option, none, some, List, [], ◌∷◌, ◌++◌, Text, codes, ◌==◌,
  map, find, any, if◌then◌else◌,
}
use beauty_awg.Base.Sets
use beauty_awg.Api.{VpnNode, Client}
use beauty_awg.Groups.{Group, gid, is_group_id}
use beauty_awg.Graph.{cid, nid, unwrap, is_client_id, is_node_id}
use beauty_awg.Graph.Relations.{Rel, live_groups}
use beauty_awg.Graph.Pairs.{Tx}

-- The keys of `colorOf`: the cards that are on the map.
unfoldable pub card_ids : List VpnNode → List Client → List Group → List Text
card_ids servers clients live =
    map (λ c. cid c.id) clients ++ (map (λ n. nid n.id) servers ++ map (λ g. gid g.id) live)

-- `sel`
unfoldable pub shown_selection : List Text → Option Text → Option Text
shown_selection cards none = none
shown_selection cards (some id) = if Sets.includes cards id then some id else none

-- `holder`
unfoldable pub holder_of : List Group → Option Text → Option Group
holder_of live none = none
holder_of live (some id) =
    if is_client_id id then find (λ g. Sets.includes g.members (unwrap id)) live else none

-- `holder ? gid(holder.id) : sel`
unfoldable pub anchor_with : Option Group → Option Text → Option Text
anchor_with none sel = sel
anchor_with (some g) sel = some (gid g.id)

unfoldable pub anchor_of : List Group → Option Text → Option Text
unfolding anchor_with holder_of
anchor_of live sel = anchor_with (holder_of live sel) sel

-- The far ends of the lines that touch the anchor.
unfoldable pub connect_rels : Text → List Text → List Rel → List Text
connect_rels anchor lit [] = lit
connect_rels anchor lit (r ∷ rs) =
    let one = if r.source == anchor then Sets.add lit r.target else lit in
    connect_rels anchor (if r.target == anchor then Sets.add one r.source else one) rs

pub add_selected : Option Text → List Text → List Text
add_selected none lit = lit
add_selected (some id) lit = Sets.add lit id

pub holder_members : Option Group → List Text
holder_members none = []
holder_members (some g) = g.members

-- `connected`
unfoldable pub connected : List Group → Option Text → List Rel → List Text
unfolding connect_rels anchor_of add_selected holder_members
connected live sel rels = elim (anchor_of live sel) [
  | none ↦ []
  | some anchor ↦
      connect_rels anchor
        (Sets.add_all (add_selected sel (anchor ∷ []))
          (map cid (holder_members (holder_of live sel))))
        rels
]

-- `dim` of a card's data.
unfoldable pub is_dim : List Group → Option Text → List Rel → Text → Bool
unfolding connected
is_dim live sel rels id = elim (anchor_of live sel) [
  | none ↦ false
  | some anchor ↦ not (Sets.includes (connected live sel rels) id)
]

-- How a line is drawn.
pub data Look : Type 0 where
  resting lit faded : Look

unfoldable pub look_of : Option Text → Rel → Look
look_of none r = resting
look_of (some anchor) r = if r.source == anchor || r.target == anchor then lit else faded

-- `selectable`, `deletable` and `focusable`: React Flow's default but for a faded line.
unfoldable pub is_editable : Look → Bool
is_editable resting = true
is_editable lit = true
is_editable faded = false

-- `!!target && !target.is_hub`
unfoldable pub is_spoke : Option VpnNode → Bool
is_spoke none = false
is_spoke (some n) = not n.is_hub

can_land : List VpnNode → Text → Text → Bool
unfolding is_spoke
can_land servers from id =
    if id == from
    then false
    else if is_client_id from || is_group_id from
    then is_node_id id
    else if not (is_node_id id)
    then false
    else is_spoke (find (λ s. s.id == unwrap id) servers)

-- `canDrop`
unfoldable pub can_drop : List VpnNode → Option Text → Text → Bool
unfolding can_land
can_drop servers none id = false
can_drop servers (some from) id = can_land servers from id
