-- ===== src/Graph.antt =====
-- web/app/components/AccessGraph.tsx: the ids of the map's cards and lines.
pub mod Ids
pub mod Pairs
pub mod Relations
pub mod Coverage
pub mod Links
pub mod State
pub mod Access
pub mod Membership
pub mod Highlight
pub mod Cards
pub mod Dialogs
pub mod Events
pub mod CardView
pub mod Windows
mod Tests
use beauty_awg.Base.{
  ℕ, zero, suc, Bool, true, false, ◌&&◌, ◌||◌, List, [], ◌∷◌, ◌++◌, Text, codes, eqb, drop,
  starts_with, text_leb, if◌then◌else◌,
}

-- "c:", "n:"; a group's "g:" is `gid` of lib/groups.ts.
unfoldable pub cid : Text → Text
cid id = b'c' ∷ b':' ∷ id

unfoldable pub nid : Text → Text
nid id = b'n' ∷ b':' ∷ id

unfoldable pub unwrap : Text → Text
unwrap rf_id = drop 2 rf_id

unfoldable pub is_client_id : Text → Bool
unfolding starts_with
is_client_id rf_id = starts_with rf_id (b'c' ∷ b':' ∷ [])

unfoldable pub is_node_id : Text → Bool
unfolding starts_with
is_node_id rf_id = starts_with rf_id (b'n' ∷ b':' ∷ [])

abbrev pub cons_head : ℕ → List Text → List Text
cons_head c [] = (c ∷ []) ∷ []
cons_head c (p ∷ ps) = (c ∷ p) ∷ ps

-- `s.split(sep)` at a separator of one unit.
unfoldable pub split_at : ℕ → Text → List Text
split_at sep [] = [] ∷ []
split_at sep (c ∷ s) = if eqb c sep then [] ∷ split_at sep s else cons_head c (split_at sep s)

-- `s.split("=>")`
unfoldable pub split_arrow : Text → List Text
split_arrow [] = [] ∷ []
split_arrow (c ∷ []) = (c ∷ []) ∷ []
split_arrow (c ∷ d ∷ s) = elim (eqb c b'=' && eqb d b'>') [
  | true ↦ [] ∷ split_arrow s
  | false ↦ cons_head c (split_arrow (d ∷ s))
]

-- A part of a split as a template writes it: a missing one is "undefined".
abbrev pub part : List Text → ℕ → Text
part [] i = codes "undefined"
part (p ∷ ps) zero = p
part (p ∷ ps) (suc i) = part ps i

-- `${a}~${b}`
unfoldable pub joined : Text → Text → Text
joined a b = a ++ b'~' ∷ b

-- "lnk:"
unfoldable pub link_edge_id : Text → Text → Text
unfolding joined
link_edge_id src dst = b'l' ∷ b'n' ∷ b'k' ∷ b':' ∷ joined src dst

unfoldable pub is_link_edge : Text → Bool
unfolding starts_with
is_link_edge id = starts_with id (b'l' ∷ b'n' ∷ b'k' ∷ b':' ∷ [])

unfoldable pub parse_link_edge : Text → List Text
unfolding split_at
parse_link_edge id = split_at b'~' (drop 4 id)

-- `[a, b].sort()`
unfoldable pub first_of : Text → Text → Text
first_of a b = if text_leb a b then a else b

unfoldable pub second_of : Text → Text → Text
second_of a b = if text_leb a b then b else a

-- "bus:"
unfoldable pub bus_edge_id : Text → Text → Text
unfolding joined first_of second_of
bus_edge_id a b = b'b' ∷ b'u' ∷ b's' ∷ b':' ∷ joined (first_of a b) (second_of a b)

unfoldable pub is_bus_edge : Text → Bool
unfolding starts_with
is_bus_edge id = starts_with id (b'b' ∷ b'u' ∷ b's' ∷ b':' ∷ [])

unfoldable pub parse_bus_edge : Text → List Text
unfolding split_at
parse_bus_edge id = split_at b'~' (drop 4 id)

-- `${owner}=>${node}`: the id of a grant's line.
unfoldable pub grant_edge_id : Text → Text → Text
grant_edge_id owner node = owner ++ b'=' ∷ b'>' ∷ node
