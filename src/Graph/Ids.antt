-- ===== src/Graph/Ids.antt =====
-- The ids of lines can be read back.
use beauty_awg.Base.{
  ℕ, ◌≡◌, refl, ap, ◌∙◌, ◌≢◌, true, false, ◌&&◌, [], ◌∷◌, ◌++◌, arith, Text, All, text_leb,
  text_leb_antisym, text_leb_total, Bool-cases, inl, inr, sym, ◌⊎◌,
}
use beauty_awg.Groups.{gid}
use beauty_awg.Graph.{
  cons_head, split_at, split_arrow, joined, link_edge_id, is_link_edge, parse_link_edge, first_of,
  second_of, bus_edge_id, is_bus_edge, parse_bus_edge, grant_edge_id,
}

-- The ids of the backend are UUIDs: hexadecimal digits and dashes. None of them is one of the
-- signs that the map's ids are put together with.
abbrev pub IsPlain : Text → Type 0
IsPlain id = All (λ c. (c ≢ b'~') × (c ≢ b'=') × (c ≢ b'>')) id

split_at_last : (t : Text) → IsPlain t → split_at b'~' t ≡ t ∷ []
unfolding split_at
split_at_last [] h = refl
split_at_last (c ∷ t) (p, h) = ground (arith, split_at_last t h)

split_at-joined : (a b : Text) → IsPlain a → IsPlain b → split_at b'~' (joined a b) ≡ a ∷ b ∷ []
unfolding split_at joined
split_at-joined [] b h k = ground (arith, split_at_last b k)
split_at-joined (c ∷ a) b (p, h) k = ground (arith, split_at-joined a b h k)

split_arrow_step :
    (c d : ℕ) (s : Text) → c ≢ b'=' → split_arrow (c ∷ d ∷ s) ≡ cons_head c (split_arrow (d ∷ s))
unfolding split_arrow
split_arrow_step c d s h = ground arith

split_arrow_last : (t : Text) → IsPlain t → split_arrow t ≡ t ∷ []
split_arrow_last [] h = unfold split_arrow in refl
split_arrow_last (c ∷ []) h = unfold split_arrow in refl
split_arrow_last (c ∷ d ∷ t) (p, h) = rw (split_arrow_step c d t p.1, split_arrow_last (d ∷ t) h)

split_arrow-grant_edge_id :
    (owner node : Text)
    → IsPlain owner
    → IsPlain node
    → split_arrow (grant_edge_id owner node) ≡ owner ∷ node ∷ []
unfolding grant_edge_id
split_arrow-grant_edge_id [] node h k =
    unfold split_arrow in ap (λ l. [] ∷ l) (split_arrow_last node k)
split_arrow-grant_edge_id (c ∷ []) node (p, h) k =
    rw (split_arrow_step c b'=' (b'>' ∷ node) p.1, split_arrow-grant_edge_id [] node tt k)
split_arrow-grant_edge_id (c ∷ d ∷ o) node (p, h) k =
    rw (
      split_arrow_step c d (o ++ b'=' ∷ b'>' ∷ node) p.1,
      split_arrow-grant_edge_id (d ∷ o) node h k,
    )

-- The two ends of a bus are the two locations, in one order or the other.
pub ends_of_bus :
    (a b : Text)
    → ((first_of a b ≡ a) × (second_of a b ≡ b)) ⊎ ((first_of a b ≡ b) × (second_of a b ≡ a))
unfolding first_of second_of
ends_of_bus a b = ground arith

parse_bus_edge-bus_edge_id :
    (a b : Text)
    → IsPlain a
    → IsPlain b
    → parse_bus_edge (bus_edge_id a b) ≡ first_of a b ∷ second_of a b ∷ []
unfolding parse_bus_edge bus_edge_id
parse_bus_edge-bus_edge_id a b h k = elim (Bool-cases (text_leb a b)) [
  | inl le ↦ rw le (split_at-joined a b h k)
  | inr gt ↦ rw gt (split_at-joined b a k h)
]

pub bus_edge_id_comm : (a b : Text) → bus_edge_id a b ≡ bus_edge_id b a
unfolding bus_edge_id
bus_edge_id_comm a b = elim (Bool-cases (text_leb a b)) [
  | inl le ↦ elim (Bool-cases (text_leb b a)) [
    | inl ge ↦
        ap (λ t. bus_edge_id t b) (text_leb_antisym a b le ge)
        ∙ ap (bus_edge_id b) (sym (text_leb_antisym a b le ge))
    | inr lt ↦ rw (le, lt)
  ]
  | inr gt ↦ rw (gt, text_leb_total a b gt)
]

-- The lines of the map can be told apart and taken apart by their ids, for ids of the backend: a
-- link gives back its source and destination, a bus its two ends in the order of their ids
-- whichever way it was made, and a grant's line its owner and node, where the owner is a client or
-- a group's card.
pub edge_ids-parse :
    (a b : Text)
    → IsPlain a
    → IsPlain b
    → (parse_link_edge (link_edge_id a b) ≡ a ∷ b ∷ [])
      × (parse_bus_edge (bus_edge_id a b) ≡ first_of a b ∷ second_of a b ∷ [])
      × (bus_edge_id a b ≡ bus_edge_id b a)
      × (split_arrow (grant_edge_id a b) ≡ a ∷ b ∷ [])
      × (split_arrow (grant_edge_id (gid a) b) ≡ gid a ∷ b ∷ [])
      × ((is_link_edge (link_edge_id a b) && is_bus_edge (bus_edge_id a b)) ≡ true)
      × (is_bus_edge (link_edge_id a b) ≡ false)
      × (is_link_edge (bus_edge_id a b) ≡ false)
unfolding parse_link_edge link_edge_id parse_bus_edge bus_edge_id is_link_edge is_bus_edge gid
edge_ids-parse a b h k = (
  split_at-joined a b h k,
  parse_bus_edge-bus_edge_id a b h k,
  bus_edge_id_comm a b,
  split_arrow-grant_edge_id a b h k,
  split_arrow-grant_edge_id (gid a) b (omega arith, (omega arith, h)) k,
  refl,
  refl,
  refl,
)
