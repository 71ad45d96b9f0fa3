-- ===== src/Groups/Layout/RoundTrip.antt =====
-- What `serializeLayout` writes `parseLayout` reads back, and nothing malformed gets through.
use mathlib.Core.List.{append-nil, append_assoc}
use beauty_awg.Base.{
  ◌≡◌, refl, sym, ap, ◌∙◌, ◌≢◌, true, false, List, [], ◌∷◌, ◌++◌, arith, Text, ◌==◌, eq_iff,
  eq_refl, ne-eq-false, filter, All, All-filter, Bool-cases, inl, inr,
}
use beauty_awg.Base.Sets
use beauty_awg.Base.Sets.{includes, Nodup}
use beauty_awg.Base.Dict
use beauty_awg.Base.Dict.{Dict, keys, lookup, insert}
use beauty_awg.Json.{Json, arr, items, fields, of_items, of_fields, entries}
use beauty_awg.Groups.Layout.{
  Layout, groups_key, is_position, is_group, parse_entry, parse_entries, parse_layout,
  serialize_layout, put_groups, read_groups,
}

pub fields-of_fields : (d : Dict Json) → fields (of_fields d) ≡ d
fields-of_fields [] = refl
fields-of_fields ((k, v) ∷ d) = ap (λ r. (k, v) ∷ r) (fields-of_fields d)

pub items-of_items : (vs : List Json) → items (of_items vs) ≡ vs
items-of_items [] = refl
items-of_items (v ∷ vs) = ap (λ r. v ∷ r) (items-of_items vs)

-- Every position has numeric coordinates, no key is listed twice or is the groups' key, and
-- every group has its three fields.
pub record IsWellFormed (l : Layout) : Type 0 where
  pub positions : All (λ e. (e.0 ≢ groups_key) × (is_position e.1 ≡ true)) l.positions
  pub distinct : Nodup (keys l.positions)
  pub groups : All (λ g. is_group g ≡ true) l.groups

All-insert :
    (P : Text × Json → Type 0) (k : Text) (v : Json) (d : Dict Json)
    → P (k, v)
    → All P d
    → All P (insert k v d)
unfolding insert
All-insert P k v [] p h = (p, tt)
All-insert P k v ((j, w) ∷ d) p (q, h) = elim (Bool-cases (j == k)) [
  | inl same ↦ rw same (rw ((eq_iff j k).0 same) p, h)
  | inr other ↦ rw other (q, All-insert P k v d p h)
]

read_groups-All :
    (old : List Json) (v : Json)
    → All (λ g. is_group g ≡ true) old
    → All (λ g. is_group g ≡ true) (read_groups old v)
read_groups-All old (arr vs) h = All-filter _ is_group (λ g e. e) (items vs)
read_groups-All old _ h = h

parse_entry-IsWellFormed :
    (l : Layout) (key : Text) (value : Json)
    → IsWellFormed l
    → IsWellFormed (parse_entry l key value)
parse_entry-IsWellFormed l key value h = elim (Bool-cases (key == groups_key)) [
  | inl reserved ↦ rw reserved (record {
    positions = h.positions;
    distinct = h.distinct;
    groups = read_groups-All l.groups value h.groups;
  })
  | inr other ↦ rw other (elim (Bool-cases (is_position value)) [
    | inl good ↦ rw good (record {
      positions =
          All-insert _ key value l.positions (ground (arith, eq_iff key groups_key), good)
            h.positions;
      distinct = Dict.insert-Nodup key value l.positions h.distinct;
      groups = h.groups;
    })
    | inr bad ↦ rw bad h
  ])
]

parse_entries-IsWellFormed :
    (l : Layout) (d : Dict Json) → IsWellFormed l → IsWellFormed (parse_entries l d)
unfolding parse_entries
parse_entries-IsWellFormed l [] h = h
parse_entries-IsWellFormed l ((key, value) ∷ d) h =
    parse_entries-IsWellFormed (parse_entry l key value) d (parse_entry-IsWellFormed l key value h)

-- Whatever was stored, what is read of it is well formed: numeric coordinates under distinct keys
-- other than the groups' key, and groups that have an id, a name and a list of member ids.
pub parse_layout-IsWellFormed : (raw : Json) → IsWellFormed (parse_layout raw)
unfolding parse_layout
parse_layout-IsWellFormed raw =
    parse_entries-IsWellFormed _ (entries raw)
      (record { positions = tt; distinct = tt; groups = tt })

abbrev ArePositions : Dict Json → Type 0
ArePositions d = All (λ e. (e.0 ≢ groups_key) × (is_position e.1 ≡ true)) d

parse_entry-position :
    (done : Dict Json) (gs : List Json) (k : Text) (v : Json)
    → k ≢ groups_key
    → is_position v ≡ true
    → includes (keys done) k ≡ false
    → parse_entry (record { positions = done; groups = gs }) k v
      ≡ record { positions = done ++ ((k, v) ∷ []); groups = gs }
parse_entry-position done gs k v ne good fresh =
    rw (ne-eq-false k groups_key ne, good, Dict.insert_fresh k v done fresh)

-- The loop takes over positions whose keys are new.
parse_entries-positions :
    (done d rest : Dict Json) (gs : List Json)
    → ArePositions d
    → Nodup (keys (done ++ d))
    → parse_entries (record { positions = done; groups = gs }) (d ++ rest)
      ≡ parse_entries (record { positions = done ++ d; groups = gs }) rest
unfolding parse_entries
parse_entries-positions done [] rest gs h u = rw append-nil
parse_entries-positions done ((k, v) ∷ d) rest gs ((ne, good), h) u =
    let fresh : includes (keys done) k ≡ false =
      Sets.Nodup-middle (keys done) k (keys d) (rw (Dict.keys-append done ((k, v) ∷ d)) at u) in
    ap (λ l. parse_entries l (d ++ rest)) (parse_entry-position done gs k v ne good fresh)
    ∙ (parse_entries-positions (done ++ ((k, v) ∷ [])) d rest gs h
          (rw (append_assoc done ((k, v) ∷ []) d) u)
        ∙ ap (λ p. parse_entries (record { positions = p; groups = gs }) rest)
            (append_assoc done ((k, v) ∷ []) d))

filter_of_All : (gs : List Json) → All (λ g. is_group g ≡ true) gs → filter is_group gs ≡ gs
unfolding filter
filter_of_All [] h = refl
filter_of_All (g ∷ gs) (p, h) = rw p (ap (λ r. g ∷ r) (filter_of_All gs h))

keys-ne-groups_key : (d : Dict Json) → ArePositions d → All (λ k. k ≢ groups_key) (keys d)
keys-ne-groups_key [] h = tt
keys-ne-groups_key ((k, v) ∷ d) ((ne, good), h) = (ne, keys-ne-groups_key d h)

parse_entries-put_groups :
    (d : Dict Json) (gs : List Json)
    → ArePositions d
    → Nodup (keys d)
    → All (λ g. is_group g ≡ true) gs
    → parse_entries (record { positions = []; groups = [] }) (put_groups d gs)
      ≡ record { positions = d; groups = gs }
unfolding put_groups parse_entries
parse_entries-put_groups d [] h u k =
    ap (parse_entries (record { positions = []; groups = [] })) (sym (append-nil d))
    ∙ parse_entries-positions [] d [] [] h u
parse_entries-put_groups d (g ∷ gs) h u k =
    rw
      (Dict.insert_fresh groups_key (arr (of_items (g ∷ gs))) d
        (Sets.includes_of_All (keys d) groups_key (keys-ne-groups_key d h)))
      (parse_entries-positions [] d ((groups_key, arr (of_items (g ∷ gs))) ∷ []) [] h u
        ∙ rw (eq_refl groups_key, items-of_items gs, filter_of_All (g ∷ gs) k))

-- A well-formed layout survives a write and a read.
pub parse_layout-serialize_layout :
    (l : Layout) → IsWellFormed l → parse_layout (serialize_layout l) ≡ l
unfolding parse_layout serialize_layout entries
parse_layout-serialize_layout l h =
    rw (fields-of_fields (put_groups l.positions l.groups))
      (parse_entries-put_groups l.positions l.groups h.positions h.distinct h.groups)

-- What is read, written and read again is the same: loading and saving a layout of any build
-- loses nothing more.
parse_layout_stable :
    (raw : Json) → parse_layout (serialize_layout (parse_layout raw)) ≡ parse_layout raw
parse_layout_stable raw =
    parse_layout-serialize_layout (parse_layout raw) (parse_layout-IsWellFormed raw)
