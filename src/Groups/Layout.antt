-- ===== src/Groups/Layout.antt =====
-- web/app/lib/groups.ts: the layout blob. A blob is kept as the JSON that it is: `parseLayout`
-- keeps whole values, and what it tests of them is `is_position` and `is_group`.
pub mod RoundTrip
pub mod Written
use beauty_awg.Base.{
  ℕ, Bool, true, false, ◌&&◌, Option, none, some, List, [], ◌∷◌, if◌then◌else◌, Text, codes, ◌==◌,
  filter, all, map, ◌++◌,
}
use beauty_awg.Base.Int.{ℤ}
use beauty_awg.Base.Dict
use beauty_awg.Base.Dict.{Dict, lookup, insert}
use beauty_awg.Json.{
  Json, null, bool, num, str, arr, obj, Items, nil, cons, Fields, end, field, items, fields,
  of_items, of_fields, entries,
}
use beauty_awg.Groups.{Group}

-- "__groups"
unfoldable pub groups_key : Text
unfolding codes
groups_key = codes "__groups"

pub record Layout : Type 0 where
  pub positions : Dict Json
  pub groups : List Json

is_num : Option Json → Bool
is_num (some (num n)) = true
is_num _ = false

is_str : Option Json → Bool
is_str (some (str s)) = true
is_str _ = false

str_item : Json → Bool
str_item (str s) = true
str_item _ = false

-- `Array.isArray(v) && v.every((m) => typeof m === "string")`
is_str_array : Option Json → Bool
unfolding str_item
is_str_array (some (arr vs)) = all str_item (items vs)
is_str_array _ = false

-- A value that is no object has no fields; an array's own keys are indices.
unfoldable pub is_position : Json → Bool
unfolding is_num
is_position (obj fs) =
    is_num (lookup (codes "x") (fields fs)) && is_num (lookup (codes "y") (fields fs))
is_position _ = false

unfoldable pub is_group : Json → Bool
unfolding is_str is_str_array
is_group (obj fs) =
    is_str (lookup (codes "id") (fields fs))
    && (is_str (lookup (codes "name") (fields fs))
        && is_str_array (lookup (codes "members") (fields fs)))
is_group _ = false

-- What `parseLayout` does at the groups' key: only an array replaces the groups.
abbrev read_groups : List Json → Json → List Json
read_groups old (arr vs) = filter is_group (items vs)
read_groups old _ = old

abbrev parse_entry : Layout → Text → Json → Layout
parse_entry out key value =
    if key == groups_key
    then record out { groups = read_groups out.groups value }
    else if is_position value
    then record out { positions = insert key value out.positions }
    else out

-- The loop of `parseLayout`.
unfoldable pub parse_entries : Layout → Dict Json → Layout
parse_entries out [] = out
parse_entries out ((key, value) ∷ rest) = parse_entries (parse_entry out key value) rest

unfoldable pub parse_layout : Json → Layout
unfolding parse_entries
parse_layout raw = parse_entries (record { positions = []; groups = [] }) (entries raw)

-- `blob[GROUPS_KEY] = layout.groups`, if there are groups.
put_groups : Dict Json → List Json → Dict Json
put_groups blob [] = blob
put_groups blob (g ∷ gs) = insert groups_key (arr (of_items (g ∷ gs))) blob

unfoldable pub serialize_layout : Layout → Json
unfolding put_groups
serialize_layout l = obj (of_fields (put_groups l.positions l.groups))

opt_num : Option ℤ → Text → Dict Json
opt_num none key = []
opt_num (some n) key = (key, num n) ∷ []

opt_str : Option Text → Text → Dict Json
opt_str none key = []
opt_str (some s) key = (key, str s) ∷ []

-- A group as the map writes it: `JSON.stringify` leaves out a field that is `undefined`.
unfoldable pub group_json : Group → Json
unfolding opt_num opt_str
group_json g = obj (
    of_fields (
      (codes "id", str g.id)
      ∷ (codes "name", str g.name)
      ∷ (codes "members", arr (of_items (map str g.members)))
      ∷ (opt_num g.w (codes "w") ++ (opt_num g.h (codes "h") ++ opt_str g.color (codes "color")))))
