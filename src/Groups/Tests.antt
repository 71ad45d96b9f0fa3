-- ===== src/Groups/Tests.antt =====
-- Runs of lib/groups.ts.
use beauty_awg.Base.{◌≡◌, true, false, List, [], ◌∷◌, Text}
use beauty_awg.Base.Sets.{includes, Nodup}
use beauty_awg.Json.{Json, num, obj, arr, nil, end, field}
use beauty_awg.Base.Int.{pos}
use beauty_awg.Samples.{home_id, hub_id}
use beauty_awg.Groups.{sync_plan}
use beauty_awg.Groups.Plan.{apply_plan, sync_plan-apply}
use beauty_awg.Groups.Layout.{parse_layout, serialize_layout}
use beauty_awg.Groups.Layout.RoundTrip.{
  IsWellFormed, parse_layout-IsWellFormed, parse_layout-serialize_layout,
}

abbrev wanted : List Text
wanted = home_id ∷ []

abbrev had : List Text
had = hub_id ∷ []

sync_plan-apply_example :
    ((a : Text) → includes (apply_plan (sync_plan wanted had) had) a ≡ includes wanted a)
    × ((a : Text) → includes (sync_plan wanted had).to_add a ≡ true → includes had a ≡ false)
    × ((a : Text)
        → includes (sync_plan wanted had).to_remove a ≡ true
        → (includes had a ≡ true) × (includes wanted a ≡ false))
    × Nodup (sync_plan wanted had).to_add
    × Nodup (sync_plan wanted had).to_remove
sync_plan-apply_example = sync_plan-apply wanted had

-- A blob with one card and a value that is no position.
abbrev blob : Json
blob = obj (
    field (b'c' ∷ []) (obj (field (b'x' ∷ []) (num (pos 1)) (field (b'y' ∷ []) (num (pos 2)) end)))
      (field (b'd' ∷ []) (arr nil) end))

parse_layout-IsWellFormed_example : IsWellFormed (parse_layout blob)
parse_layout-IsWellFormed_example = parse_layout-IsWellFormed blob

parse_layout-serialize_layout_example :
    parse_layout (serialize_layout (parse_layout blob)) ≡ parse_layout blob
parse_layout-serialize_layout_example =
    parse_layout-serialize_layout (parse_layout blob) (parse_layout-IsWellFormed blob)
