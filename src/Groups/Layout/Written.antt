-- ===== src/Groups/Layout/Written.antt =====
-- Groups that the map writes are groups for `parseLayout`.
use beauty_awg.Base.{◌≡◌, refl, true, List, [], ◌∷◌, Text, All, map, all, codes, ◌==◌}
use beauty_awg.Base.Dict.{lookup}
use beauty_awg.Json.{str}
use beauty_awg.Groups.{Group}
use beauty_awg.Groups.Layout.{is_group, group_json, is_str, is_str_array, str_item}
use beauty_awg.Groups.Layout.RoundTrip.{items-of_items}

all-str_item : (ts : List Text) → all str_item (map str ts) ≡ true
unfolding all str_item
all-str_item [] = refl
all-str_item (t ∷ ts) = all-str_item ts

pub group_json-is_group : (g : Group) → is_group (group_json g) ≡ true
unfolding is_group group_json lookup codes ◌==◌ is_str is_str_array
group_json-is_group g = rw (items-of_items (map str g.members), all-str_item g.members) refl

pub group_json-All : (gs : List Group) → All (λ g. is_group g ≡ true) (map group_json gs)
group_json-All [] = tt
group_json-All (g ∷ gs) = (group_json-is_group g, group_json-All gs)
