-- ===== src/Dashboard/Naming.antt =====
-- The group's name that page.tsx shows for a device.
use beauty_awg.Base.{
  ◌≡◌, refl, ap, ◌∙◌, ◌↔◌, Bool, true, false, ◌&&◌, Option, none, some, List, [], ◌∷◌, arith, Text,
  ◌==◌, eq_refl, any, find, if◌then◌else◌,
}
use beauty_awg.Base.Sets.{includes}
use beauty_awg.Base.Dict.{Dict, lookup, insert, lookup-insert}
use beauty_awg.Groups.{Group, group_of}
use beauty_awg.Dashboard.{name_members, group_names_from, group_name_by_client}

-- The name of the last group that holds the device, or what was there.
abbrev last_name : Text → List Group → Option Text → Option Text
last_name c [] o = o
last_name c (g ∷ gs) o = last_name c gs (if includes g.members c then some g.name else o)

lookup-name_members :
    (c name : Text) (ms : List Text) (d : Dict Text)
    → lookup c (name_members name ms d) ≡ (if includes ms c then some name else lookup c d)
unfolding name_members includes
lookup-name_members c name [] d = refl
lookup-name_members c name (m ∷ ms) d =
    lookup-name_members c name ms (insert m name d) ∙ ground (arith, lookup-insert c m name d)

lookup-group_names_from :
    (c : Text) (gs : List Group) (d : Dict Text)
    → lookup c (group_names_from gs d) ≡ last_name c gs (lookup c d)
unfolding group_names_from
lookup-group_names_from c [] d = refl
lookup-group_names_from c (g ∷ gs) d =
    lookup-group_names_from c gs (name_members g.name g.members d)
    ∙ ap (last_name c gs) (lookup-name_members c g.name g.members d)

-- Some group of the list holds the device and has the name.
abbrev pub holds_named : List Group → Text → Text → Bool
holds_named gs c name = any (λ g. includes g.members c && g.name == name) gs

last_name-holds :
    (c name : Text) (gs : List Group) (o : Option Text)
    → last_name c gs o ≡ some name
    → (holds_named gs c name ≡ false → o ≡ some name)
unfolding any
last_name-holds c name [] o h k = h
last_name-holds c name (g ∷ gs) o h k = ground (
  arith,
  last_name-holds c name gs (if includes g.members c then some g.name else o) h,
  eq_refl name,
)

last_name-none :
    (c : Text) (gs : List Group) (o : Option Text)
    → (last_name c gs o ≡ none) ↔ ((o ≡ none) × (find (λ g. includes g.members c) gs ≡ none))
unfolding find
last_name-none c [] o = (λ h. (h, refl), λ h. h.0)
last_name-none c (g ∷ gs) o =
    ground (arith, last_name-none c gs (if includes g.members c then some g.name else o))

-- A device is shown as managed by a group exactly when a group holds it, and the name shown is that
-- of a group that holds it.
pub group_name_by_client-group_of :
    (gs : List Group) (c : Text)
    → ((lookup c (group_name_by_client gs) ≡ none) ↔ (group_of gs c ≡ none))
      × ((name : Text)
          → lookup c (group_name_by_client gs) ≡ some name
          → holds_named gs c name ≡ true)
unfolding group_name_by_client group_of lookup
group_name_by_client-group_of gs c = (
  ground (arith, lookup-group_names_from c gs [], last_name-none c gs none),
  λ name h. ground (arith, lookup-group_names_from c gs [], last_name-holds c name gs none),
)
