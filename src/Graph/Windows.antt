-- ===== src/Graph/Windows.antt =====
-- AccessGraph.tsx: the windows over the map, each shown only while what it is about is there, and
-- the tip.
use beauty_awg.Base.{
  Bool, true, false, not, Option, none, some, List, [], ◌∷◌, ◌++◌, Text, codes, ◌==◌, find,
  if◌then◌else◌, length,
}
use beauty_awg.Json.{decimal}
use beauty_awg.Groups.{Group}
use beauty_awg.Api.{VpnNode, Client, NodeLink}
use beauty_awg.Ui.{Item, prose, button, shown_if}
use beauty_awg.Graph.Dialogs.{has_reverse}
use beauty_awg.Graph.Events.{server_with, client_with}

-- What is shown of a window: its kind, and what it is given.
pub data Shown : Type 0 where
  -- The limits: of whom, at which location, with which names.
  limits : List Text → Text → Text → Text → Shown
  group_window : Group → List Client → Shown
  link_window : Text → Text → Bool → Shown
  device_window : Client → Shown
  rename_window : Text → Shown

-- Two ids that a window is about.
pub record Two : Type 0 where
  pub one : Text
  pub other : Text

-- The states that the windows are shown by.
pub record OpenWindows : Type 0 where
  pub editing_group_rules : Option Two
  pub editing_group : Option Text
  pub editing : Option Two
  pub editing_link : Option Two
  pub details_client : Option Text
  pub renaming_node : Option Text

-- `${g.name} (${g.members.length} devices)`
unfoldable pub group_label : Group → Text
group_label g = g.name ++ (codes " (" ++ (decimal (length g.members) ++ codes " devices)"))

unfoldable pub group_limits : Option Group → Option VpnNode → List Shown
unfolding group_label
group_limits (some g) (some n) = elim g.members [
  | [] ↦ []
  | m ∷ ms ↦
      limits (m ∷ ms) n.id (group_label g) (if n.is_hub then codes "the internet" else n.name) ∷ []
]
group_limits g n = []

-- `g.members.map(…).filter(Boolean)`
unfoldable pub live_members : List Client → List Text → List Client
live_members clients [] = []
live_members clients (m ∷ ms) =
    let rest = live_members clients ms in
    elim (find (λ c. c.id == m) clients) [ none ↦ rest | some c ↦ c ∷ rest ]

unfoldable pub group_with : List Group → Option Text → Option Group
group_with groups none = none
group_with groups (some id) = find (λ g. g.id == id) groups

group_windows : List Client → Option Group → List Shown
unfolding live_members
group_windows clients none = []
group_windows clients (some g) = group_window g (live_members clients g.members) ∷ []

device_limits : Option Two → Option VpnNode → Option Client → List Shown
device_limits (some t) (some n) (some c) = limits (t.one ∷ []) t.other c.name n.name ∷ []
device_limits t n c = []

link_windows : List NodeLink → Option Two → Option VpnNode → Option VpnNode → List Shown
link_windows links (some t) (some src) (some dst) =
    link_window src.name dst.name (has_reverse links t.one t.other) ∷ []
link_windows links t src dst = []

device_windows : Option Client → List Shown
device_windows none = []
device_windows (some c) = device_window c ∷ []

rename_windows : Option Text → List Shown
rename_windows none = []
rename_windows (some name) = rename_window name ∷ []

-- An id of a pair, if there is a pair.
abbrev one_of : Option Two → Option Text
one_of none = none
one_of (some t) = some t.one

abbrev other_of : Option Two → Option Text
other_of none = none
other_of (some t) = some t.other

-- The windows, in the order of the markup; of a pair for limits the second is the location.
unfoldable pub windows :
    List VpnNode → List Client → List Group → List NodeLink → OpenWindows → List Shown
unfolding group_limits group_windows device_limits link_windows device_windows rename_windows
windows servers clients groups links o =
    group_limits (group_with groups (one_of o.editing_group_rules))
      (server_with servers (other_of o.editing_group_rules))
    ++ (group_windows clients (group_with groups o.editing_group)
        ++ (device_limits o.editing (server_with servers (other_of o.editing))
              (client_with clients (one_of o.editing))
            ++ (link_windows links o.editing_link (server_with servers (one_of o.editing_link))
                  (server_with servers (other_of o.editing_link))
                ++ (device_windows (client_with clients o.details_client)
                    ++ rename_windows o.renaming_node))))

-- The tip, until it is hidden.
unfoldable pub tip : Bool → List (Item (Unit {0}))
tip open_tip = shown_if open_tip (
    prose (
      codes
        "Click a card to see just what it reaches — the gear on it opens its settings. Drag from "
      ++ (codes
            "a device to a location to give access, or between two locations to link their networks. "
          ++ codes "Click a line to change or remove it."))
    ∷ button (codes "Hide this tip") false tt
    ∷ [])

-- The tip is shown unless "off" was stored; storage that is blocked shows it.
unfoldable pub tip_open : Option Text → Bool
tip_open none = true
tip_open (some v) = not (v == codes "off")
