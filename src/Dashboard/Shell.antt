-- ===== src/Dashboard/Shell.antt =====
-- page.tsx: what the page shows around its views, and its windows.
use beauty_awg.Base.{
  ℕ, Bool, true, false, not, Option, none, some, List, [], ◌∷◌, ◌++◌, Text, codes, truthy, ◌==◌,
  find, length, eqb, drop, ◌≡◌, refl, if◌then◌else◌,
}
use beauty_awg.Json.{decimal}
use beauty_awg.Api.{
  Panel, VpnNode, Client, rename_client, set_client_color, delete_client, revoke, logout,
}
use beauty_awg.Api.Effects.{M, ◌>>◌, call, note, moved_to}
use beauty_awg.Api.Http.{node_config_url}
use beauty_awg.Ui.{Item, title, prose, alert, button, switch, shown_if}
use beauty_awg.Dashboard.{
  Tab, devices, locations, net_map, Page, guard, active_nodes, home_nodes, pending_nodes, hash_of,
  tab_of, Stringify,
}

-- The states of the windows.
pub record Open : Type 0 where
  pub adding_device : Bool
  pub adding_location : Bool
  pub open_device : Option Text
  pub config_node : Option VpnNode
  -- A client and a node.
  pub editing_rules : Option (Text × Text)

pub data Press : Type 0 where
  select : Tab → Press
  sign_out : Press
  dismiss : Press
  add_device : Press
  add_location : Press

-- What opens and closes the windows.
pub data Move : Type 0 where
  starts_device starts_location ends_device ends_location : Move
  opens : Client → Move
  configures : VpnNode → Move
  limits : Text → Text → Move
  closes_device closes_config closes_limits : Move

unfoldable pub moved : Move → Open → Open
moved starts_device o = record o { adding_device = true }
moved starts_location o = record o { adding_location = true }
moved ends_device o = record o { adding_device = false }
moved ends_location o = record o { adding_location = false }
moved (opens c) o = record o { open_device = some c.id }
moved (configures n) o = record o { config_node = some n }
moved (limits c n) o = record o { editing_rules = some (c, n) }
moved closes_device o = record o { open_device = none }
moved closes_config o = record o { config_node = none }
moved closes_limits o = record o { editing_rules = none }

-- What is shown of a window: its kind, and what it is about.
pub data Window : Type 0 where
  wizard_window : Window
  location_window : Window
  device_window : Client → Window
  limits_window : Client → VpnNode → Window
  config_window : VpnNode → Text → Text → Window

client_with : List Client → Option Text → Option Client
client_with clients none = none
client_with clients (some id) = find (λ c. c.id == id) clients

device_windows : Option Client → List Window
device_windows none = []
device_windows (some c) = device_window c ∷ []

limits_of : Option Client → Option VpnNode → List Window
limits_of (some c) (some n) = limits_window c n ∷ []
limits_of c n = []

limits_windows : List Client → List VpnNode → Option (Text × Text) → List Window
unfolding limits_of
limits_windows clients nodes none = []
limits_windows clients nodes (some (c, n)) =
    limits_of (find (λ x. x.id == c) clients) (find (λ x. x.id == n) (active_nodes nodes))

config_windows : Option VpnNode → List Window
config_windows none = []
config_windows (some n) = config_window n (node_config_url n.id) (n.name ++ codes ".conf") ∷ []

-- The windows, in the order of the markup.
unfoldable pub windows : Page → Open → List Window
unfolding client_with device_windows limits_windows config_windows
windows p o =
    (if o.adding_device then wizard_window ∷ [] else [])
    ++ ((if o.adding_location then location_window ∷ [] else [])
        ++ (device_windows (client_with p.clients o.open_device)
            ++ (limits_windows p.clients p.nodes o.editing_rules ++ config_windows o.config_node)))

-- `versionTitle`
unfoldable pub version_title : Bool → Text → Text → Text
version_title ui_differs version ui_build =
    if ui_differs
    then codes "API "
      ++ ((if truthy version then version else codes "unknown")
          ++ (codes " · web UI built from " ++ ui_build))
    else codes "Panel version " ++ version

badge : ℕ → Text
badge n = if eqb n 0 then [] else codes " " ++ decimal n

-- `tab === …`
is_tab : Tab → Tab → Bool
is_tab devices devices = true
is_tab locations locations = true
is_tab net_map net_map = true
is_tab a b = false

-- The bar at the top, with the label of the version.
unfoldable pub top_bar : Page → Text → List (Item Press)
unfolding badge is_tab
top_bar p version =
    switch (codes "Devices " ++ decimal (length p.clients)) (is_tab p.tab devices) (select devices)
      ∷ switch
          (codes "Locations "
            ++ (decimal (length (home_nodes p.nodes)) ++ badge (length (pending_nodes p.nodes))))
          (is_tab p.tab locations) (select locations)
      ∷ switch (codes "Network map") (is_tab p.tab net_map) (select net_map)
      ∷ shown_if (truthy version) (prose version ∷ [])
    ++ (button (codes "Sign out") false sign_out ∷ [])

-- The head of a tab.
unfoldable pub tab_head : Tab → List (Item Press)
tab_head devices =
    title (codes "Devices")
    ∷ prose (codes "Each phone, laptop or tablet that connects gets its own config.")
    ∷ button (codes "Add device") false add_device
    ∷ []
tab_head locations =
    title (codes "Locations")
    ∷ prose (codes "Homes and offices whose local network your devices can reach.")
    ∷ button (codes "Add location") false add_location
    ∷ []
tab_head net_map = []

-- The page, without the view of its tab; before the first load only that it loads.
unfoldable pub page_view : Page → Text → List (Item Press)
unfolding top_bar tab_head
page_view p version =
    if not p.ready
    then prose (codes "Loading…") ∷ []
    else top_bar p version
      ++ (shown_if (truthy p.err) (alert p.err ∷ button (codes "Dismiss") false dismiss ∷ [])
          ++ tab_head p.tab)

-- `selectTab`: the tab, and the fragment of the address.
unfoldable pub select_tab : Tab → Page → Page × Text
select_tab t p = (record p { tab = t }, b'#' ∷ hash_of t)

-- The tab of the fragment, at the mount.
unfoldable pub restore_tab : Text → Page → Page
restore_tab fragment p = elim (tab_of fragment) [ none ↦ p | some t ↦ record p { tab = t } ]

-- A tab that is selected is the one that a reload of the page, or a shared link, opens.
restore_tab-select_tab :
    (t : Tab) (p q : Page) → (restore_tab (drop 1 (select_tab t p).1) q).tab ≡ t
unfolding restore_tab select_tab tab_of hash_of codes ◌==◌
restore_tab-select_tab devices p q = refl
restore_tab-select_tab locations p q = refl
restore_tab-select_tab net_map p q = refl

module _ {S : Type 0} (P : Panel S) where
  -- "Sign out"
  unfoldable pub leave : M S Page (Unit {0})
  leave = do call P logout; note (moved_to (codes "/login"))

  module _ (J : Stringify) where
    -- What the windows of a device and of its limits hand to `guard`.
    unfoldable pub rename_device : Client → Text → M S Page (Unit {0})
    rename_device c name = guard J P (call P (rename_client c.id name))

    unfoldable pub color_device : Client → Text → M S Page (Unit {0})
    color_device c color = guard J P (call P (set_client_color c.id color))

    unfoldable pub remove_device : Client → M S Page (Unit {0})
    remove_device c = guard J P (call P (delete_client c.id))

    unfoldable pub remove_access : Text → Text → M S Page (Unit {0})
    remove_access c n = guard J P (call P (revoke c n))
