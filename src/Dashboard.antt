-- ===== src/Dashboard.antt =====
-- web/app/page.tsx: the panel's page, its poll and what it derives from the data.
pub mod Forms
pub mod Loading
pub mod Naming
pub mod Shell
mod Tests
use beauty_awg.Base.{
  ℕ, Bool, true, false, ◌&&◌, ◌||◌, not, Option, none, some, List, [], ◌∷◌, ◌++◌, Text, codes, ◌==◌,
  eqb, any, filter, find, if◌then◌else◌,
}
use beauty_awg.Base.Strings.{truthy}
use beauty_awg.Base.Dict.{Dict, lookup, insert}
use beauty_awg.Json.{Json, obj, Fields, end}
use beauty_awg.Groups.{Group}
use beauty_awg.Groups.Layout.{parse_layout}
use beauty_awg.Errors.{Thrown, api_error, error, other, human_error}
use beauty_awg.Api.{
  Panel, VpnNode, Client, NodeLink, Status, pending, active, rejected, list_nodes, list_clients,
  list_node_links, get_layout, Call,
}
use beauty_awg.Api.Effects.{
  M, World, ◌>>=◌, ◌>>◌, modify, get, done, call, note, attempt, both, or_else, moved_to, pure,
}

pub data Tab : Type 0 where
  devices locations net_map : Tab

-- The page's state. `seen` is the last payload per key, as JSON; the groups are kept as JSON too.
pub record Page : Type 0 where
  pub nodes : List VpnNode
  pub clients : List Client
  pub links : List NodeLink
  pub groups : List Json
  pub tab : Tab
  pub ready : Bool
  pub err : Text
  pub seen : Dict Text

-- `JSON.stringify` at the four types that the page compares.
pub record Stringify : Type 0 where
  pub nodes : List VpnNode → Text
  pub clients : List Client → Text
  pub links : List NodeLink → Text
  pub groups : List Json → Text

-- `seen.current[key] === sig`
is_seen : Option Text → Text → Bool
is_seen none sig = false
is_seen (some s) sig = s == sig

-- `setIfChanged`, with the setter of the state.
unfoldable pub set_if_changed : Text → Text → (Page → Page) → Page → Page
unfolding is_seen
set_if_changed key sig set p =
    if is_seen (lookup key p.seen) sig then p else set (record p { seen = insert key sig p.seen })

-- The four payloads, in the order of the calls.
pub record Payload : Type 0 where
  pub nodes : List VpnNode
  pub clients : List Client
  pub links : List NodeLink
  pub layout : Json

module _ (J : Stringify) where
  unfoldable pub take_payload : Payload → Page → Page
  unfolding set_if_changed
  take_payload d p =
      let groups = (parse_layout d.layout).groups in
      set_if_changed (codes "groups") (J.groups groups) (λ q. record q { groups = groups })
        (set_if_changed (codes "links") (J.links d.links) (λ q. record q { links = d.links })
          (set_if_changed (codes "clients") (J.clients d.clients)
            (λ q. record q { clients = d.clients })
            (set_if_changed (codes "nodes") (J.nodes d.nodes) (λ q. record q { nodes = d.nodes })
              p)))

  module _ {S : Type 0} (P : Panel S) where
    -- `Promise.all` of the four calls; the layout's failure is an empty layout.
    unfoldable pub fetch_all : M S Page Payload
    fetch_all = do
      (n, (c, (l, layout))) ← both (call P list_nodes) (
          both (call P list_clients)
            (both (call P list_node_links) (or_else (call P get_layout) (obj end))))
      pure (record { nodes = n; clients = c; links = l; layout = layout })

    unfoldable pub load_failed : Thrown → M S Page (Unit {0})
    load_failed (api_error status text) =
        if eqb status 401
        then note (moved_to (codes "/login"))
        else modify (λ p. record p { err = human_error (api_error status text); ready = true })
    load_failed e = modify (λ p. record p { err = human_error e; ready = true })

    unfoldable pub load : M S Page (Unit {0})
    unfolding fetch_all load_failed take_payload
    load =
        attempt
          (do
            d ← fetch_all
            modify (take_payload d)
            modify (λ p. record p { err = []; ready = true }))
          load_failed

    -- `guard`
    unfoldable pub guard : M S Page (Unit {0}) → M S Page (Unit {0})
    unfolding load
    guard act = do
      modify (λ p. record p { err = [] })
      attempt (do act; load) (λ e. modify (λ p. record p { err = human_error e }))

-- `isTab`, with the tab it is.
unfoldable pub tab_of : Text → Option Tab
tab_of v =
    if v == codes "devices"
    then some devices
    else if v == codes "locations"
    then some locations
    else if v == codes "map"
    then some net_map
    else none

unfoldable pub hash_of : Tab → Text
hash_of devices = codes "devices"
hash_of locations = codes "locations"
hash_of net_map = codes "map"

-- The two loops that fill `groupNameByClient`.
unfoldable pub name_members : Text → List Text → Dict Text → Dict Text
name_members name [] d = d
name_members name (m ∷ ms) d = name_members name ms (insert m name d)

unfoldable pub group_names_from : List Group → Dict Text → Dict Text
unfolding name_members
group_names_from [] d = d
group_names_from (g ∷ gs) d = group_names_from gs (name_members g.name g.members d)

unfoldable pub group_name_by_client : List Group → Dict Text
unfolding group_names_from
group_name_by_client groups = group_names_from groups []

unfoldable pub has_status : Status → Status → Bool
has_status pending pending = true
has_status active active = true
has_status rejected rejected = true
has_status _ _ = false

unfoldable pub active_nodes : List VpnNode → List VpnNode
unfolding has_status
active_nodes nodes = filter (λ n. has_status n.status active) nodes

unfoldable pub home_nodes : List VpnNode → List VpnNode
unfolding active_nodes
home_nodes nodes = filter (λ n. not n.is_hub) (active_nodes nodes)

unfoldable pub pending_nodes : List VpnNode → List VpnNode
unfolding has_status
pending_nodes nodes = filter (λ n. has_status n.status pending) nodes

ui_differs : Text → Text → Bool
ui_differs ui version = truthy ui && (not (ui == codes "dev") && not (ui == version))

-- `[version, …].filter(Boolean).join(" · ")`
unfoldable pub version_label : Text → Text → Text
unfolding ui_differs
version_label ui version =
    let ui_part = codes "ui " ++ ui in
    if ui_differs ui version
    then (if truthy version then version ++ codes " · " ++ ui_part else ui_part)
    else version
