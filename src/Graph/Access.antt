-- ===== src/Graph/Access.antt =====
-- AccessGraph.tsx: connections that are drawn, and lines that are clicked or deleted.
pub mod Granting
pub mod Drawing
pub mod Deletion
pub mod Sending
use beauty_awg.Base.{
  ℕ, Bool, true, false, ◌&&◌, ◌||◌, not, Option, none, some, List, [], ◌∷◌, ◌++◌, Text, codes, ◌==◌,
  find, length, if◌then◌else◌,
}
use beauty_awg.Base.Sets
use beauty_awg.Json.{decimal}
use beauty_awg.Errors.{Thrown}
use beauty_awg.Groups.{Group, gid, is_group_id}
use beauty_awg.Api.{VpnNode, Client, Panel, grant, revoke, link_nodes, unlink_nodes}
use beauty_awg.Api.Effects.{
  M, ◌>>=◌, ◌>>◌, get, done, call, note, announce, report, attempt, for_each, reported, reloaded,
  edge_added,
}
use beauty_awg.Graph.{
  unwrap, is_client_id, is_node_id, split_arrow, part, link_edge_id, is_link_edge, parse_link_edge,
  is_bus_edge, parse_bus_edge, grant_edge_id,
}
use beauty_awg.Graph.State.{MapState}

pub record Connection : Type 0 where
  pub source : Option Text
  pub target : Option Text

pub record Edge : Type 0 where
  pub id : Text
  pub source : Text
  pub target : Text

-- `servers.find((s) => s.id === id)?.name ?? fallback`
unfoldable pub node_name : List VpnNode → Text → Text → Text
node_name servers id fallback = elim (find (λ s. s.id == id) servers) [
  | none ↦ fallback
  | some s ↦ s.name
]

unfoldable pub client_name : List Client → Text → Text → Text
client_name clients id fallback = elim (find (λ c. c.id == id) clients) [
  | none ↦ fallback
  | some c ↦ c.name
]

-- `${group.name} (${group.members.length} devices)`
unfoldable pub group_title : Group → Text
group_title g = g.name ++ codes " (" ++ decimal (length g.members) ++ codes " devices)"

unfoldable pub group_with_id : List Group → Text → Option Group
group_with_id groups id = find (λ g. g.id == id) groups

-- `selectionAnchor`
unfoldable pub selection_anchor : Option Text → List Group → Option Text
selection_anchor none groups = none
selection_anchor (some id) groups =
    if is_client_id id
    then elim (find (λ g. Sets.includes g.members (unwrap id)) groups) [
      | none ↦ some id
      | some g ↦ some (gid g.id)
    ]
    else some id

unfoldable pub in_selection : Option Text → Edge → Bool
in_selection none e = true
in_selection (some anchor) e = e.source == anchor || e.target == anchor

-- What a connection asks for, in the order of the tests of `onConnect`.
pub data Wish : Type 0 where
  group_grant : Text → Text → Wish
  client_grant : Text → Text → Wish
  node_link : Text → Text → Wish
  no_wish : Wish

unfoldable pub wish_between : Text → Text → Wish
wish_between s t =
    if is_node_id t
    then if is_group_id s
      then group_grant (unwrap s) (unwrap t)
      else if is_client_id s
      then client_grant (unwrap s) (unwrap t)
      else if is_node_id s
      then node_link (unwrap s) (unwrap t)
      else no_wish
    else no_wish

ends : Option Text → Option Text → Wish
unfolding wish_between
ends (some s) (some t) = wish_between s t
ends s t = no_wish

unfoldable pub wish_of : Connection → Wish
unfolding ends
wish_of c = ends c.source c.target

-- What a line stands for, in the order of the tests of `onEdgesDelete` and `onEdgeClick`.
pub data Line : Type 0 where
  group_line : Text → Text → Line
  bus_line : Text → Text → Line
  link_line : Text → Text → Line
  client_line : Text → Text → Line

unfoldable pub line_of : Edge → Line
line_of e =
    if is_group_id e.source
    then group_line (unwrap e.source) (part (split_arrow e.id) 1)
    else if is_bus_edge e.id
    then bus_line (part (parse_bus_edge e.id) 0) (part (parse_bus_edge e.id) 1)
    else if is_link_edge e.id
    then link_line (part (parse_link_edge e.id) 0) (part (parse_link_edge e.id) 1)
    else client_line (part (split_arrow e.id) 0) (part (split_arrow e.id) 1)

module _ {S : Type 0} (P : Panel S) (servers : List VpnNode) (clients : List Client) where
  failing : Text → Thrown → M S MapState (Unit {0})
  failing prefix e = do report prefix e; note reloaded

  -- `if (group.members.length > 0)`
  announce_group : Text → List Text → M S MapState (Unit {0})
  announce_group title [] = done
  announce_group title (m ∷ ms) = announce title

  grant_group : Option Group → Text → M S MapState (Unit {0})
  unfolding failing announce_group
  grant_group none node = done
  grant_group (some g) node =
      attempt
        (do
          for_each g.members (λ m. call P (grant m node))
          announce_group (group_title g) g.members
          note reloaded)
        (failing (codes "Couldn't give access: "))

  grant_client : Text → Text → M S MapState (Unit {0})
  unfolding failing
  grant_client client node = do
    note (edge_added (grant_edge_id client node))
    attempt
        (do
          call P (grant client node)
          announce (client_name clients client (codes "client"))
          note reloaded)
        (failing (codes "Couldn't give access: "))

  link_pair : Text → Text → M S MapState (Unit {0})
  unfolding failing
  link_pair src dst =
      if src == dst then note (reported (codes "A location can't link to itself.")) else do
        note (edge_added (link_edge_id src dst))
        attempt
            (do
              call P (link_nodes src dst)
              announce (node_name servers src (codes "node"))
              note reloaded)
            (failing (codes "Couldn't link those locations: "))

  carry_out : Wish → M S MapState (Unit {0})
  unfolding grant_group grant_client link_pair
  carry_out (group_grant g node) = do s ← get; grant_group (group_with_id s.groups g) node
  carry_out (client_grant client node) = grant_client client node
  carry_out (node_link src dst) = link_pair src dst
  carry_out no_wish = note (
      reported (
        codes
          "Drag from a device to a location to give access, or between two locations to link them."))

  unfoldable pub on_connect : Connection → M S MapState (Unit {0})
  unfolding carry_out
  on_connect c = carry_out (wish_of c)

  revoke_group : Option Group → Text → M S MapState (Unit {0})
  revoke_group none node = done
  revoke_group (some g) node =
      attempt (do for_each g.members (λ m. call P (revoke m node)); announce (group_title g))
        (report (codes "Couldn't take away access: "))

  unfoldable pub delete_line : Line → M S MapState (Unit {0})
  unfolding revoke_group
  delete_line (group_line g node) = do s ← get; revoke_group (group_with_id s.groups g) node
  delete_line (bus_line a b) =
      attempt
        (do
          call P (unlink_nodes a b)
          call P (unlink_nodes b a)
          announce (node_name servers a (codes "location")))
        (report (codes "Couldn't remove the link: "))
  delete_line (link_line src dst) =
      attempt (do call P (unlink_nodes src dst); announce (node_name servers src (codes "node")))
        (report (codes "Couldn't remove the link: "))
  delete_line (client_line client node) =
      attempt
        (do call P (revoke client node); announce (client_name clients client (codes "client")))
        (report (codes "Couldn't take away access: "))

  -- The loop of `onEdgesDelete`; a line outside the selection is passed over.
  unfoldable pub delete_lines : Option Text → List Edge → M S MapState (Unit {0})
  unfolding delete_line
  delete_lines anchor edges =
      for_each edges (λ e. if in_selection anchor e then delete_line (line_of e) else done)

  unfoldable pub on_edges_delete : Option Text → List Edge → M S MapState (Unit {0})
  unfolding delete_lines
  on_edges_delete anchor removed = do delete_lines anchor removed; note reloaded
