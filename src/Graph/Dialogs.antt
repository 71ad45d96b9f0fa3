-- ===== src/Graph/Dialogs.antt =====
-- AccessGraph.tsx: what a click on a line opens, and what the dialogs over the map do.
use beauty_awg.Base.{
  Bool, false, not, Option, none, some, List, Text, codes, ◌==◌, any, filter, if◌then◌else◌,
}
use beauty_awg.Groups.{Group}
use beauty_awg.Api.{
  Panel, VpnNode, Client, NodeLink, revoke, link_nodes, unlink_nodes, rename_client,
  set_client_color, delete_client, rename_node,
}
use beauty_awg.Api.Effects.{
  M, ◌>>◌, done, call, note, announce, report, attempt, for_each, reloaded,
}
use beauty_awg.Graph.State.{MapState, update_group}
use beauty_awg.Graph.Access.{
  Edge, Line, group_line, bus_line, link_line, client_line, line_of, in_selection, group_title,
}

-- What a click opens: the limits of a group or a device, or a link.
pub data Opened : Type 0 where
  group_rules : Text → Text → Opened
  link_editor : Text → Text → Opened
  device_rules : Text → Text → Opened

opened_by : Line → Opened
opened_by (group_line g n) = group_rules g n
opened_by (bus_line a b) = link_editor a b
opened_by (link_line a b) = link_editor a b
opened_by (client_line c n) = device_rules c n

-- `onEdgeClick`
unfoldable pub on_edge_click : Option Text → Edge → Option Opened
unfolding opened_by
on_edge_click anchor e = if in_selection anchor e then some (opened_by (line_of e)) else none

-- `linkHasReverse`
unfoldable pub has_reverse : List NodeLink → Text → Text → Bool
has_reverse links src dst = any (λ l. if l.src == dst then l.dst == src else false) links

module _ {S : Type 0} (P : Panel S) where
  -- `try { … } catch (e) { onError(prefix + …) }`, then `onChanged()`.
  edit : Text → M S MapState (Unit {0}) → M S MapState (Unit {0})
  edit prefix act = do attempt act (report prefix); note reloaded

  unfoldable pub revoke_members : Group → VpnNode → M S MapState (Unit {0})
  unfolding edit
  revoke_members g n =
      edit (codes "Couldn't take away access: ")
        (do for_each g.members (λ m. call P (revoke m n.id)); announce (group_title g))

  -- A device's own line: a failure is not reported.
  unfoldable pub revoke_device : Client → Text → M S MapState (Unit {0})
  revoke_device c node = do
    attempt (do call P (revoke c.id node); announce c.name) (λ e. done)
    note reloaded

  unfoldable pub add_reverse : VpnNode → VpnNode → M S MapState (Unit {0})
  unfolding edit
  add_reverse src dst =
      edit (codes "Couldn't add the other direction: ")
        (do call P (link_nodes dst.id src.id); announce dst.name)

  unfoldable pub remove_reverse : VpnNode → VpnNode → M S MapState (Unit {0})
  unfolding edit
  remove_reverse src dst =
      edit (codes "Couldn't remove the other direction: ")
        (do call P (unlink_nodes dst.id src.id); announce dst.name)

  unfoldable pub remove_link : VpnNode → VpnNode → M S MapState (Unit {0})
  unfolding edit
  remove_link src dst =
      edit (codes "Couldn't remove the link: ")
        (do call P (unlink_nodes src.id dst.id); announce src.name)

  unfoldable pub rename_device : Client → Text → M S MapState (Unit {0})
  unfolding edit
  rename_device c name = edit (codes "Couldn't rename: ") (call P (rename_client c.id name))

  unfoldable pub recolor_device : Client → Text → M S MapState (Unit {0})
  unfolding edit
  recolor_device c color =
      edit (codes "Couldn't change the color: ") (call P (set_client_color c.id color))

  unfoldable pub remove_device : Client → M S MapState (Unit {0})
  unfolding edit
  remove_device c = edit (codes "Couldn't remove it: ") (call P (delete_client c.id))

  unfoldable pub rename_location : Text → Text → M S MapState (Unit {0})
  unfolding edit
  rename_location id name = edit (codes "Couldn't rename: ") (call P (rename_node id name))

  -- `onRename`, `onColor` and `onRemoveMember` of the group's dialog.
  unfoldable pub rename_group : Group → Text → M S MapState (Unit {0})
  rename_group g name = update_group P g.id (λ x. record x { name = name })

  unfoldable pub recolor_group : Group → Text → M S MapState (Unit {0})
  recolor_group g color = update_group P g.id (λ x. record x { color = some color })

  unfoldable pub remove_member : Group → Text → M S MapState (Unit {0})
  remove_member g client =
      update_group P g.id (λ x. record x { members = filter (λ m. not (m == client)) g.members })
