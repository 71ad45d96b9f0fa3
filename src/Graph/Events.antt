-- ===== src/Graph/Events.antt =====
-- AccessGraph.tsx: the handlers that the canvas and its menu call, and what the open windows show.
use beauty_awg.Base.{Bool, true, Option, none, some, List, ◌∷◌, Text, ◌==◌, find, if◌then◌else◌}
use beauty_awg.Api.{Panel, VpnNode, Client}
use beauty_awg.Api.Effects.{M, ◌>>◌, modify, done}
use beauty_awg.Graph.{is_client_id}
use beauty_awg.Graph.State.{Position, MapState, persist, create_group}
use beauty_awg.Graph.Membership.{on_client_dropped}

-- `onConnectStart`, at a handle of the kind "source" or another.
unfoldable on_connect_start : {S : Type 0} → Option Text → Bool → M S MapState (Unit {0})
on_connect_start (some (c ∷ id)) true = modify (λ s. record s { connecting_from = some (c ∷ id) })
on_connect_start id source = done

unfoldable on_connect_end : {S : Type 0} → M S MapState (Unit {0})
on_connect_end = modify (λ s. record s { connecting_from = none })

-- `onNodeClick`: the card is selected, or let go when it was selected.
unfoldable clicked : Option Text → Text → Option Text
clicked none id = some id
clicked (some cur) id = if cur == id then none else some id

unfoldable on_node_click : {S : Type 0} → Text → M S MapState (Unit {0})
unfolding clicked
on_node_click id = modify (λ s. record s { selected = clicked s.selected id })

unfoldable on_pane_click : {S : Type 0} → M S MapState (Unit {0})
on_pane_click = modify (λ s. record s { selected = none; menu = none })

-- `setMenu(null)`: when the canvas is moved, and at a stray click while the menu is open.
unfoldable close_menu : {S : Type 0} → M S MapState (Unit {0})
close_menu = modify (λ s. record s { menu = none })

-- `onPaneContextMenu`, at the mouse's coordinates on the canvas and in the window.
unfoldable on_pane_context_menu : {S : Type 0} → Position → Position → M S MapState (Unit {0})
on_pane_context_menu at window = modify (λ s. record s { drop_at = some at; menu = some window })

-- "Add a device here"
unfoldable add_device_here : {S : Type 0} → M S MapState (Unit {0})
add_device_here = modify (λ s. record s { menu = none; adding_device = true })

module _ {S : Type 0} (P : Panel S) (servers : List VpnNode) (clients : List Client) where
  -- `onNodeDragStop`: the positions first, then the card that was dropped.
  unfoldable on_node_drag_stop :
      List (Text × Position) → Text → Position → List Text → M S MapState (Unit {0})
  on_node_drag_stop nodes card at touched = do
    persist P nodes
    if is_client_id card then on_client_dropped P servers clients card at touched else done

  -- "Create a group here", with the id that `newGroupId` draws.
  unfoldable create_group_here : Text → M S MapState (Unit {0})
  unfolding close_menu
  create_group_here id = do close_menu; create_group P id

-- `editServer`, `editClient`, `detailsClient`, `linkSrc` and `linkDst`: what an open window is about.
unfoldable pub server_with : List VpnNode → Option Text → Option VpnNode
server_with servers none = none
server_with servers (some id) = find (λ s. s.id == id) servers

unfoldable pub client_with : List Client → Option Text → Option Client
client_with clients none = none
client_with clients (some id) = find (λ c. c.id == id) clients
