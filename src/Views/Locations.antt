-- ===== src/Views/Locations.antt =====
-- web/app/components/LocationsView.tsx: the cards of the locations, the windows over them, and what
-- a press of each button does.
pub mod Justified
use beauty_awg.Base.{
  Bool, true, false, not, ◌&&◌, ◌||◌, Option, none, some, List, [], ◌∷◌, ◌++◌, Text, codes, truthy,
  ◌or_text◌, filter, length, if◌then◌else◌,
}
use beauty_awg.Api.{
  VpnNode, Call, approve_node, reject_node, delete_node, rename_node, set_node_color, pending,
  active,
}
use beauty_awg.Dashboard.{has_status}
use beauty_awg.Ui.{Item, title, prose, hint, field, button, shown_if, each}
use beauty_awg.Views.Windows.{join_list, confirm_view, empty_view, settings_view}

-- What the view hands to its parent: a call for a location under `onChange`, the location whose
-- setup file is wanted, the wish to add one, and a toast.
pub data Output : Type 0 where
  changes : VpnNode → Call → Output
  configures : VpnNode → Output
  adds : Output
  warns : Text → Output

-- The three states, and what was handed on.
pub record Windows : Type 0 where
  pub confirm_del : Option VpnNode
  pub renaming : Option VpnNode
  pub picking_color : Option VpnNode
  pub out : List Output

pub data Press : Type 0 where
  approve reject setup_file rename color remove : VpnNode → Press
  add : Press
  -- The buttons of the confirmation of a removal.
  confirm : VpnNode → Press
  cancel : Press

-- `pending`, `active` and `real`.
pub record LocationLists : Type 0 where
  pub asking : List VpnNode
  pub joined : List VpnNode
  pub real : List VpnNode

unfoldable pub location_lists : List VpnNode → LocationLists
location_lists nodes =
    let joined = filter (λ n. has_status n.status active) nodes in
    record {
      asking = filter (λ n. has_status n.status pending) nodes;
      joined = joined;
      real = filter (λ n. not n.is_hub) joined;
    }

unfoldable pub request_card : VpnNode → List (Item Press)
request_card n =
    title n.name
    ∷ prose n.hostname
    ∷ prose (
        codes "A machine is asking to join and share its local network "
        ++ (join_list n.subnets ++ codes ". Approve it only if you set it up yourself."))
    ∷ button (codes "Approve") false (approve n)
    ∷ button (codes "Reject") false (reject n)
    ∷ []

unfoldable pub hub_card : VpnNode → List (Item Press)
hub_card n =
    title (codes "The internet")
    ∷ prose n.address
    ∷ prose (
        codes "Send a device’s whole internet connection through this server. Useful on "
        ++ codes "public Wi-Fi. Turn it on per device in the Devices tab.")
    ∷ button (codes "Change color") false (color n)
    ∷ []

-- The second line of a card; `date` prints a time in the browser's way.
last_seen_of : (Text → Text) → VpnNode → Option Text → Text
last_seen_of date n none = []
last_seen_of date n (some t) =
    if truthy t && not n.online then codes " · last seen " ++ date t else []

unfoldable pub place_card : (Text → Text) → VpnNode → List (Item Press)
unfolding last_seen_of
place_card date n =
    title n.name
      ∷ prose n.address
      ∷ prose (
          (if n.online then codes "Online" else codes "Offline") ++ last_seen_of date n n.last_seen)
      ∷ prose (codes "Shares " ++ (join_list n.subnets or_text codes "nothing yet"))
      ∷ settings_view n.dns (join_list n.domains)
    ++ (button (codes "Setup file") false (setup_file n)
        ∷ button (codes "Rename") false (rename n)
        ∷ button (codes "Color") false (color n)
        ∷ button (codes "Remove") false (remove n)
        ∷ [])

unfoldable pub location_card : (Text → Text) → VpnNode → List (Item Press)
unfolding hub_card place_card
location_card date n = if n.is_hub then hub_card n else place_card date n

-- `pending.length > 0 && …`
unfoldable pub requests : List VpnNode → List (Item Press)
unfolding request_card
requests [] = []
requests (n ∷ ns) = title (codes "Waiting for you to approve") ∷ each request_card (n ∷ ns)

no_homes : List VpnNode → List (Item Press)
no_homes [] = hint (codes "You have no home or office locations yet — only the internet exit.") ∷ []
no_homes (n ∷ ns) = []

-- The grid and its foot, or what is shown for no location.
unfoldable pub grid : (Text → Text) → LocationLists → List VpnNode → List (Item Press)
unfolding location_card no_homes
grid date lists [] =
    empty_view (codes "No locations yet")
      (codes
        "A location is a home or office running the node installer. Once added, your devices can reach everything on its network.")
      (codes "Add a location") add
grid date lists (n ∷ ns) =
    each (location_card date) (n ∷ ns)
    ++ (button (codes "Add another location") false add ∷ no_homes lists.real)

-- The confirmation of a removal.
unfoldable pub removal : Option VpnNode → List (Item Press)
removal none = []
removal (some n) =
    confirm_view (codes "Remove " ++ (n.name ++ codes "?"))
      (codes
        "Devices will lose access to this network immediately, and every config that used it has to be shared again. This can't be undone.")
      (codes "Remove location") (confirm n) cancel

-- `LocationsView`, without the windows for a name and a colour.
unfoldable pub locations_view : (Text → Text) → List VpnNode → Windows → List (Item Press)
unfolding requests grid removal
locations_view date nodes w =
    let lists = location_lists nodes in
    requests lists.asking ++ (grid date lists lists.joined ++ removal w.confirm_del)

abbrev pub hand_on : Output → Windows → Windows
hand_on o w = record w { out = w.out ++ (o ∷ []) }

-- What a press does.
unfoldable pub press : Press → Windows → Windows
press (approve n) w = hand_on (changes n (approve_node n.id)) w
press (reject n) w = hand_on (changes n (reject_node n.id)) w
press (setup_file n) w = hand_on (configures n) w
press (rename n) w = record w { renaming = some n }
press (color n) w = record w { picking_color = some n }
press (remove n) w = record w { confirm_del = some n }
press add w = hand_on adds w
press (confirm n) w =
    let told = n.name ++ codes " removed — share the configs again for devices that used it" in
    record (hand_on (warns told) (hand_on (changes n (delete_node n.id)) w)) { confirm_del = none }
press cancel w = record w { confirm_del = none }

-- `onSave` of the window for a name, of the one for a colour, and their closing.
unfoldable pub save_name : VpnNode → Text → Windows → Windows
save_name n name w = hand_on (changes n (rename_node n.id name)) w

unfoldable pub save_color : VpnNode → Text → Windows → Windows
save_color n chosen w = hand_on (changes n (set_node_color n.id chosen)) w

unfoldable pub close_rename : Windows → Windows
close_rename w = record w { renaming = none }

unfoldable pub close_color : Windows → Windows
close_color w = record w { picking_color = none }

abbrev pub all_closed : Windows
all_closed = record { confirm_del = none; renaming = none; picking_color = none; out = [] }
