-- ===== src/Views/Devices.antt =====
-- web/app/components/DevicesView.tsx and ClientDetails.tsx: the cards of the devices, and a device's
-- window.
use beauty_awg.Base.{Bool, true, false, not, List, [], ◌∷◌, ◌++◌, Text, codes, if◌then◌else◌}
use beauty_awg.Api.{Client, Call, update_client}
use beauty_awg.Ui.{Item, title, prose, field, button, switch, shown_if, each}
use beauty_awg.Views.Windows.{confirm_view, empty_view}

pub data DevicePress : Type 0 where
  add_device : DevicePress
  open_device : Client → DevicePress
  -- `onChange(() => api.…)`
  change : Call → DevicePress

-- The line below a device's name.
unfoldable pub device_status : Client → Text
device_status c =
    if not c.enabled
    then codes "Turned off — can't connect"
    else if c.online
    then codes "Connected now"
    else codes "Not connected right now"

-- A card, without its chips, which are those of AccessPicker.tsx.
unfoldable pub device_card : Client → List (Item DevicePress)
unfolding device_status
device_card c =
    button c.name false (open_device c)
    ∷ prose c.address
    ∷ prose (device_status c)
    ∷ button (codes "Get config") false (open_device c)
    ∷ switch (c.name ++ codes " allowed to connect") c.enabled
        (change (update_client c.id (not c.enabled) []))
    ∷ prose (if c.enabled then codes "On" else codes "Off")
    ∷ []

-- `DevicesView`
unfoldable pub devices_view : List Client → List (Item DevicePress)
unfolding device_card
devices_view [] =
    empty_view (codes "No devices yet")
      (codes "Add a phone, laptop or tablet and you'll get a QR code to connect it in seconds.")
      (codes "Add your first device") add_device
devices_view (c ∷ cs) = each device_card (c ∷ cs)

-- `name`, `confirming` and `pickingColor` of ClientDetails.tsx.
pub record Details : Type 0 where
  pub name : Text
  pub confirming : Bool
  pub picking_color : Bool

pub data DetailsPress : Type 0 where
  change_color : DetailsPress
  remove_device : DetailsPress
  -- The confirmation's two buttons; the first is `onDelete`.
  delete_device : DetailsPress
  keep_device : DetailsPress

-- `subtitle`
unfoldable pub details_subtitle : Client → Text
details_subtitle c =
    (if c.online then codes "Connected now" else codes "Not connected")
    ++ (codes " · " ++ (c.address ++ (if c.enabled then [] else codes " · turned off")))

-- `ClientDetails`, without the panel of SharePanel.tsx and the window for a colour.
unfoldable pub details_view : Client → Details → List (Item DetailsPress)
unfolding details_subtitle
details_view c d =
    title c.name
    ∷ prose (details_subtitle c)
    ∷ field (codes "Name") d.name false
    ∷ title (codes "Connect this device")
    ∷ button (codes "Change color") false change_color
    ∷ button (codes "Remove device") false remove_device
    ∷ shown_if d.confirming (
        confirm_view (codes "Remove " ++ (c.name ++ codes "?"))
          (codes
            "It will stop connecting immediately and its config will no longer work. This can't be undone.")
          (codes "Remove device") delete_device keep_device)

unfoldable pub press_details : DetailsPress → Details → Details
press_details change_color d = record d { picking_color = true }
press_details remove_device d = record d { confirming = true }
press_details delete_device d = record d { confirming = false }
press_details keep_device d = record d { confirming = false }

-- Typing in the field of the name, and the closing of the window for a colour.
unfoldable pub type_device_name : Text → Details → Details
type_device_name name d = record d { name = name }

unfoldable pub close_device_color : Details → Details
close_device_color d = record d { picking_color = false }
