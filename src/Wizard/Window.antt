-- ===== src/Wizard/Window.antt =====
-- AddDeviceWizard.tsx: what each step of the wizard shows.
use beauty_awg.Base.{false, not, none, some, List, [], ◌∷◌, ◌++◌, Text, codes, if◌then◌else◌}
use beauty_awg.Base.Strings.{trim, truthy, ◌or_text◌}
use beauty_awg.Base.Sets
use beauty_awg.Api.{VpnNode}
use beauty_awg.Ui.{Item, title, prose, hint, alert, field, button, switch, shown_if, each}
use beauty_awg.Views.Windows.{join_list}
use beauty_awg.Wizard.{Wizard, Device, naming, access, sharing}

pub data Press : Type 0 where
  to_access : Press
  to_naming : Press
  pick : Text → Press
  create_it : Press
  -- `finish` and `onClose`
  finish_it : Press
  close : Press

-- A row of the list of locations: a box that is checked or not.
unfoldable pub location_row : List Text → VpnNode → List (Item Press)
location_row picked n =
    switch (if n.is_hub then codes "The internet" else n.name) (Sets.includes picked n.id)
      (pick n.id)
    ∷ prose (
        if n.is_hub
        then codes "Send all browsing through the server"
        else join_list n.subnets or_text codes "no local range set")
    ∷ []

unfoldable pub location_rows : List Text → List VpnNode → List (Item Press)
unfolding location_row
location_rows picked [] =
    hint (
      codes "No locations set up yet. You can add this device now and give it access once you "
      ++ codes "have one.")
    ∷ []
location_rows picked (n ∷ ns) = each (location_row picked) (n ∷ ns)

share_step : Device → List (Item Press)
share_step d =
    title (d.name ++ codes " is ready")
    ∷ prose (codes "Send this to the device to connect it.")
    ∷ button (codes "Done") false finish_it
    ∷ []

access_step : List VpnNode → Wizard → List (Item Press)
unfolding location_rows
access_step nodes w =
    title (codes "What can it reach?")
      ∷ prose (codes "You can change this at any time later.")
      ∷ shown_if (truthy w.err) (alert w.err ∷ [])
    ++ (location_rows w.picked nodes
        ++ (button (codes "Back") w.busy to_naming
            ∷ button (if w.busy then codes "Creating…" else codes "Create device") w.busy create_it
            ∷ []))

name_step : Wizard → List (Item Press)
name_step w =
    title (codes "Add a device")
      ∷ prose (codes "One config per phone, laptop or tablet that should connect.")
      ∷ shown_if (truthy w.err) (alert w.err ∷ [])
    ++ (field (codes "Name it") w.name false
        ∷ hint (codes "Just so you can tell them apart later.")
        ∷ button (codes "Cancel") false close
        ∷ button (codes "Next") (not (truthy (trim w.name))) to_access
        ∷ [])

-- The three returns of the component; the share step's panel is that of SharePanel.tsx.
unfoldable pub wizard_view : List VpnNode → Wizard → List (Item Press)
unfolding share_step access_step name_step
wizard_view nodes w = elim w.step [
  | sharing ↦ elim w.created [ none ↦ name_step w | some d ↦ share_step d ]
  | access ↦ access_step nodes w
  | naming ↦ name_step w
]
