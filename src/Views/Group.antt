-- ===== src/Views/Group.antt =====
-- web/app/components/GroupModal.tsx and GroupNode.tsx: a group's window and its frame on the map.
use beauty_awg.Base.{
  ℕ, Bool, true, false, Option, none, some, List, [], ◌∷◌, ◌++◌, Text, codes, eqb, if◌then◌else◌,
}
use beauty_awg.Groups.{Group, group_min_h, group_min_w}
use beauty_awg.Api.{Client}
use beauty_awg.Ui.{Item, title, prose, hint, field, button, shown_if, each}
use beauty_awg.Views.Windows.{confirm_view}

pub data GroupPress : Type 0 where
  take_out : Text → GroupPress
  delete_group : GroupPress
  change_color : GroupPress
  close : GroupPress
  -- The confirmation's two buttons.
  dissolve : GroupPress
  keep : GroupPress

-- `name`, `confirming` and `pickingColor`.
pub record GroupWindow : Type 0 where
  pub name : Text
  pub confirming : Bool
  pub picking_color : Bool

unfoldable pub member_row : Client → List (Item GroupPress)
member_row m = title m.name ∷ prose m.address ∷ button (codes "Take out") false (take_out m.id) ∷ []

unfoldable pub members_list : List Client → List (Item GroupPress)
unfolding member_row
members_list [] =
    prose (codes "Nothing in here yet. Drag a device card onto the group on the map to add it.")
    ∷ []
members_list (m ∷ ms) = each member_row (m ∷ ms)

-- `GroupModal`, without the window for a colour.
unfoldable pub group_view : Group → List Client → GroupWindow → List (Item GroupPress)
unfolding members_list
group_view g members w =
    title g.name
      ∷ prose (codes "Devices in a group share one set of destinations.")
      ∷ field (codes "Group name") w.name false
      ∷ title (codes "Devices")
      ∷ members_list members
    ++ (hint (
          codes "Taking a device out leaves its access untouched — it just stops being managed "
          ++ codes "together with the rest.")
        ∷ button (codes "Delete group") false delete_group
        ∷ button (codes "Change color") false change_color
        ∷ button (codes "Close") false close
        ∷ shown_if w.confirming (
            confirm_view (codes "Delete " ++ (g.name ++ codes "?"))
              (codes
                "The devices and their access stay exactly as they are — only the grouping goes away.")
              (codes "Delete group") dissolve keep))

-- What the buttons do to the window; the rest is the parent's.
unfoldable pub press_group : GroupPress → GroupWindow → GroupWindow
press_group delete_group w = record w { confirming = true }
press_group dissolve w = record w { confirming = false }
press_group keep w = record w { confirming = false }
press_group change_color w = record w { picking_color = true }
press_group (take_out id) w = w
press_group close w = w

-- Typing in the field of the name, and the closing of the window for a colour.
unfoldable pub type_group_name : Text → GroupWindow → GroupWindow
type_group_name name w = record w { name = name }

unfoldable pub close_group_color : GroupWindow → GroupWindow
close_group_color w = record w { picking_color = false }

-- `GroupCardData`: what the frame is drawn from; the functions are there or not.
pub record Frame : Type 0 where
  pub label : Text
  pub count : ℕ
  pub min_height : Option ℕ
  pub color : Option Text
  pub sel : Bool
  pub dim : Bool
  pub candidate : Bool
  pub muted : Bool
  pub dragging : Bool
  pub has_gear : Bool

-- The frame's classes, in their order.
unfoldable pub frame_classes : Frame → Text
frame_classes f =
    codes "ggroup"
    ++ ((if f.sel then codes " sel" else [])
        ++ ((if f.dim then codes " dim" else [])
            ++ ((if f.candidate then codes " candidate" else [])
                ++ ((if f.muted then codes " muted" else [])
                    ++ (if f.dragging then codes " dragging" else [])))))

-- The smallest size that the resizer allows, and whether its handles are shown.
unfoldable pub resizer : Frame → ℕ × ℕ × Bool
resizer f = (group_min_w, elim f.min_height [ none ↦ group_min_h | some h ↦ h ], f.sel)

-- What stands in the frame.
unfoldable pub frame_view : Frame → List (Item (Unit {0}))
frame_view f =
    title f.label
      ∷ shown_if f.has_gear (button (codes "Group settings for " ++ f.label) false tt ∷ [])
    ++ shown_if (eqb f.count 0) (prose (codes "Drag devices in here.") ∷ [])
