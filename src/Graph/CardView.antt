-- ===== src/Graph/CardView.antt =====
-- AccessGraph.tsx: what the cards of devices and locations show, and where a connection can be drawn
-- from or to.
use beauty_awg.Base.{Bool, true, false, not, List, [], ◌∷◌, ◌++◌, Text, codes, if◌then◌else◌}
use beauty_awg.Ui.{Item, title, prose, button}

-- `CardData`; a test that is not given is false. `has_gear` is whether `onGear` is given.
pub record CardData : Type 0 where
  pub label : Text
  pub sub : Text
  pub sel : Bool
  pub dim : Bool
  pub candidate : Bool
  pub muted : Bool
  pub dragging : Bool
  pub hub : Bool
  pub online : Bool
  pub inside : Bool
  pub has_gear : Bool

-- The handles of a card: connections end on the left one, and start from the right one.
pub record CardHandles : Type 0 where
  pub target : Bool
  pub source : Bool

abbrev class_if : Bool → Text → Text
class_if test name = if test then name else []

-- `Gear`: on the selected card only.
unfoldable pub gear : CardData → Text → List (Item (Unit {0}))
gear d label = if not d.sel then [] else if not d.has_gear then [] else button label false tt ∷ []

-- The classes that both kinds of cards have, in their order.
unfoldable pub look_classes : CardData → Text
look_classes d =
    class_if d.sel (codes " sel")
    ++ (class_if d.dim (codes " dim")
        ++ (class_if d.candidate (codes " candidate")
            ++ (class_if d.muted (codes " muted") ++ class_if d.dragging (codes " dragging"))))

-- `ClientNodeView`
unfoldable pub client_classes : CardData → Text
unfolding look_classes
client_classes d =
    codes "gnode gnode-client" ++ (look_classes d ++ class_if d.inside (codes " inside"))

unfoldable pub client_card_view : CardData → List (Item (Unit {0}))
unfolding gear
client_card_view d = title d.label ∷ prose d.sub ∷ gear d (codes "Open settings for " ++ d.label)

unfoldable pub client_handles : CardData → CardHandles
client_handles d = record { target = false; source = not d.inside }

-- `ServerNodeView`
unfoldable pub server_classes : CardData → Text
unfolding look_classes
server_classes d =
    codes "gnode "
    ++ ((if d.hub then codes "gnode-hub" else codes "gnode-server") ++ look_classes d)

unfoldable pub server_card_view : CardData → List (Item (Unit {0}))
unfolding gear
server_card_view d =
    title (if d.hub then codes "◍ " ++ d.label else d.label)
    ∷ prose d.sub
    ∷ gear d (codes "Rename " ++ d.label)

unfoldable pub server_handles : CardData → CardHandles
server_handles d = record { target = true; source = not d.hub }
