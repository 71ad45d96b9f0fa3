-- ===== src/Picker.antt =====
-- web/app/components/AccessPicker.tsx: the on/off chips of a device's access.
pub mod Chips
mod Tests
use beauty_awg.Base.{
  Bool, true, false, ◌&&◌, ◌||◌, not, Option, none, some, List, [], ◌∷◌, ◌++◌, Text, codes, ◌==◌,
  if◌then◌else◌,
}
use beauty_awg.Base.Sets
use beauty_awg.Errors.{Thrown, human_error}
use beauty_awg.Api.{Panel, VpnNode, Client, grant, revoke}
use beauty_awg.Api.Effects.{
  M, World, ◌>>=◌, ◌>>◌, modify, done, call, note, announce, attempt, reported, reloaded,
}

-- What is shown of a location: its id, its label, and what can be pressed.
pub record Chip : Type 0 where
  pub node : Text
  pub label : Text
  pub granted : Bool
  pub disabled : Bool
  pub gear : Bool

-- `busy`
abbrev pub Busy : Type 0
Busy = Option Text

is_busy : Busy → Text → Bool
is_busy none id = false
is_busy (some b) id = b == id

-- `groupName !== undefined`
unfoldable pub is_managed : Option Text → Bool
is_managed none = false
is_managed (some g) = true

unfoldable pub label_of : VpnNode → Text
label_of n = if n.is_hub then codes "The internet" else n.name

chip_of : Client → Bool → Busy → Bool → VpnNode → Chip
unfolding label_of is_busy
chip_of client managed busy can_edit n =
    let granted = Sets.includes client.granted_nodes n.id in
    record {
      node = n.id;
      label = label_of n;
      granted = granted;
      disabled = is_busy busy n.id || managed;
      gear = not managed && (granted && (not n.is_hub && can_edit));
    }

-- The chips; `can_edit` is whether `onEditRules` is given.
unfoldable pub chips : Client → Option Text → Busy → Bool → List VpnNode → List Chip
unfolding chip_of is_managed
chips client group busy can_edit [] = []
chips client group busy can_edit (n ∷ ns) =
    let rest = chips client group busy can_edit ns in
    if is_managed group && not (Sets.includes client.granted_nodes n.id)
    then rest
    else chip_of client (is_managed group) busy can_edit n ∷ rest

module _ {S : Type 0} (P : Panel S) where
  unfoldable pub toggle : Client → VpnNode → Bool → M S Busy (Unit {0})
  toggle client n granted = do
    modify (λ b. some n.id)
    note (reported [])
    attempt
        (do
          if granted then call P (revoke client.id n.id) else call P (grant client.id n.id)
          announce client.name
          note reloaded)
        (λ e. note (reported (human_error e)))
    modify (λ b. none)
