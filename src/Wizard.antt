-- ===== src/Wizard.antt =====
-- web/app/components/AddDeviceWizard.tsx: the three steps of adding a device.
pub mod Creating
pub mod Window
mod Tests
use beauty_awg.Base.{
  Bool, true, false, not, Option, none, some, List, [], ◌∷◌, ◌++◌, Text, codes, ◌==◌, filter,
  if◌then◌else◌,
}
use beauty_awg.Base.Strings.{trim, truthy}
use beauty_awg.Base.Sets
use beauty_awg.Errors.{Thrown, human_error}
use beauty_awg.Api.{Panel, create_client, grant, Created}
use beauty_awg.Api.Effects.{
  M, World, ◌>>=◌, ◌>>◌, modify, get, done, call, note, attempt, for_each, finished, closed,
}

pub data Step : Type 0 where
  naming access sharing : Step

pub record Device : Type 0 where
  pub id : Text
  pub name : Text

pub record Wizard : Type 0 where
  pub step : Step
  pub name : Text
  pub picked : List Text
  pub created : Option Device
  pub busy : Bool
  pub err : Text

unfoldable pub toggle_pick : Text → List Text → List Text
toggle_pick id p = if Sets.includes p id then filter (λ x. not (x == id)) p else p ++ (id ∷ [])

-- "Next" and Enter, which need a name.
unfoldable pub next : Wizard → Wizard
next s = if truthy (trim s.name) then record s { step = access } else s

unfoldable pub back : Wizard → Wizard
back s = if s.busy then s else record s { step = naming }

module _ {S : Type 0} (P : Panel S) where
  made_device : Text → Text → M S Wizard (Unit {0})
  made_device name id = do
    modify (λ s. record s { created = some (record { id = id; name = name }); step = sharing })
    note (finished (some id))

  grant_all : Text → List Text → Text → M S Wizard (Unit {0})
  unfolding made_device
  grant_all name picked id = do
    for_each picked (λ node. call P (grant id node))
    made_device name id

  -- The part of `create` under its `try`.
  create_device : Text → List Text → M S Wizard (Unit {0})
  unfolding grant_all
  create_device name picked = do res ← call P (create_client name []); grant_all name picked res.id

  unfoldable pub create : M S Wizard (Unit {0})
  unfolding create_device
  create = do
    modify (λ s. record s { busy = true; err = [] })
    s ← get
    attempt (create_device (trim s.name) s.picked)
        (λ e. modify (λ t. record t { err = human_error e }))
    modify (λ t. record t { busy = false })

  unfoldable pub finish : M S Wizard (Unit {0})
  finish = do note (finished none); note closed
