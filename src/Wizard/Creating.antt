-- ===== src/Wizard/Creating.antt =====
-- What the steps of AddDeviceWizard.tsx come to.
use beauty_awg.Base.{
  ◌≡◌, refl, ap, ◌≢◌, inl, inr, true, false, not, subst, sym, some, List, [], ◌∷◌, arith, Text,
  ◌==◌, eq_iff, if◌then◌else◌, Bool-cases,
}
use beauty_awg.Base.Strings.{trim}
use beauty_awg.Base.Sets
use beauty_awg.Base.Sets.{includes, Nodup}
use beauty_awg.Errors.{Thrown, human_error}
use beauty_awg.Errors.Laws.{human_error-ne-nil}
use beauty_awg.Api.{Panel, Result, ok, thrown, create_client, grant, Created}
use beauty_awg.Api.Effects.{World, M, bind, catch_result, for_each, call, modify}
use beauty_awg.Wizard.{Wizard, sharing, toggle_pick, create, create_device, made_device, grant_all}

-- A tick changes the choice of that location only, and a second tick undoes it; no location is
-- chosen twice.
pub toggle_pick-includes :
    (id : Text) (p : List Text)
    → Nodup p
    → ((x : Text)
        → includes (toggle_pick id p) x ≡ (if id == x then not (includes p x) else includes p x))
      × Nodup (toggle_pick id p)
unfolding toggle_pick includes
toggle_pick-includes id p h = (
  λ x. ground (
    arith,
    Sets.includes-filter (λ y. not (y == id)) p x,
    Sets.includes-append p (id ∷ []) x,
    eq_iff id x,
    eq_iff x id,
    λ (e : id ≡ x). ap (includes p) e,
  ),
  elim (Bool-cases (includes p id)) [
    | inl picked ↦ rw picked (Sets.filter-Nodup (λ y. not (y == id)) p h)
    | inr fresh ↦ rw fresh (Sets.Nodup-concat p id h fresh)
  ],
)

-- The wizard as `create` leaves it: on the last step with the device, or where it was with a
-- message, and never busy.
pub data IsOutcome (before after : Wizard) : Type 0 where
  device_made :
      (id : Text)
      → after ≡ record before {
        busy = false;
        err = [];
        created = some (record { id = id; name = trim before.name });
        step = sharing;
      }
      → IsOutcome before after
  not_made :
      (err : Text)
      → err ≢ []
      → after ≡ record before { busy = false; err = err }
      → IsOutcome before after

module _ {S : Type 0} (P : Panel S) where
  -- How the part under the `try` ends, with what it leaves of the wizard.
  data Ends (name : Text) (before : Wizard) : Result (Unit {0}) → Wizard → Type 0 where
    made :
        (id : Text)
        → Ends name before
            (ok tt)
            (record before { created = some (record { id = id; name = name }); step = sharing })
    threw : (e : Thrown) → Ends name before (thrown e) before

  bind-local :
      {A B : Type 0} (r : Result A × World S Wizard) (f : A → M S Wizard B)
      → ((a : A) (w : World S Wizard) → (f a w).1.local ≡ w.local)
      → (bind r f).1.local ≡ r.1.local
  bind-local (ok a, w) f h = h a w
  bind-local (thrown e, w) f h = refl

  for_each-local :
      (id : Text) (nodes : List Text) (w : World S Wizard)
      → (for_each nodes (λ n. call P (grant id n)) w).1.local ≡ w.local
  unfolding for_each
  for_each-local id [] w = refl
  for_each-local id (n ∷ ns) w =
      bind-local (call P (grant id n) w) (λ _. for_each ns (λ n. call P (grant id n)))
        (λ a v. for_each-local id ns v)

  made-Ends :
      (name id : Text) (r : Result (Unit {0}) × World S Wizard)
      → Ends name r.1.local
          (bind r (λ _. made_device P name id)).0
          (bind r (λ _. made_device P name id)).1.local
  unfolding made_device
  made-Ends name id (ok a, w) = made id
  made-Ends name id (thrown e, w) = threw e

  client-Ends :
      (name : Text) (picked : List Text) (r : Result Created × World S Wizard)
      → Ends name r.1.local
          (bind r (λ c. grant_all P name picked c.id)).0
          (bind r (λ c. grant_all P name picked c.id)).1.local
  unfolding grant_all
  client-Ends name picked (ok c, w) =
      subst
        (λ b.
          Ends name b (grant_all P name picked c.id w).0 (grant_all P name picked c.id w).1.local)
        (for_each-local c.id picked w)
        (made-Ends name c.id (for_each picked (λ n. call P (grant c.id n)) w))
  client-Ends name picked (thrown e, w) = threw e

  -- The wizard after the `catch` and the `finally`.
  abbrev settle : Result (Unit {0}) → Wizard → Wizard
  settle (ok a) t = record t { busy = false }
  settle (thrown e) t = record t { err = human_error e; busy = false }

  settle-IsOutcome :
      (before : Wizard) (res : Result (Unit {0})) (t : Wizard)
      → Ends (trim before.name) (record before { busy = true; err = [] }) res t
      → IsOutcome before (settle res t)
  settle-IsOutcome before res t (made id) = device_made id refl
  settle-IsOutcome before res t (threw e) = not_made (human_error e) (human_error-ne-nil e) refl

  caught-settle :
      (r : Result (Unit {0}) × World S Wizard)
      → (bind
          (catch_result r (λ e. modify (λ t. record t { err = human_error e })))
          (λ a. modify (λ t. record t { busy = false }))).1.local
        ≡ settle r.0 r.1.local
  caught-settle (ok a, w) = refl
  caught-settle (thrown e, w) = refl

  -- However the backend answers, pressing "Create device" ends with the wizard free again: on the
  -- last step, with the device under its trimmed name, or on the step it was on, with the device it
  -- had and a message that is not empty.
  pub create-IsOutcome : (w : World S Wizard) → IsOutcome w.local (create P w).1.local
  unfolding create create_device
  create-IsOutcome w =
      let start : World S Wizard = record w { local = record w.local { busy = true; err = [] } } in
      let r = create_device P (trim w.local.name) w.local.picked start in
      subst (λ t. IsOutcome w.local t) (sym (caught-settle r))
        (settle-IsOutcome w.local r.0 r.1.local (
          client-Ends (trim w.local.name) w.local.picked
            (call P (create_client (trim w.local.name) []) start)))
