-- ===== src/Groups/Plan.antt =====
-- `syncPlan` gives a device exactly the access of its target.
use beauty_awg.Base.{
  ◌≡◌, refl, ap, ◌↔◌, true, false, ◌&&◌, not, List, [], ◌∷◌, ◌++◌, arith, Text, filter, eq_refl,
}
use beauty_awg.Base.Sets
use beauty_awg.Base.Sets.{Nodup, includes}
use beauty_awg.Groups.{SyncPlan, sync_plan}

-- What the server holds after the plan's grants and revocations, in that order.
abbrev pub apply_plan : SyncPlan → List Text → List Text
apply_plan p current = filter (λ n. not (includes p.to_remove n)) (current ++ p.to_add)

pub includes-to_add :
    (target current : List Text) (a : Text)
    → includes (sync_plan target current).to_add a ≡ (includes target a && not (includes current a))
unfolding sync_plan
includes-to_add target current a = ground (
  arith,
  Sets.includes-filter (λ n. not (includes (Sets.to_set current) n)) (Sets.to_set target) a,
  Sets.includes-to_set target a,
  Sets.includes-to_set current a,
)

pub includes-to_remove :
    (target current : List Text) (a : Text)
    → includes (sync_plan target current).to_remove a
      ≡ (includes current a && not (includes target a))
unfolding sync_plan
includes-to_remove target current a = ground (
  arith,
  Sets.includes-filter (λ n. not (includes (Sets.to_set target) n)) (Sets.to_set current) a,
  Sets.includes-to_set target a,
  Sets.includes-to_set current a,
)

-- Carrying out the plan of a target and a current access leaves exactly the target's locations.
-- No call is wasted: what is granted was not held, what is revoked was held, and neither list
-- repeats a location.
pub sync_plan-apply :
    (target current : List Text)
    → ((a : Text) → includes (apply_plan (sync_plan target current) current) a ≡ includes target a)
      × ((a : Text)
          → includes (sync_plan target current).to_add a ≡ true
          → includes current a ≡ false)
      × ((a : Text)
          → includes (sync_plan target current).to_remove a ≡ true
          → (includes current a ≡ true) × (includes target a ≡ false))
      × Nodup (sync_plan target current).to_add
      × Nodup (sync_plan target current).to_remove
unfolding sync_plan
sync_plan-apply target current = (
  λ a. ground (
    arith,
    Sets.includes-filter (λ n. not (includes (sync_plan target current).to_remove n))
        (current ++ (sync_plan target current).to_add) a,
    Sets.includes-append current (sync_plan target current).to_add a,
    includes-to_add target current a,
    includes-to_remove target current a,
  ),
  λ a h. ground (arith, includes-to_add target current a),
  λ a h. ground (arith, includes-to_remove target current a),
  Sets.filter-Nodup _ _ (Sets.to_set-Nodup target),
  Sets.filter-Nodup _ _ (Sets.to_set-Nodup current),
)

includes-nil_of : (xs : List Text) → ((a : Text) → includes xs a ≡ false) → xs ≡ []
unfolding includes
includes-nil_of [] h = refl
includes-nil_of (x ∷ xs) h = ground (arith, h x, eq_refl x)

-- The plan is empty exactly when the device already has the target's locations and no others.
sync_plan-eq-nil_iff :
    (target current : List Text)
    → (((sync_plan target current).to_add ≡ []) × ((sync_plan target current).to_remove ≡ []))
      ↔ ((a : Text) → includes target a ≡ includes current a)
unfolding includes
sync_plan-eq-nil_iff target current = (
  λ (p, q) a. ground (
    arith,
    includes-to_add target current a,
    includes-to_remove target current a,
    ap (λ l. includes l a) p,
    ap (λ l. includes l a) q,
  ),
  λ h. (
    includes-nil_of _ (λ a. ground (arith, includes-to_add target current a, h a)),
    includes-nil_of _ (λ a. ground (arith, includes-to_remove target current a, h a)),
  ),
)
