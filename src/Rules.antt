-- ===== src/Rules.antt =====
-- web/app/components/RulesModal.tsx: the editor of a device's limits at a location.
pub mod Saving
pub mod Storing
pub mod Window
pub mod Locked
mod Tests
use beauty_awg.Base.{
  ℕ, zero, suc, Bool, true, false, ◌&&◌, ◌||◌, not, Option, none, some, List, [], ◌∷◌, ◌++◌, Text,
  codes, ◌==◌, eqb, filter, any, all, if◌then◌else◌,
}
use beauty_awg.Base.Strings.{trim}
use beauty_awg.Errors.{Thrown, human_error}
use beauty_awg.Api.{
  Panel, Result, ok, thrown, Rule, any_proto, get_grant_rules, get_grant_exit, set_grant_exit,
  set_grant_rules,
}
use beauty_awg.Api.Effects.{
  M, World, ◌>>=◌, ◌>>◌, bind, modify, get, done, call, note, announce, attempt, or_else, for_each,
  closed, pure,
}

pub record Editor : Type 0 where
  pub rules : List Rule
  pub exit : Bool
  pub err : Text
  pub busy : Bool
  pub loaded : Bool

unfoldable pub catch_all : Text
unfolding codes
catch_all = codes "0.0.0.0/0"

-- `r.dest.trim() === CATCH_ALL`
unfoldable pub is_catch_all : Rule → Bool
is_catch_all r = trim r.dest == catch_all

unfoldable pub has_catch_all : List Rule → Bool
unfolding is_catch_all
has_catch_all rules = any is_catch_all rules

-- A change of the rules, with the effect that runs when `hasCatchAll` becomes true.
unfoldable pub set_rules : List Rule → Editor → Editor
set_rules rules e = record e {
  rules = rules;
  exit = e.exit || has_catch_all rules && not (has_catch_all e.rules);
}

-- `rs.map((r, j) => (j === i ? { ...r, ...patch } : r))`
unfoldable pub patch_at : ℕ → (Rule → Rule) → List Rule → List Rule
patch_at i patch [] = []
patch_at zero patch (r ∷ rs) = patch r ∷ rs
patch_at (suc i) patch (r ∷ rs) = r ∷ patch_at i patch rs

-- `rs.filter((_, j) => j !== i)`
unfoldable pub remove_at : ℕ → List Rule → List Rule
remove_at i [] = []
remove_at zero (r ∷ rs) = rs
remove_at (suc i) (r ∷ rs) = r ∷ remove_at i rs

-- `subnetHints[0] || ""`
first_hint : List Text → Text
first_hint [] = []
first_hint (h ∷ hs) = h

-- What the user does to the list and the switch. While the switch is on the fields, the buttons of
-- the rows and "Add a limit" are disabled.
pub data Edit : Type 0 where
  update : ℕ → (Rule → Rule) → Edit
  add_rule : Edit
  remove_rule : ℕ → Edit
  toggle_exit : Edit

edited : List Text → Edit → List Rule → List Rule
unfolding first_hint patch_at remove_at
edited hints (update i patch) rules = patch_at i patch rules
edited hints add_rule rules =
    rules
    ++ (record { dest = first_hint hints; proto = any_proto; port_from = 0; port_to = 0 } ∷ [])
edited hints (remove_rule i) rules = remove_at i rules
edited hints toggle_exit rules = rules

unfoldable pub apply_edit : List Text → Edit → Editor → Editor
unfolding edited set_rules
apply_edit hints toggle_exit e = record e { exit = not e.exit }
apply_edit hints edit e = if e.exit then e else set_rules (edited hints edit e.rules) e

-- What is sent of the rules.
unfoldable pub to_save : Editor → List Rule
unfolding is_catch_all
to_save e = if e.exit then filter (λ r. not (is_catch_all r)) e.rules else e.rules

module _ {S : Type 0} (P : Panel S) (ids : List Text) (node : Text) where
  -- The list's load, for the lead of the group.
  load_rules : Text → M S Editor (Unit {0})
  unfolding set_rules
  load_rules lead = do
    attempt (do rules ← call P (get_grant_rules lead node); modify (set_rules rules))
        (λ e. modify (λ s. record s { err = human_error e }))
    modify (λ s. record s { loaded = true })

  -- `Promise.all(ids.map(…))`: each member's exit, off where it cannot be read.
  unfoldable pub exit_flags : List Text → M S Editor (List Bool)
  exit_flags [] = pure []
  exit_flags (id ∷ rest) = do
    flag ← or_else (call P (get_grant_exit id node)) false
    flags ← exit_flags rest
    pure (flag ∷ flags)

  all_on : List Bool → Bool
  all_on [] = false
  all_on (b ∷ bs) = all (λ x. x) (b ∷ bs)

  -- The two loads of the effect, the list's answered first.
  load_all : List Text → M S Editor (Unit {0})
  unfolding load_rules exit_flags all_on
  load_all [] = done
  load_all (lead ∷ rest) = do
    load_rules lead
    flags ← exit_flags (lead ∷ rest)
    modify (λ s. record s { exit = all_on flags })

  unfoldable pub load : M S Editor (Unit {0})
  unfolding load_all
  load = load_all ids

  unfoldable pub save_for : Editor → Text → M S Editor (Unit {0})
  unfolding to_save
  save_for e id = do
    call P (set_grant_exit id node e.exit)
    call P (set_grant_rules id node (to_save e))

  unfoldable pub save : Text → M S Editor (Unit {0})
  unfolding save_for
  save who = do
    modify (λ s. record s { busy = true; err = [] })
    e ← get
    attempt (do for_each ids (save_for e); announce who; note closed)
        (λ t. modify (λ s. record s { err = human_error t }))
    modify (λ s. record s { busy = false })
