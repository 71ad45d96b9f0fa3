-- ===== src/Rules/Locked.antt =====
-- RulesModal.tsx: what the window lets the user edit.
use beauty_awg.Base.{
  ℕ, ◌+◌, ◌≡◌, refl, Bool, true, false, List, [], ◌∷◌, ◌++◌, Text, truthy, codes, subst, sym,
  if◌then◌else◌,
}
use beauty_awg.Api.{Rule}
use beauty_awg.Ui.{Item, alert, field, button, Offers, Allows, Allows-append, Allows-Offers}
use beauty_awg.Rules.{Editor, Edit, update, add_rule, remove_rule, toggle_exit}
use beauty_awg.Rules.Window.{Press, edit, rule_rows, no_limits, exit_switch, foot, rules_view}

-- A press that the editor takes: with the switch on, of the edits only the switch's own.
abbrev pub IsTaken : Bool → Press → Type 0
IsTaken exit (edit toggle_exit) = Unit
IsTaken exit (edit x) = exit ≡ false
IsTaken exit press = Unit

-- No field of a list of items can be typed in.
abbrev pub AreLocked : List (Item Press) → Type 0
AreLocked [] = Unit
AreLocked (field label value false ∷ items) = ⊥
AreLocked (i ∷ items) = AreLocked items

rows-Allows : (exit : Bool) (i : ℕ) (rs : List Rule) → Allows (IsTaken exit) (rule_rows exit i rs)
unfolding rule_rows
rows-Allows exit i [] = tt
rows-Allows true i (r ∷ rs) = rows-Allows true (i + 1) rs
rows-Allows false i (r ∷ rs) = (refl, rows-Allows false (i + 1) rs)

rows-AreLocked : (i : ℕ) (rs : List Rule) → AreLocked (rule_rows true i rs)
unfolding rule_rows
rows-AreLocked i [] = tt
rows-AreLocked i (r ∷ rs) = rows-AreLocked (i + 1) rs

switch-Allows : (node : Text) (exit : Bool) → Allows (IsTaken exit) (exit_switch node exit)
unfolding exit_switch
switch-Allows node true = (tt, tt)
switch-Allows node false = (tt, tt)

foot-Allows : (exit can_revoke busy : Bool) → Allows (IsTaken exit) (foot can_revoke busy)
unfolding foot
foot-Allows exit true true = (tt, (tt, tt))
foot-Allows exit true false = (tt, (tt, (tt, tt)))
foot-Allows exit false true = (tt, tt)
foot-Allows exit false false = (tt, (tt, tt))

no_limits-Allows :
    (exit : Bool) (node : Text) (loaded : Bool) (rs : List Rule)
    → Allows (IsTaken exit) (no_limits node loaded rs)
unfolding no_limits
no_limits-Allows exit node true [] = tt
no_limits-Allows exit node false [] = tt
no_limits-Allows exit node loaded (r ∷ rs) = tt

add-Allows :
    (exit : Bool) (label : Text) (items : List (Item Press))
    → Allows (IsTaken exit) items
    → Allows (IsTaken exit) (button label exit (edit add_rule) ∷ items)
add-Allows true label items h = h
add-Allows false label items h = (refl, h)

error-Allows :
    (exit : Bool) (err : Text) → Allows (IsTaken exit) (if truthy err then alert err ∷ [] else [])
error-Allows exit [] = tt
error-Allows exit (c ∷ err) = tt

view-Allows :
    (client node : Text) (can_revoke : Bool) (e : Editor)
    → Allows (IsTaken e.exit) (rules_view client node can_revoke e)
unfolding rules_view
view-Allows client node can_revoke e =
    let taken = IsTaken e.exit in
    let last = button (codes "Add a limit") e.exit (edit add_rule) ∷ foot can_revoke e.busy in
    let rows = rule_rows e.exit 0 e.rules in
    let empty = no_limits node e.loaded e.rules in
    let switch = exit_switch node e.exit in
    Allows-append taken (if truthy e.err then alert e.err ∷ [] else [])
      (switch ++ (empty ++ (rows ++ last))) (error-Allows e.exit e.err)
      (Allows-append taken switch (empty ++ (rows ++ last)) (switch-Allows node e.exit) (
        Allows-append taken empty (rows ++ last) (no_limits-Allows e.exit node e.loaded e.rules) (
          Allows-append taken rows last (rows-Allows e.exit 0 e.rules) (
            add-Allows e.exit (codes "Add a limit") (foot can_revoke e.busy)
              (foot-Allows e.exit can_revoke e.busy)))))

only_toggle : (x : Edit) (exit : Bool) → exit ≡ true → IsTaken exit (edit x) → x ≡ toggle_exit
only_toggle (update i patch) exit on taken = cc
only_toggle add_rule exit on taken = cc
only_toggle (remove_rule i) exit on taken = cc
only_toggle toggle_exit exit on taken = refl

-- While all traffic goes through the location, the only edit that the window offers is the switch
-- back, and every field of every row is disabled: the guard that the editor's edits have is the
-- window's own.
pub rules_view-locked :
    (client node : Text) (can_revoke : Bool) (e : Editor) (x : Edit)
    → e.exit ≡ true
    → Offers (rules_view client node can_revoke e) (edit x)
    → (x ≡ toggle_exit) × AreLocked (rule_rows e.exit 0 e.rules)
rules_view-locked client node can_revoke e x on offered = (
  only_toggle x e.exit on (
      Allows-Offers (IsTaken e.exit) (rules_view client node can_revoke e) (edit x)
        (view-Allows client node can_revoke e) offered),
  subst (λ b. AreLocked (rule_rows b 0 e.rules)) (sym on) (rows-AreLocked 0 e.rules),
)
