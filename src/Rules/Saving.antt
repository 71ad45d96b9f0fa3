-- ===== src/Rules/Saving.antt =====
-- What the editor of RulesModal.tsx sends of a list with a catch-all in it.
use beauty_awg.Base.{
  ◌≡◌, ◌∙◌, Bool, true, false, not, List, [], ◌∷◌, arith, Text, All, any, if◌then◌else◌, Bool-cases,
  inl, inr, any-filter, any_none,
}
use beauty_awg.Api.{Rule}
use beauty_awg.Rules.{
  Editor, Edit, update, add_rule, remove_rule, toggle_exit, is_catch_all, has_catch_all, set_rules,
  apply_edit, to_save,
}

-- Where the list holds a catch-all, the switch is on.
abbrev pub IsCovered : Editor → Type 0
IsCovered e = has_catch_all e.rules ≡ true → e.exit ≡ true

abbrev pub is_toggle : Edit → Bool
is_toggle toggle_exit = true
is_toggle _ = false

unfoldable pub apply_edits : List Text → List Edit → Editor → Editor
apply_edits hints [] e = e
apply_edits hints (x ∷ xs) e = apply_edits hints xs (apply_edit hints x e)

set_rules-IsCovered : (rules : List Rule) (e : Editor) → IsCovered e → IsCovered (set_rules rules e)
unfolding set_rules
set_rules-IsCovered rules e h k = ground (arith, h)

edit-IsCovered :
    (b : Bool) (rules : List Rule) (e : Editor)
    → IsCovered e
    → IsCovered (if b then e else set_rules rules e)
edit-IsCovered true rules e h = h
edit-IsCovered false rules e h = set_rules-IsCovered rules e h

apply_edit-IsCovered :
    (hints : List Text) (x : Edit) (e : Editor)
    → is_toggle x ≡ false
    → IsCovered e
    → IsCovered (apply_edit hints x e)
unfolding apply_edit
apply_edit-IsCovered hints (update i p) e t h = edit-IsCovered e.exit _ e h
apply_edit-IsCovered hints add_rule e t h = edit-IsCovered e.exit _ e h
apply_edit-IsCovered hints (remove_rule i) e t h = edit-IsCovered e.exit _ e h
apply_edit-IsCovered hints toggle_exit e t h = cc

to_save_covered : (e : Editor) → IsCovered e → any is_catch_all (to_save e) ≡ false
unfolding to_save has_catch_all
to_save_covered e h = elim (Bool-cases e.exit) [
  | inl on ↦ rw on (
      any-filter is_catch_all (λ r. not (is_catch_all r)) e.rules
      ∙ any_none _ e.rules (λ r. ground arith))
  | inr off ↦ rw off (ground (arith, h))
]

-- However the list is edited, from a list that is covered by the switch and without turning the
-- switch itself, an entry for every address is never sent as a limit: the switch carries it.
pub to_save-apply_edits :
    (hints : List Text) (edits : List Edit) (e : Editor)
    → All (λ x. is_toggle x ≡ false) edits
    → IsCovered e
    → (any is_catch_all (to_save (apply_edits hints edits e)) ≡ false)
      × IsCovered (apply_edits hints edits e)
unfolding apply_edits
to_save-apply_edits hints [] e t h = (to_save_covered e h, h)
to_save-apply_edits hints (x ∷ xs) e (n, t) h =
    to_save-apply_edits hints xs (apply_edit hints x e) t (apply_edit-IsCovered hints x e n h)
