-- ===== src/Modal/Overflow.antt =====
-- The page's scrolling across dialogs that open and close.
use beauty_awg.Base.{
  ℕ, ◌≡◌, refl, ap, ◌∙◌, ◌≢◌, false, Option, some, List, [], ◌∷◌, ◌++◌, arith, Text, codes, eqb,
  find, any, ◌⊎◌, inl, inr, sym, Option-cases,
}
use beauty_awg.Modal.{Page, Control, mount, unmount, splice, restore_overflow, first_control}

-- A page without dialogs.
abbrev pub bare_page : Text → Option ℕ → Page
bare_page overflow focused = record {
  stack = [];
  frames = [];
  overflow = overflow;
  focused = focused;
}

pub data Action : Type 0 where
  open_dialog : ℕ → List Control → Option ℕ → Action
  close_dialog : ℕ → Action

unfoldable pub act : Action → Page → Page
act (open_dialog t controls panel) p = mount t controls panel p
act (close_dialog t) p = unmount t p

unfoldable pub run : List Action → Page → Page
unfolding act
run [] p = p
run (a ∷ later) p = run later (act a p)

run-append :
    (first later : List Action) (p : Page) → run (first ++ later) p ≡ run later (run first p)
unfolding run
run-append [] later p = refl
run-append (a ∷ first) later p = run-append first later (act a p)

-- Dialogs that close in the opposite order of their opening: each one opens, others open and close
-- inside it, and it closes. The list names the dialogs that are open around them.
pub data Nested : List ℕ → List Action → Type 0 where
  quiet : {stack : List ℕ} → Nested stack []
  around :
      {stack : List ℕ} {inside later : List Action} (t : ℕ) (controls : List Control)
      (panel : Option ℕ)
      → any (λ x. eqb x t) stack ≡ false
      → Nested (stack ++ (t ∷ [])) inside
      → Nested stack later
      → Nested stack (open_dialog t controls panel ∷ (inside ++ (close_dialog t ∷ later)))

splice-concat :
    (stack : List ℕ) (t : ℕ)
    → any (λ x. eqb x t) stack ≡ false
    → splice t (stack ++ (t ∷ [])) ≡ stack
unfolding splice any
splice-concat [] t h = ground arith
splice-concat (x ∷ stack) t h = ground (arith, splice-concat stack t)

mount-focused :
    (t : ℕ) (controls : List Control) (panel : Option ℕ) (p : Page) (e : ℕ)
    → p.focused ≡ some e
    → (f : ℕ) × ((mount t controls panel p).focused ≡ some f)
unfolding mount
mount-focused t controls panel p e h = elim (Option-cases (first_control controls panel)) [
  | inl missing ↦ (e, ground arith)
  | inr (f, found) ↦ (f, ground arith)
]

-- With dialogs open the page does not scroll.
abbrev pub IsLocked : Page → Type 0
IsLocked p = (p.stack ≡ []) ⊎ (p.overflow ≡ codes "hidden")

restore_overflow_lem :
    (stack : List ℕ) (overflow : Text)
    → (stack ≡ []) ⊎ (overflow ≡ codes "hidden")
    → restore_overflow stack overflow (codes "hidden") ≡ overflow
restore_overflow_lem [] overflow h = refl
restore_overflow_lem (t ∷ stack) overflow (inl h) = cc
restore_overflow_lem (t ∷ stack) overflow (inr h) = sym h

unmount-mount :
    (t : ℕ) (controls : List Control) (panel : Option ℕ) (p : Page) (e : ℕ)
    → any (λ x. eqb x t) p.stack ≡ false
    → IsLocked p
    → p.focused ≡ some e
    → unmount t (mount t controls panel p) ≡ p
unfolding unmount mount find
unmount-mount t controls panel p e fresh locked focused = ground (
  arith,
  splice-concat p.stack t fresh,
  restore_overflow_lem p.stack p.overflow locked,
  ap (λ s. restore_overflow s p.overflow (codes "hidden")) (splice-concat p.stack t fresh),
)

-- Dialogs that close in the opposite order of their opening leave the page as it was: its
-- scrolling, its focus and the dialogs around them, whatever was nested in what.
pub run-Nested :
    {stack : List ℕ} {actions : List Action}
    → Nested stack actions
    → (p : Page) (e : ℕ) → p.stack ≡ stack
    → IsLocked p
    → p.focused ≡ some e
    → run actions p ≡ p
unfolding run mount
run-Nested quiet p e s locked focused = refl
run-Nested (around {inside} {later} t controls panel fresh body rest) p e s locked focused =
    let q = mount t controls panel p in
    let (f, refocused) = mount-focused t controls panel p e focused in
    run-append inside (close_dialog t ∷ later) q
    ∙ (ap (run (close_dialog t ∷ later))
          (run-Nested body q f (ap (λ l. l ++ (t ∷ [])) s) (inr refl) refocused)
        ∙ (ap (run later) (unmount-mount t controls panel p e (rw s fresh) locked focused)
            ∙ run-Nested rest p e s locked focused))

-- A dialog that closes before the one opened inside it leaves the page unscrollable: the inner
-- one, which closes last, puts back the "hidden" that it found.
pub run_outer_first :
    (t u : ℕ) (cs ds : List Control) (panel panel' : Option ℕ) (overflow : Text)
    (focused : Option ℕ)
    → t ≢ u
    → (run
        (open_dialog t cs panel ∷ open_dialog u ds panel' ∷ close_dialog t ∷ close_dialog u ∷ [])
        (bare_page overflow focused)).overflow
      ≡ codes "hidden"
unfolding run unmount mount find
run_outer_first t u cs ds panel panel' overflow focused ne = ground arith
