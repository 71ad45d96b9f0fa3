-- ===== src/Modal/Keys.antt =====
-- The keys reach the topmost dialog alone, and Tab keeps the focus among its controls.
use beauty_awg.Base.{
  ℕ, ◌≡◌, refl, Bool, true, false, List, [], ◌∷◌, ◌++◌, arith, eqb, any, ◌⊎◌, inl, inr,
}
use beauty_awg.Modal.{Key, escape, tab, Panel, close, focus, on_key_down, is_top, on_tab, last_of}

-- The dialogs, of those given, that the key closes.
abbrev pub closed_by : Key → Panel → List ℕ → List ℕ → List ℕ
closed_by key d stack [] = []
closed_by key d stack (t ∷ ts) = elim (on_key_down stack t key d) [
  | close ↦ t ∷ closed_by key d stack ts
  | _ ↦ closed_by key d stack ts
]

is_top-concat : (stack : List ℕ) (t u : ℕ) → is_top (stack ++ (t ∷ [])) u ≡ eqb t u
unfolding is_top
is_top-concat [] t u = refl
is_top-concat (x ∷ []) t u = refl
is_top-concat (x ∷ y ∷ stack) t u = is_top-concat (y ∷ stack) t u

closed_by_below :
    (d : Panel) (stack ts : List ℕ) (t : ℕ)
    → any (λ x. eqb x t) ts ≡ false
    → closed_by escape d (stack ++ (t ∷ [])) (ts ++ (t ∷ [])) ≡ t ∷ []
unfolding on_key_down any
closed_by_below d stack [] t h = ground (arith, is_top-concat stack t t)
closed_by_below d stack (x ∷ ts) t h =
    ground (arith, is_top-concat stack t x, closed_by_below d stack ts t)

-- Escape closes exactly one of the open dialogs: the one that opened last.
closed_by-escape :
    (d : Panel) (stack : List ℕ) (t : ℕ)
    → any (λ x. eqb x t) stack ≡ false
    → closed_by escape d (stack ++ (t ∷ [])) (stack ++ (t ∷ [])) ≡ t ∷ []
closed_by-escape d stack t h = closed_by_below d stack stack t h

any-last_of : (x : ℕ) (xs : List ℕ) → any (λ y. eqb y (last_of x xs)) (x ∷ xs) ≡ true
unfolding any last_of
any-last_of x [] = ground arith
any-last_of x (y ∷ ys) = ground (arith, any-last_of y ys)

any-head : (x : ℕ) (xs : List ℕ) → any (λ y. eqb y x) (x ∷ xs) ≡ true
unfolding any
any-head x xs = ground arith

focus-injective : (a b : ℕ) → focus a ≡ focus b → a ≡ b
focus-injective a b h = cc

on_tab_target :
    (shift : Bool) (d : Panel) (x : ℕ) (xs : List ℕ) (e : ℕ)
    → on_tab shift d (x ∷ xs) ≡ focus e
    → (e ≡ last_of x xs) ⊎ (e ≡ x)
unfolding on_tab
on_tab_target shift d x xs e h = ground arith

on_tab-focus :
    (shift : Bool) (d : Panel) (items : List ℕ) (e : ℕ)
    → on_tab shift d items ≡ focus e
    → any (λ y. eqb y e) items ≡ true
unfolding on_tab
on_tab-focus shift d [] e h = cc
on_tab-focus shift d (x ∷ xs) e h = elim (on_tab_target shift d x xs e h) [
  | inl last ↦ rw last (any-last_of x xs)
  | inr first ↦ rw first (any-head x xs)
]

-- Where Tab or Shift+Tab moves the focus itself, it moves it to a control of the dialog, which is
-- the topmost one.
pub on_key_down-focus :
    (stack : List ℕ) (me : ℕ) (shift : Bool) (d : Panel) (e : ℕ)
    → on_key_down stack me (tab shift) d ≡ focus e
    → (is_top stack me ≡ true) × (any (λ y. eqb y e) d.items ≡ true)
unfolding on_key_down
on_key_down-focus stack me shift d e h = ground (arith, on_tab-focus shift d d.items e)
