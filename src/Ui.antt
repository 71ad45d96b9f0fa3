-- ===== src/Ui.antt =====
-- What a component shows, in the order of its markup: the texts, the fields and the buttons, each
-- button with what a press of it does. Icons, classes and styles are left out.
use beauty_awg.Base.{
  Bool, true, false, ◌≡◌, ◌⊎◌, inl, inr, refl, List, [], ◌∷◌, ◌++◌, Text, if◌then◌else◌, subst, All,
}

pub data Item (A : Type 0) : Type 0 where
  title : Text → Item A
  prose : Text → Item A
  hint : Text → Item A
  alert : Text → Item A
  -- A field, with its label, its value and whether it is disabled.
  field : Text → Text → Bool → Item A
  -- A button, with its label, whether it is disabled, and what it does.
  button : Text → Bool → A → Item A
  -- A switch, a box or a tab, with its label, whether it is on, and what a press does.
  switch : Text → Bool → A → Item A

module _ {A : Type 0} where
  -- `{test && <>…</>}`
  abbrev pub shown_if : Bool → List (Item A) → List (Item A)
  shown_if test items = if test then items else []

  -- `xs.map(…)`, where an entry is several items.
  unfoldable pub each : {B : Type 0} → (B → List (Item A)) → List B → List (Item A)
  each f [] = []
  each f (x ∷ xs) = f x ++ each f xs

  -- The user can do `a`: some button that is not disabled, or some switch, does it.
  abbrev pub Offers : List (Item A) → A → Type 0
  Offers [] a = ⊥
  Offers (button label false b ∷ items) a = (b ≡ a) ⊎ Offers items a
  Offers (switch label on b ∷ items) a = (b ≡ a) ⊎ Offers items a
  Offers (i ∷ items) a = Offers items a

  -- What holds of all that the user can do.
  abbrev pub Allows : (A → Type 0) → List (Item A) → Type 0
  Allows P [] = Unit
  Allows P (button label false b ∷ items) = P b × Allows P items
  Allows P (switch label on b ∷ items) = P b × Allows P items
  Allows P (i ∷ items) = Allows P items

  pub Allows-append :
      (P : A → Type 0) (xs ys : List (Item A)) → Allows P xs → Allows P ys → Allows P (xs ++ ys)
  Allows-append P [] ys h k = k
  Allows-append P (button label false b ∷ xs) ys (p, h) k = (p, Allows-append P xs ys h k)
  Allows-append P (switch label on b ∷ xs) ys (p, h) k = (p, Allows-append P xs ys h k)
  Allows-append P (i ∷ xs) ys h k = Allows-append P xs ys h k

  pub Allows-Offers :
      (P : A → Type 0) (items : List (Item A)) (a : A) → Allows P items → Offers items a → P a
  Allows-Offers P [] a h o = absurd o
  Allows-Offers P (button label false b ∷ items) a (p, h) (inl e) = subst P e p
  Allows-Offers P (button label false b ∷ items) a (p, h) (inr o) = Allows-Offers P items a h o
  Allows-Offers P (switch label on b ∷ items) a (p, h) (inl e) = subst P e p
  Allows-Offers P (switch label on b ∷ items) a (p, h) (inr o) = Allows-Offers P items a h o
  Allows-Offers P (i ∷ items) a h o = Allows-Offers P items a h o

  pub Allows-each :
      {B : Type 0} (P : A → Type 0) (Q : B → Type 0) (f : B → List (Item A))
      → ((x : B) → Q x → Allows P (f x))
      → (xs : List B) → All Q xs
      → Allows P (each f xs)
  unfolding each
  Allows-each P Q f h [] q = tt
  Allows-each P Q f h (x ∷ xs) (q, qs) =
      Allows-append P (f x) (each f xs) (h x q) (Allows-each P Q f h xs qs)

  pub Allows-if :
      (P : A → Type 0) (b : Bool) (xs ys : List (Item A))
      → (b ≡ true → Allows P xs)
      → (b ≡ false → Allows P ys)
      → Allows P (if b then xs else ys)
  Allows-if P true xs ys h k = h refl
  Allows-if P false xs ys h k = k refl
