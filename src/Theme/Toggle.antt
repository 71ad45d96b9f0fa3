-- ===== src/Theme/Toggle.antt =====
-- web/app/components/ThemeToggle.tsx: the three options, and what picking one does.
use beauty_awg.Base.{
  ℕ, suc, Bool, true, false, ◌&&◌, ◌||◌, not, Option, none, some, List, [], ◌∷◌, Text, codes,
  if◌then◌else◌, ◌≡◌, arith,
}
use beauty_awg.Theme.{Choice, Storage, stored, window, Provider, set_choice, read_stored}
use beauty_awg.Theme.Laws.{read_stored-set_choice}

unfoldable pub is_choice : Choice → Choice → Bool
is_choice Choice.system Choice.system = true
is_choice Choice.light Choice.light = true
is_choice Choice.dark Choice.dark = true
is_choice a b = false

-- `OPTIONS`
abbrev pub theme_options : List (Choice × Text)
theme_options =
    (Choice.system, codes "Match my system")
    ∷ (Choice.light, codes "Light")
    ∷ (Choice.dark, codes "Dark")
    ∷ []

-- `Math.max(0, OPTIONS.findIndex(…))`
unfoldable pub index_from : Choice → ℕ → List (Choice × Text) → ℕ
unfolding is_choice
index_from c i [] = 0
index_from c i ((o, label) ∷ os) = if is_choice o c then i else index_from c (suc i) os

-- The pill's place; before the mount the first.
unfoldable pub pill : Provider → ℕ
unfolding index_from
pill p = if p.mounted then index_from p.choice 0 theme_options else 0

-- A button: its label, and whether it is checked, which is not said before the mount.
pub record Radio : Type 0 where
  pub value : Choice
  pub label : Text
  pub checked : Option Bool

unfoldable pub radios : Provider → List (Choice × Text) → List Radio
radios p [] = []
radios p ((o, label) ∷ os) =
    record {
      value = o;
      label = label;
      checked = if p.mounted then some (is_choice p.choice o) else none;
    }
    ∷ radios p os

-- `pick`: the provider and the storage after it, and whether the palette is revealed as a circle.
-- `reduced` is the preference for reduced motion, `transitions` whether the browser has them; a
-- transition calls its callback, which sets the choice.
unfoldable pub pick : Bool → Bool → Choice → Provider → Storage → (Provider × Storage) × Bool
unfolding is_choice
pick reduced transitions next p s =
    if is_choice next p.choice
    then ((p, s), false)
    else if reduced || not transitions
    then (set_choice next p s, false)
    else (set_choice next p s, true)

is_choice-eq : (a b : Choice) → is_choice a b ≡ true → a ≡ b
unfolding is_choice
is_choice-eq a b h = ground arith

-- Where storage works and holds the current choice, picking an option sets it, with or without an
-- animation, also where it is the one already, and the next visit reads what was picked. The palette
-- is revealed only for a change, with motion wanted and the browser able.
pub pick-read_stored :
    (reduced transitions : Bool) (next : Choice) (p : Provider) (v : Option Text) (prefers : Bool)
    → read_stored (window (stored v) prefers) ≡ p.choice
    → let (q, reveals) = pick reduced transitions next p (stored v) in
      (q.0.choice ≡ next)
      × (read_stored (window q.1 prefers) ≡ next)
      × (reveals ≡ (not (is_choice next p.choice) && (not reduced && transitions)))
unfolding pick set_choice
pick-read_stored reduced transitions next p v prefers h =
    ground (arith, is_choice-eq next p.choice, (read_stored-set_choice next p v prefers).0)
