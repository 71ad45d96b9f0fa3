-- ===== src/Errors/Patterns.antt =====
-- The regular expressions of web/app/lib/errors.ts. All of them ignore case and are searched for
-- anywhere in the text.
use beauty_awg.Base.{
  ℕ, ◌+◌, Bool, true, false, ◌||◌, ◌&&◌, Option, none, some, [], ◌∷◌, Text, eqb, leb, if◌then◌else◌,
  starts_with,
}

-- Upper-case ASCII letters to lower case; no other unit folds to an ASCII letter.
unfoldable pub lower : ℕ → ℕ
lower c = if leb b'A' c && leb c b'Z' then c + 32 else c

-- What follows a literal of a pattern, if the text begins with it.
unfoldable pub after_phrase : Text → Text → Option Text
unfolding lower
after_phrase [] s = some s
after_phrase (p ∷ ps) [] = none
after_phrase (p ∷ ps) (c ∷ s) = if eqb (lower p) (lower c) then after_phrase ps s else none

-- What stands before the first unit equal to `stop`.
unfoldable pub until : ℕ → Text → Option Text
until stop [] = none
until stop (c ∷ s) =
    if eqb c stop then some [] else elim (until stop s) [ none ↦ none | some t ↦ some (c ∷ t) ]

-- A line terminator, which `.` does not match.
is_newline : ℕ → Bool
is_newline c = eqb c 10 || eqb c 13 || eqb c 0x2028 || eqb c 0x2029

-- `.*` and a literal.
unfoldable pub on_line : Text → Text → Bool
unfolding is_newline
on_line p [] = elim (after_phrase p []) [ none ↦ false | some t ↦ true ]
on_line p (c ∷ s) = elim (after_phrase p (c ∷ s)) [
  | some t ↦ true
  | none ↦ if is_newline c then false else on_line p s
]

pub data Pattern : Type 0 where
  -- A literal.
  phrase : Text → Pattern
  -- A literal, `([^x]*)` and `x`.
  enclosed : Text → ℕ → Pattern
  -- A literal, `([^x]+)` and `x`.
  quoted : Text → ℕ → Pattern
  -- A literal, `.*` and a literal.
  spanned : Text → Text → Pattern

non_empty : Option Text → Option Text
non_empty (some (c ∷ s)) = some (c ∷ s)
non_empty _ = none

-- A match at the very start of the text, with the captured group or nothing.
unfoldable pub match_at : Pattern → Text → Option Text
unfolding non_empty
match_at (phrase p) s = elim (after_phrase p s) [ none ↦ none | some t ↦ some [] ]
match_at (enclosed p stop) s = elim (after_phrase p s) [ none ↦ none | some t ↦ until stop t ]
match_at (quoted p stop) s = elim (after_phrase p s) [
  | none ↦ none
  | some t ↦ non_empty (until stop t)
]
match_at (spanned p q) s = elim (after_phrase p s) [
  | none ↦ none
  | some t ↦ if on_line q t then some [] else none
]

-- `raw.match(p)`: the leftmost match.
unfoldable pub search_for : Pattern → Text → Option Text
search_for p [] = match_at p []
search_for p (c ∷ s) = elim (match_at p (c ∷ s)) [ some t ↦ some t | none ↦ search_for p s ]

-- `raw.includes(p)`
unfoldable pub includes_text : Text → Text → Bool
includes_text [] p = starts_with [] p
includes_text (c ∷ s) p = starts_with (c ∷ s) p || includes_text s p
