-- ===== src/Color.antt =====
-- web/app/lib/color.ts: the parts on whole numbers, the hash of a seed and the reading of "#rrggbb".
pub mod Hex
pub mod Bands
pub mod Shades
pub mod Picker
pub mod Stored
mod Tests
use Prim.Native.Nat.{bit_xor}
use beauty_awg.Base.{
  ℕ, zero, suc, ◌+◌, ◌-◌, ◌*◌, ◌/◌, ◌%◌, ◌^◌, Bool, true, false, ◌&&◌, Option, none, some, List, [],
  ◌∷◌, Text, eqb, leb, if◌then◌else◌,
}
use beauty_awg.Base.Strings.{trim}
use beauty_awg.Base.Words.{imul}

infixl 1 ◌>>=◌
abbrev pub ◌>>=◌ : {A B : Type 0} → Option A → (A → Option B) → Option B
none >>= f = none
some a >>= f = f a

-- The loop of `fnv1a` on 32-bit numbers, each unsigned; a text is its UTF-16 code units.
unfoldable fnv1a_from : ℕ → Text → ℕ
fnv1a_from h [] = h
fnv1a_from h (c ∷ cs) = fnv1a_from (imul (bit_xor h c) 0x01000193) cs

unfoldable fnv1a : Text → ℕ
unfolding fnv1a_from
fnv1a s = fnv1a_from 0x811c9dc5 s

-- A digit of `[0-9a-f]` under the flag i.
unfoldable pub hex_digit : ℕ → Option ℕ
hex_digit c =
    if leb 48 c && leb c 57
    then some (c - 48)
    else if leb 97 c && leb c 102
    then some (c - 87)
    else if leb 65 c && leb c 70
    then some (c - 55)
    else none

unfoldable pub hex_pair : ℕ → ℕ → Option ℕ
hex_pair a b = do high ← hex_digit a; low ← hex_digit b; some (16 * high + low)

unfoldable pub six_digits : Text → Option (ℕ × ℕ × ℕ)
unfolding hex_pair
six_digits (a ∷ b ∷ c ∷ d ∷ e ∷ f ∷ []) = do
  red ← hex_pair a b
  green ← hex_pair c d
  blue ← hex_pair e f
  some (red, green, blue)
six_digits s = none

-- `#?` of the pattern.
unfoldable pub without_hash : Text → Text
without_hash [] = []
without_hash (c ∷ s) = if eqb c b'#' then s else c ∷ s

unfoldable pub hex_to_rgb : Text → Option (ℕ × ℕ × ℕ)
unfolding six_digits without_hash
hex_to_rgb hex = six_digits (without_hash (trim hex))
