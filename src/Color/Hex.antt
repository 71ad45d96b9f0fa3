-- ===== src/Color/Hex.antt =====
-- color.ts: a byte in hexadecimal, and that a colour that is written is read back.
use beauty_awg.Base.{
  ℕ, zero, suc, ◌+◌, ◌*◌, ◌/◌, ◌%◌, ◌<◌, ◌≡◌, refl, inl, inr, Bool-cases, false, some, [], ◌∷◌,
  ◌++◌, arith, Text, ltb, trim, trim_start, trim_end, is_space, if◌then◌else◌,
}
use beauty_awg.Color.{hex_to_rgb, hex_digit, hex_pair, six_digits, without_hash}

unfoldable pub hex_char : ℕ → ℕ
hex_char d = if ltb d 10 then d + 48 else d + 87

-- The digits of `n.toString(16)`, on fuel: 14 are enough for a number below 2 ^ 53.
unfoldable pub hex_text : ℕ → ℕ → Text
unfolding hex_char
hex_text zero n = []
hex_text (suc f) n =
    let rest = hex_text f (n / 16) in
    if ltb n 16 then hex_char n ∷ [] else rest ++ hex_char (n % 16) ∷ []

-- `.padStart(2, "0")`
unfoldable pub pad_start : Text → Text
pad_start [] = b'0' ∷ b'0' ∷ []
pad_start (c ∷ []) = b'0' ∷ c ∷ []
pad_start (c ∷ d ∷ s) = c ∷ d ∷ s

-- `toHex`, of a rounded value.
unfoldable pub to_hex : ℕ → Text
unfolding pad_start
to_hex n = pad_start (hex_text 14 n)

-- `"#" + toHex(…) + toHex(…) + toHex(…)`
unfoldable pub rgb_text : ℕ → ℕ → ℕ → Text
unfolding to_hex
rgb_text r g b = b'#' ∷ to_hex r ++ (to_hex g ++ to_hex b)

hex_text_one : (f n : ℕ) → n < 16 → hex_text (suc f) n ≡ hex_char n ∷ []
unfolding hex_text
hex_text_one f n h = ground arith

hex_text_two :
    (f n : ℕ)
    → n < 256
    → ltb n 16 ≡ false
    → hex_text (suc (suc f)) n ≡ hex_char (n / 16) ∷ hex_char (n % 16) ∷ []
unfolding hex_text
hex_text_two f n h k = ground (arith, hex_text_one f (n / 16))

to_hex_byte : (n : ℕ) → n < 256 → to_hex n ≡ hex_char (n / 16) ∷ hex_char (n % 16) ∷ []
unfolding to_hex hex_char
to_hex_byte n h = elim (Bool-cases (ltb n 16)) [
  | inl one ↦
      let e : n / 16 ≡ 0 = ground arith in
      let r : n % 16 ≡ n = ground arith in rw (hex_text_one 13 n (ground arith), e, r)
  | inr two ↦ rw (hex_text_two 12 n h two)
]

hex_digit-hex_char : (d : ℕ) → d < 16 → hex_digit (hex_char d) ≡ some d
unfolding hex_char hex_digit
hex_digit-hex_char d h = ground arith

hex_char-no_space : (d : ℕ) → d < 16 → is_space (hex_char d) ≡ false
unfolding hex_char is_space
hex_char-no_space d h = ground arith

trim_start_hash : (s : Text) → trim_start (b'#' ∷ s) ≡ b'#' ∷ s
unfolding trim_start is_space
trim_start_hash s = refl

trim_end_last : (s : Text) (c : ℕ) → is_space c ≡ false → trim_end (s ++ c ∷ []) ≡ s ++ c ∷ []
unfolding trim_end
trim_end_last [] c h = ground arith
trim_end_last (d ∷ []) c h = ground arith
trim_end_last (d ∷ e ∷ s) c h = ground (arith, trim_end_last (e ∷ s) c h)

trim_hash : (s : Text) (c : ℕ) → is_space c ≡ false → trim (b'#' ∷ s ++ c ∷ []) ≡ b'#' ∷ s ++ c ∷ []
unfolding trim
trim_hash s c h = rw (trim_start_hash (s ++ c ∷ [])) (trim_end_last (b'#' ∷ s) c h)

hex_pair_byte : (n : ℕ) → n < 256 → hex_pair (hex_char (n / 16)) (hex_char (n % 16)) ≡ some n
unfolding hex_pair
hex_pair_byte n h =
    let m : 16 * (n / 16) + n % 16 ≡ n = omega arith in
    rw (hex_digit-hex_char (n / 16) (omega arith), hex_digit-hex_char (n % 16) (omega arith), m)

-- A colour that is written as "#rrggbb" is read back with its three bytes.
pub hex_to_rgb-rgb_text :
    (r g b : ℕ) → r < 256 → g < 256 → b < 256 → hex_to_rgb (rgb_text r g b) ≡ some (r, g, b)
unfolding hex_to_rgb rgb_text six_digits without_hash
hex_to_rgb-rgb_text r g b hr hg hb =
    rw (to_hex_byte r hr, to_hex_byte g hg, to_hex_byte b hb)
      (rw
        (trim_hash
          (hex_char (r / 16)
            ∷ hex_char (r % 16)
            ∷ hex_char (g / 16)
            ∷ hex_char (g % 16)
            ∷ hex_char (b / 16)
            ∷ [])
          (hex_char (b % 16)) (hex_char-no_space (b % 16) (omega arith)))
        (rw (hex_pair_byte r hr, hex_pair_byte g hg, hex_pair_byte b hb)))
