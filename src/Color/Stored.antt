-- ===== src/Color/Stored.antt =====
-- ColorPickerModal.tsx: what is saved, and how it is read when the window is opened again.
use beauty_awg.Base.{
  ℕ, ◌<◌, ◌≡◌, refl, arith, none, some, [], Text, trim, trim_start, trim_end, if◌then◌else◌,
}
use beauty_awg.Number.{Number, whole}
use beauty_awg.Color.{hex_to_rgb, without_hash, six_digits}
use beauty_awg.Color.Hex.{rgb_text, hex_to_rgb-rgb_text}
use beauty_awg.Color.Shades.{channel, hsl_to_hex}
use beauty_awg.Color.Picker.{Choosing, opened, save}

hex_to_rgb-nil : hex_to_rgb [] ≡ none
unfolding hex_to_rgb trim trim_start trim_end without_hash six_digits
hex_to_rgb-nil = refl

module _ {N : Type 0} ⦃R : Number N⦄ where
  -- The byte of a stored hue.
  abbrev pub stored_byte : N → ℕ → ℕ
  stored_byte hue n = channel hue (whole 40) (whole 74) n

  -- The channels of the hue are bytes, as those of a hue from 0 to 359 are.
  pub record IsShown (hue : N) : Type 0 where
    pub red : stored_byte hue 0 < 256
    pub green : stored_byte hue 8 < 256
    pub blue : stored_byte hue 4 < 256

  -- A colour that was saved is read back: as the automatic one if it was that, as the three bytes
  -- of the chosen hue otherwise; and the window opens again on the same choice of the two. This
  -- holds when the channels of the chosen hue are bytes.
  pub hex_to_rgb-save :
      (c : Choosing N) (seed : Text)
      → IsShown c.hue
      → (hex_to_rgb (save c) ≡ (
          if c.auto
          then none
          else some (stored_byte c.hue 0, stored_byte c.hue 8, stored_byte c.hue 4)))
        × ((opened {N = N} (save c) seed).auto ≡ c.auto)
  unfolding save opened hsl_to_hex rgb_text
  hex_to_rgb-save c seed shown = ground (
    arith,
    hex_to_rgb-nil,
    hex_to_rgb-rgb_text (stored_byte c.hue 0) (stored_byte c.hue 8) (stored_byte c.hue 4),
  )
