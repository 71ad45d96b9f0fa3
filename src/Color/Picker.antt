-- ===== src/Color/Picker.antt =====
-- web/app/components/ColorPickerModal.tsx: the hue slider, the automatic colour, and what is saved.
use beauty_awg.Base.{Bool, true, false, not, [], Text, truthy, if◌then◌else◌}
use beauty_awg.Theme.{Resolved}
use beauty_awg.Number.{Number, whole}
use beauty_awg.Color.Bands.{band_for}
use beauty_awg.Color.Shades.{hsl_to_hex, hue_of, hue_from_hex, readable_text_color}

-- `auto` and `hue`
pub record Choosing (N : Type 0) : Type 0 where
  pub auto : Bool
  pub hue : N

module _ {N : Type 0} ⦃R : Number N⦄ where
  -- The states at the opening: the stored override is empty if there is none.
  unfoldable pub opened : Text → Text → Choosing N
  opened current seed = record {
    auto = not (truthy current);
    hue = if truthy current then hue_from_hex current else hue_of seed;
  }

  -- The slider.
  unfoldable pub slide : N → Choosing N → Choosing N
  slide hue c = record { auto = false; hue = hue }

  -- "Back to the automatic color", which is disabled while it is chosen.
  unfoldable pub back_to_auto : Text → Choosing N → Choosing N
  back_to_auto seed c = if c.auto then c else record { auto = true; hue = hue_of seed }

  -- `stored`: the hue in the one band that is stored, whatever the theme.
  unfoldable pub stored_color : N → Text
  unfolding band_for
  stored_color hue = let b = band_for Resolved.light in hsl_to_hex hue (whole b.sat) (whole b.light)

  -- `swatchColor`, and the text on it.
  unfoldable pub swatch : Text → Resolved → Choosing N → Text × Text
  swatch seed theme c =
      let b = band_for theme in
      let color =
        hsl_to_hex (if c.auto then hue_of seed else c.hue) (whole b.sat) (whole b.light) in
      (color, readable_text_color N color)

  -- `save`: the colour that is handed on; the dialog closes.
  unfoldable pub save : Choosing N → Text
  unfolding stored_color
  save c = if c.auto then [] else stored_color c.hue
