-- ===== src/Color/Shades.antt =====
-- color.ts: hues, and the shades that a theme renders them in. A hue is a number of degrees.
use beauty_awg.Base.{ℕ, Option, none, some, Text, codes, truthy, ◌or_text◌, if◌then◌else◌}
use beauty_awg.Theme.{Resolved}
use beauty_awg.Color.Bands.{Band, Colorable, band_for, mark, handle_light}
use beauty_awg.Number.{Number, lit, whole, ◌+◌, ◌-◌, ◌*◌, ◌/◌, ◌<?◌, negated, least, greatest}
use beauty_awg.Color.{fnv1a, hex_to_rgb}
use beauty_awg.Color.Hex.{rgb_text}

module _ {N : Type 0} ⦃R : Number N⦄ where
  -- `f(n)` of `hslToHex`
  abbrev level : N → N → N → ℕ → N
  level h s l n =
      let k = R.rest (whole n + h / whole 30) (whole 12) in
      let a = s * least l (whole 1 - l) in
      l - a * greatest (negated (whole 1)) (least (k - whole 3) (least (whole 9 - k) (whole 1)))

  -- The byte that `toHex(f(n))` prints, at a saturation and a lightness in hundredths.
  unfoldable pub channel : N → N → N → ℕ → ℕ
  channel h s l n = R.round (level h (s / whole 100) (l / whole 100) n * whole 255)

  unfoldable pub hsl_to_hex : N → N → N → Text
  hsl_to_hex h s l = rgb_text (channel h s l 0) (channel h s l 8) (channel h s l 4)

  -- `hueOf`, with the golden angle.
  unfoldable pub hue_of : Text → N
  hue_of seed = R.rest (whole (fnv1a seed) * lit 13750776405003785 100000000000000) (whole 360)

  -- The sixth of the wheel of `hueFromHex`, by the greatest of the three.
  abbrev sixth : N → N → N → N → N → N
  sixth r g b top d =
      if R.same top r
      then R.rest ((g - b) / d) (whole 6)
      else if R.same top g
      then (b - r) / d + whole 2
      else (r - g) / d + whole 4

  hue_of_rgb : N → N → N → N
  hue_of_rgb r g b =
      let top = greatest r (greatest g b) in
      let low = least r (least g b) in
      let h = sixth r g b top (top - low) * whole 60 in
      if R.same top low then whole 0 else if h <? whole 0 then h + whole 360 else h

  hue_from_rgb : Option (ℕ × ℕ × ℕ) → N
  unfolding hue_of_rgb
  hue_from_rgb none = whole 0
  hue_from_rgb (some (r, g, b)) =
      hue_of_rgb (whole r / whole 255) (whole g / whole 255) (whole b / whole 255)

  unfoldable pub hue_from_hex : Text → N
  unfolding hue_from_rgb
  hue_from_hex hex = hue_from_rgb (hex_to_rgb hex)

  shade : N → Band → Text
  shade hue b = hsl_to_hex hue (whole b.sat) (whole b.light)

  unfoldable pub hue_of_node : Colorable → N
  hue_of_node node =
      if truthy node.color then hue_from_hex node.color else hue_of (node.address or_text node.id)

module _ (N : Type 0) ⦃R : Number N⦄ where
  unfoldable pub default_node_color : Text → Text
  unfolding shade
  default_node_color seed = shade {N = N} (hue_of seed) (band_for Resolved.light)

  text_on : Option (ℕ × ℕ × ℕ) → Text
  text_on none = codes "#fff"
  text_on (some (r, g, b)) =
      if ◌<?◌ {N = N} (whole 150)
        (lit 299 1000 * whole r + lit 587 1000 * whole g + lit 114 1000 * whole b)
      then codes "#15181f"
      else codes "#fff"

  unfoldable pub readable_text_color : Text → Text
  unfolding text_on
  readable_text_color bg = text_on (hex_to_rgb bg)

  unfoldable pub node_color : Colorable → Resolved → Text
  unfolding shade
  node_color node theme = shade {N = N} (hue_of_node node) (band_for theme)

  unfoldable pub mark_color : Colorable → Text
  unfolding shade
  mark_color node = shade {N = N} (hue_of_node node) mark

  unfoldable pub handle_color : Colorable → Resolved → Text
  handle_color node theme =
      hsl_to_hex {N = N} (hue_of_node node) (whole (band_for theme).sat)
        (whole (handle_light theme))
