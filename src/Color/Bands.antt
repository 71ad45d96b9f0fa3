-- ===== src/Color/Bands.antt =====
-- color.ts: the saturation and lightness of each theme, in hundredths.
use beauty_awg.Base.{ℕ, ◌+◌, ◌-◌, max, min, Text}
use beauty_awg.Theme.{Resolved}

pub record Band : Type 0 where
  pub sat : ℕ
  pub light : ℕ

-- `BANDS`
unfoldable pub band_for : Resolved → Band
band_for Resolved.light = record { sat = 40; light = 74 }
band_for Resolved.dark = record { sat = 50; light = 28 }

abbrev pub mark : Band
mark = record { sat = 52; light = 55 }

-- `Colorable`
pub record Colorable : Type 0 where
  pub color : Text
  pub address : Text
  pub id : Text

-- The lightness of a card's handle, pushed away from the card's.
unfoldable pub handle_light : Resolved → ℕ
unfolding band_for
handle_light Resolved.dark = min 96 ((band_for Resolved.dark).light + 18)
handle_light Resolved.light = max 4 ((band_for Resolved.light).light - 18)
