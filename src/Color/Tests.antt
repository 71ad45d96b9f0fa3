-- ===== src/Color/Tests.antt =====
-- Runs of the hash and of the reading of a colour.
use beauty_awg.Base.{◌≡◌, refl, some, none, codes, false, arith}
use beauty_awg.Base.Strings.{trim, trim_end, trim_start, is_space}
use beauty_awg.Color.{fnv1a, hex_to_rgb, hex_digit}
use beauty_awg.Number.Fraction.{Fraction, fraction, fractions}
use beauty_awg.Color.Shades.{channel}
use beauty_awg.Color.Picker.{Choosing, opened, save}
use beauty_awg.Color.Stored.{IsShown, stored_byte, hex_to_rgb-save}

hash_of_a : fnv1a (codes "a") ≡ 3826002220
unfolding fnv1a codes
hash_of_a = refl

grey : hex_to_rgb (codes " #8090aF ") ≡ some (128, 144, 175)
unfolding hex_to_rgb codes trim trim_end trim_start is_space hex_digit
grey = refl

too_short : hex_to_rgb (codes "#fff") ≡ none
unfolding hex_to_rgb codes trim trim_end trim_start is_space
too_short = refl

abbrev red_chosen : Choosing Fraction
red_chosen = record { auto = false; hue = fraction 0 1 }

red-IsShown : IsShown red_chosen.hue
unfolding channel
red-IsShown = record { red = omega arith; green = omega arith; blue = omega arith }

hex_to_rgb-save_example :
    (hex_to_rgb (save red_chosen)
      ≡ some (
        stored_byte red_chosen.hue 0,
        stored_byte red_chosen.hue 8,
        stored_byte red_chosen.hue 4,
      ))
    × ((opened {N = Fraction} (save red_chosen) (codes "10.8.0.2")).auto ≡ false)
hex_to_rgb-save_example = hex_to_rgb-save red_chosen (codes "10.8.0.2") red-IsShown
