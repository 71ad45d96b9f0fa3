-- ===== src/Errors/Tests.antt =====
-- Runs of the error sentences.
use beauty_awg.Base.{
  none, [], ◌∷◌, arith, ◌≡◌, refl, Text, codes, ◌==◌, true, starts_with, trim, trim_end, trim_start,
  is_space,
}
use beauty_awg.Errors.{
  api_error, error, human_error, matches, cleaned, first_match, exit_advice, message,
}
use beauty_awg.Errors.Laws.{second_exit, human_error-second_exit}
use beauty_awg.Errors.Patterns.{
  enclosed, search_for, match_at, after_phrase, until, on_line, includes_text,
}

abbrev taken : Text
taken = codes "this device already sends all traffic through \"Home\" — a device"

human_error_tests :
    ((human_error (api_error 401 (codes "unauthorized"))
        == codes "Your session expired. Please sign in again.")
      ≡ true)
    × ((human_error (error (codes "TypeError: boom ")) == codes "boom") ≡ true)
    × ((human_error (api_error 400 (codes "POOL 10.0.0.0/24 exhausted\n"))
          == codes "No addresses left. Delete an unused device to free one up.")
        ≡ true)
    × ((human_error (api_error 500 (codes ""))
          == codes "The server had a problem. Try again in a moment.")
        ≡ true)
    × ((human_error (api_error 400 taken) == exit_advice (codes "Home")) ≡ true)
unfolding human_error matches first_match search_for match_at after_phrase until on_line
    includes_text codes ◌==◌ cleaned message exit_advice starts_with trim trim_end trim_start
    is_space
human_error_tests = (refl, refl, refl, refl, refl)

home_taken :
    search_for (enclosed (codes "subnets overlap (") b')') (second_exit (b'H' ∷ b'o' ∷ []) [])
    ≡ none
unfolding search_for match_at after_phrase codes
home_taken = refl

human_error-second_exit_example :
    human_error (api_error 400 (second_exit (b'H' ∷ b'o' ∷ []) [])) ≡ exit_advice (b'H' ∷ b'o' ∷ [])
human_error-second_exit_example =
    human_error-second_exit 400 b'H' (b'o' ∷ []) [] (omega arith, (omega arith, tt)) home_taken
