-- ===== src/Views/Tests.antt =====
-- Runs of the views.
use beauty_awg.Base.{◌≡◌, refl, inl, inr, false, some, [], ◌∷◌, Text, All, filter, codes}
use beauty_awg.Api.{ok}
use beauty_awg.Dashboard.{has_status}
use beauty_awg.Ui.{Offers, each}
use beauty_awg.Samples.{servers, home}
use beauty_awg.Views.Locations.{
  Windows, all_closed, press, remove, confirm, locations_view, location_lists,
}
use beauty_awg.Views.Locations.Justified.{IsJustified, here, next, presses, Reach-IsJustified}
use beauty_awg.Views.Windows.{confirm_view, settings_view}
use beauty_awg.Views.Share.{Panel, conf_answers, leaves, forgets, edits, run, is_loading, qr}
use beauty_awg.Views.Share.Loading.{run-answered}

abbrev plain_date : Text → Text
plain_date t = t

remove_offered : Offers (locations_view plain_date servers all_closed) (remove home)
unfolding locations_view location_lists filter has_status each settings_view
remove_offered = inr (inr (inr (inl refl)))

abbrev asked : Windows
asked = press (remove home) all_closed

confirm_offered : Offers (locations_view plain_date servers asked) (confirm home)
unfolding locations_view location_lists filter has_status each settings_view press confirm_view
    codes
confirm_offered = inr (inr (inr (inr (inr (inr (inr (inl refl)))))))

Reach-IsJustified_example : All IsJustified (press (confirm home) asked).out
Reach-IsJustified_example = Reach-IsJustified (
    next (next here (presses all_closed plain_date servers (remove home) remove_offered))
      (presses asked plain_date servers (confirm home) confirm_offered))

abbrev asking : Panel
asking = record { text = []; vpn = []; err = []; copied = []; view = qr; request = some 1 }

run-answered_example :
    is_loading (
      run
        (conf_answers 1 (ok (codes "[Interface]")) ∷ edits (codes "#") ∷ leaves ∷ forgets ∷ [])
        asking)
    ≡ false
unfolding codes
run-answered_example =
    run-answered 1 (ok (codes "[Interface]")) (edits (codes "#") ∷ leaves ∷ forgets ∷ []) asking
      refl refl (refl, (tt, (tt, tt)))
