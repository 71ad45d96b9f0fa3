-- ===== src/Picker/Tests.antt =====
-- Runs of the chips.
use beauty_awg.Base.{◌≡◌, refl, true, false, ◌&&◌, none, Text, ◌==◌, any, if◌then◌else◌}
use beauty_awg.Base.Sets.{includes}
use beauty_awg.Samples.{platform, database, at_work, phone, home, phone_id, home_id}
use beauty_awg.Store.{has_row}
use beauty_awg.Store.Serving.{serve}
use beauty_awg.Store.Granting.{serve_grants}
use beauty_awg.Picker.{toggle, Busy}
use beauty_awg.Picker.Chips.{toggle-granted}

phone_known :
    (includes (database.clients) phone_id && any (λ l. l.id == home_id) database.locations) ≡ true
unfolding includes any ◌==◌
phone_known = refl

phone_granted : has_row database.rows phone_id home_id ≡ true
unfolding any ◌==◌
phone_granted = refl

abbrev free : Busy
free = none

toggle-granted_example :
    ((d m : Text)
      → has_row (toggle (serve platform) phone home true (at_work free)).1.server.rows d m
        ≡ (if phone_id == d && home_id == m then false else has_row database.rows d m))
    × ((toggle (serve platform) phone home true (at_work free)).1.local ≡ none)
unfolding serve_grants
toggle-granted_example =
    toggle-granted (serve platform) (serve_grants platform (λ db. refl)) phone home true
      (at_work free) phone_known phone_granted
