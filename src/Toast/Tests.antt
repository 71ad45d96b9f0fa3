-- ===== src/Toast/Tests.antt =====
-- Runs of the toasts.
use beauty_awg.Base.{[], ◌∷◌}
use beauty_awg.Api.Effects.{info}
use beauty_awg.Toast.{start, toast, subscribe, expire}
use beauty_awg.Toast.Laws.{here, next, fires_toast, times_out, joins, IsValid, Reach-IsValid}

Reach-IsValid_example : IsValid (expire 1 (toast (b'x' ∷ []) info (subscribe 7 start)))
Reach-IsValid_example = Reach-IsValid (
    next (next (next here (joins start 7)) (fires_toast (subscribe 7 start) (b'x' ∷ []) info))
      (times_out (toast (b'x' ∷ []) info (subscribe 7 start)) 1))
