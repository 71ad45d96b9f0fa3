-- ===== src/Views/Share/Loading.antt =====
-- SharePanel.tsx: the panel stops loading, and stays loaded.
use beauty_awg.Base.{
  ◌≡◌, ◌≢◌, refl, ℕ, true, false, some, List, [], ◌∷◌, arith, Text, All, truthy, eqb_iff,
}
use beauty_awg.Errors.{human_error}
use beauty_awg.Errors.Laws.{human_error-ne-nil}
use beauty_awg.Api.{Result, ok, thrown}
use beauty_awg.Views.Share.{
  Panel, Event, asks, leaves, conf_answers, vpn_answers, edits, views, copies, forgets, is_alive,
  on_event, run, is_loading,
}

-- An answer that says something: a configuration that is not empty, or a failure.
abbrev pub IsTelling : Result Text → Type 0
IsTelling (ok t) = truthy t ≡ true
IsTelling (thrown e) = Unit

-- The user does not delete the whole text, and no request is answered by an empty one.
abbrev pub IsKeeping : Event → Type 0
IsKeeping (edits t) = truthy t ≡ true
IsKeeping (conf_answers n r) = IsTelling r
IsKeeping (vpn_answers n r) = IsTelling r
IsKeeping e = Unit

truthy_of_ne_nil : (s : Text) → s ≢ [] → truthy s ≡ true
truthy_of_ne_nil [] h = absurd (h refl)
truthy_of_ne_nil (c ∷ s) h = refl

on_event-loaded :
    (e : Event) (p : Panel) → IsKeeping e → is_loading p ≡ false → is_loading (on_event e p) ≡ false
unfolding on_event is_loading
on_event-loaded (asks n) p k h = h
on_event-loaded leaves p k h = h
on_event-loaded (conf_answers n (ok t)) p k h = ground arith
on_event-loaded (conf_answers n (thrown e)) p k h =
    ground (arith, truthy_of_ne_nil (human_error e) (human_error-ne-nil e))
on_event-loaded (vpn_answers n (ok t)) p k h = ground arith
on_event-loaded (vpn_answers n (thrown e)) p k h = ground arith
on_event-loaded (edits t) p k h = ground arith
on_event-loaded (views v) p k h = h
on_event-loaded (copies b value label) p k h = h
on_event-loaded forgets p k h = h

run-loaded :
    (es : List Event) (p : Panel)
    → All IsKeeping es
    → is_loading p ≡ false
    → is_loading (run es p) ≡ false
unfolding run
run-loaded [] p k h = h
run-loaded (e ∷ es) p (k, ks) h = run-loaded es (on_event e p) ks (on_event-loaded e p k h)

answer-loaded :
    (n : ℕ) (r : Result Text) (p : Panel)
    → p.request ≡ some n
    → IsTelling r
    → is_loading (on_event (conf_answers n r) p) ≡ false
unfolding on_event is_loading
answer-loaded n (ok t) p asked telling = ground (arith, eqb_iff n n)
answer-loaded n (thrown e) p asked telling =
    ground (arith, eqb_iff n n, truthy_of_ne_nil (human_error e) (human_error-ne-nil e))

-- Loading ends: when the request for the configuration of the client that is shown is answered, by
-- a text or by a failure, and whatever happens after it, in any order, the panel is not loading, as
-- long as no text is emptied.
pub run-answered :
    (n : ℕ) (r : Result Text) (es : List Event) (p : Panel)
    → p.request ≡ some n
    → IsTelling r
    → All IsKeeping es
    → is_loading (run (conf_answers n r ∷ es) p) ≡ false
unfolding run
run-answered n r es p asked telling keeping =
    run-loaded es (on_event (conf_answers n r) p) keeping (answer-loaded n r p asked telling)

-- An answer to a request that is not the current one, or that comes when the panel is gone, changes
-- nothing.
late_answer :
    (n : ℕ) (r : Result Text) (p : Panel)
    → is_alive n p.request ≡ false
    → (on_event (conf_answers n r) p ≡ p) × (on_event (vpn_answers n r) p ≡ p)
unfolding on_event
late_answer n r p late = ground arith
