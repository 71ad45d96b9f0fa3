-- ===== src/Modal/Tests.antt =====
-- Runs of the dialogs.
use beauty_awg.Base.{◌≡◌, refl, none, some, [], ◌∷◌, ◌++◌, arith, codes, any, inl}
use beauty_awg.Modal.{Page}
use beauty_awg.Modal.Overflow.{
  bare_page, open_dialog, close_dialog, run, quiet, around, run-Nested, run_outer_first,
}

abbrev settings_page : Page
settings_page = bare_page (codes "auto") (some 9)

run-Nested_example :
    run
      (open_dialog 1 [] (some 4)
        ∷ ((open_dialog 2 [] none ∷ ([] ++ (close_dialog 2 ∷ []))) ++ (close_dialog 1 ∷ [])))
      settings_page
    ≡ settings_page
unfolding any
run-Nested_example =
    run-Nested
      (around {stack = []} 1 [] (some 4) refl (around {stack = 1 ∷ []} 2 [] none refl quiet quiet)
        quiet)
      settings_page 9 refl (inl refl) refl

run_outer_first_example :
    (run
      (open_dialog 1 [] none ∷ open_dialog 2 [] none ∷ close_dialog 1 ∷ close_dialog 2 ∷ [])
      (bare_page (codes "auto") (some 9))).overflow
    ≡ codes "hidden"
run_outer_first_example = run_outer_first 1 2 [] [] none none (codes "auto") (some 9) (omega arith)
