-- ===== src/Theme/Tests.antt =====
-- Runs of the theme.
use beauty_awg.Base.{◌≡◌, refl, ◌↔◌, true, false, not, ◌&&◌, none}
use beauty_awg.Theme.{Choice, Provider, stored, window, provide, read_stored, theme_of, boot}
use beauty_awg.Theme.Toggle.{is_choice, pick, pick-read_stored}
use beauty_awg.Theme.Laws.{Agrees, boot-provide_iff}

boot-provide_iff_example :
    (boot (stored none) true ≡ theme_of (provide (window (stored none) true)))
    ↔ Agrees (stored none) true
boot-provide_iff_example = boot-provide_iff (stored none) true

-- A first visit, where nothing is stored.
abbrev visitor : Provider
visitor = record { choice = Choice.system; prefers_dark = true; mounted = true }

visitor_current : read_stored (window (stored none) true) ≡ visitor.choice
unfolding read_stored
visitor_current = refl

pick-read_stored_example :
    let (q, reveals) = pick false true Choice.light visitor (stored none) in
    (q.0.choice ≡ Choice.light)
    × (read_stored (window q.1 true) ≡ Choice.light)
    × (reveals ≡ (not (is_choice Choice.light visitor.choice) && (not false && true)))
pick-read_stored_example =
    pick-read_stored false true Choice.light visitor none true visitor_current
