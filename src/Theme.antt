-- ===== src/Theme.antt =====
-- web/app/lib/theme.tsx: the stored theme choice, what it resolves to, and the boot script.
pub mod Laws
pub mod Toggle
mod Tests
use beauty_awg.Base.{
  Bool, true, false, ◌&&◌, ◌||◌, not, Option, none, some, Text, codes, ◌==◌, truthy, if◌then◌else◌,
}

pub data Choice : Type 0 where
  system light dark : Choice

pub data Resolved : Type 0 where
  light dark : Resolved

-- `localStorage.getItem(THEME_KEY)`: it throws where storage is blocked.
pub data Storage : Type 0 where
  blocked : Storage
  stored : Option Text → Storage

-- A browser, with its storage and whether the system prefers dark, or the prerender.
pub data Window : Type 0 where
  no_window : Window
  window : Storage → Bool → Window

choice_of : Option Text → Choice
choice_of none = Choice.system
choice_of (some v) =
    if v == codes "light"
    then Choice.light
    else if v == codes "dark"
    then Choice.dark
    else Choice.system

unfoldable pub read_stored : Window → Choice
unfolding choice_of
read_stored no_window = Choice.system
read_stored (window blocked prefers) = Choice.system
read_stored (window (stored v) prefers) = choice_of v

unfoldable pub system_prefers_dark : Window → Bool
system_prefers_dark no_window = true
system_prefers_dark (window s prefers) = prefers

-- `resolved`
unfoldable pub resolve : Choice → Bool → Resolved
resolve Choice.system prefers_dark = if prefers_dark then Resolved.dark else Resolved.light
resolve Choice.light prefers_dark = Resolved.light
resolve Choice.dark prefers_dark = Resolved.dark

-- The state of `ThemeProvider`.
pub record Provider : Type 0 where
  pub choice : Choice
  pub prefers_dark : Bool
  pub mounted : Bool

unfoldable pub provide : Window → Provider
provide w = record { choice = read_stored w; prefers_dark = system_prefers_dark w; mounted = false }

-- What the layout effect sets `data-theme` to.
unfoldable pub theme_of : Provider → Resolved
unfolding resolve
theme_of p = resolve p.choice p.prefers_dark

-- The media query's `change` event.
unfoldable pub on_change : Bool → Provider → Provider
on_change matches p = record p { prefers_dark = matches }

choice_name : Choice → Text
choice_name Choice.system = codes "system"
choice_name Choice.light = codes "light"
choice_name Choice.dark = codes "dark"

write_stored : Choice → Storage → Storage
write_stored c blocked = blocked
write_stored c (stored v) = stored (some (choice_name c))

-- `setChoice`: the state, and the attempt to store it.
unfoldable pub set_choice : Choice → Provider → Storage → Provider × Storage
unfolding write_stored choice_name
set_choice c p s = (record p { choice = c }, write_stored c s)

-- `!c||c==='system'`
asks_system : Option Text → Bool
asks_system none = true
asks_system (some v) = not (truthy v) || v == codes "system"

is_dark : Option Text → Bool
is_dark none = false
is_dark (some v) = v == codes "dark"

-- THEME_BOOT_SCRIPT: what it sets `data-theme` to, before the first paint.
unfoldable pub boot : Storage → Bool → Resolved
unfolding asks_system is_dark
boot blocked prefers_dark = Resolved.dark
boot (stored v) prefers_dark =
    if is_dark v || (asks_system v && prefers_dark) then Resolved.dark else Resolved.light
