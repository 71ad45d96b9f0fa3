-- ===== src/Views/Share.antt =====
-- web/app/components/SharePanel.tsx: the texts that it loads, what it shows of them, and copying.
pub mod Loading
use beauty_awg.Base.{
  ℕ, Bool, true, false, not, ◌&&◌, ◌||◌, Option, none, some, List, [], ◌∷◌, ◌++◌, Text, codes,
  truthy, ◌or_text◌, ◌==◌, eqb, if◌then◌else◌,
}
use beauty_awg.Errors.{human_error}
use beauty_awg.Api.{Result, ok, thrown}
use beauty_awg.Ui.{Item, hint, alert, prose, field, button, switch, shown_if}

-- What the browser does with a copy: whether the clipboard can be written there, whether it takes a
-- text, and whether the old command copies a selected text.
pub record Clipboard : Type 0 where
  pub secure : Bool
  pub write_text : Text → Bool
  pub exec_copy : Text → Bool

pub data View : Type 0 where
  qr conf link : View

-- The five states. `request` numbers the requests of the current client, while the panel is there.
pub record Panel : Type 0 where
  pub text : Text
  pub vpn : Text
  pub err : Text
  pub copied : Text
  pub view : View
  pub request : Option ℕ

pub data Press : Type 0 where
  to_view : View → Press
  copy_text : Text → Text → Press
  download : Press

-- `navigator.clipboard`, and the old way where it fails.
unfoldable pub is_copied : Clipboard → Text → Bool
is_copied b value = (b.secure && b.write_text value) || b.exec_copy value

-- `copy`
unfoldable pub copy : Clipboard → Text → Text → Panel → Panel
unfolding is_copied
copy b value label p = record p { copied = if is_copied b value then label else codes "fail" }

-- What can happen to the panel.
pub data Event : Type 0 where
  -- The client is shown, or another one.
  asks : ℕ → Event
  -- The panel is gone.
  leaves : Event
  -- The answers to the two requests.
  conf_answers : ℕ → Result Text → Event
  vpn_answers : ℕ → Result Text → Event
  edits : Text → Event
  views : View → Event
  copies : Clipboard → Text → Text → Event
  -- The timer of a copy, 1.8 seconds after it.
  forgets : Event

-- `alive`, for the effect that sent the request.
unfoldable pub is_alive : ℕ → Option ℕ → Bool
is_alive n none = false
is_alive n (some m) = eqb n m

take_conf : Result Text → Panel → Panel
take_conf (ok t) p = record p { text = t }
take_conf (thrown e) p = record p { err = human_error e }

take_vpn : Result Text → Panel → Panel
take_vpn (ok t) p = record p { vpn = t }
take_vpn (thrown e) p = p

unfoldable pub on_event : Event → Panel → Panel
unfolding is_alive take_conf take_vpn copy
on_event (asks n) p = record p { request = some n }
on_event leaves p = record p { request = none }
on_event (conf_answers n r) p = if is_alive n p.request then take_conf r p else p
on_event (vpn_answers n r) p = if is_alive n p.request then take_vpn r p else p
on_event (edits t) p = record p { text = t }
on_event (views v) p = record p { view = v }
on_event (copies b value label) p = copy b value label p
on_event forgets p = record p { copied = [] }

unfoldable pub run : List Event → Panel → Panel
unfolding on_event
run [] p = p
run (e ∷ es) p = run es (on_event e p)

-- `loading`
unfoldable pub is_loading : Panel → Bool
is_loading p = not (truthy p.text) && not (truthy p.vpn) && not (truthy p.err)

abbrev copied_or : Panel → Text → Text → Text
copied_or p label name = if p.copied == label then codes "Copied" else name

-- What each view shows, once something is loaded.
unfoldable pub block : Panel → View → List (Item Press)
block p qr = shown_if (truthy (p.vpn or_text p.text)) (
    prose (p.vpn or_text p.text)
    ∷ hint
        (codes "Open the AmneziaVPN app on the device, choose to add a connection, and scan this.")
    ∷ [])
block p link =
    hint (
      codes "Send this to the device however you like. Opening it on a phone with AmneziaVPN "
      ++ codes "installed adds the connection automatically.")
    ∷ field (codes "Connection link") (p.vpn or_text p.text) true
    ∷ button (copied_or p (codes "link") (codes "Copy link"))
        (not (truthy p.vpn) && not (truthy p.text))
        (copy_text (p.vpn or_text p.text) (codes "link"))
    ∷ []
block p conf =
    hint (
      codes "For apps that want a file. You can edit it here before copying — changes are not "
      ++ codes "saved on the server.")
    ∷ field (codes "Configuration file contents") p.text false
    ∷ button (copied_or p (codes "conf") (codes "Copy text")) false
        (copy_text p.text (codes "conf"))
    ∷ button (codes "Download file") false download
    ∷ []

-- `view === …`
is_view : View → View → Bool
is_view qr qr = true
is_view link link = true
is_view conf conf = true
is_view a b = false

-- `SharePanel`
unfoldable pub share_view : Panel → List (Item Press)
unfolding block is_loading is_view
share_view p =
    shown_if (truthy p.err) (alert p.err ∷ [])
    ++ (switch (codes "Scan a code") (is_view p.view qr) (to_view qr)
          ∷ switch (codes "Copy a link") (is_view p.view link) (to_view link)
          ∷ switch (codes "Config file") (is_view p.view conf) (to_view conf)
          ∷ (if is_loading p then prose (codes "Preparing the config…") ∷ [] else block p p.view)
        ++ shown_if (p.copied == codes "fail") (
            hint (codes "Couldn’t copy automatically — select the text and copy it manually.")
            ∷ []))

-- `download`: the file's name and its contents.
unfoldable pub download_file : Text → Panel → Text × Text
download_file client p = (client ++ codes ".conf", p.text)

-- The states at the mount, before the effect.
unfoldable pub mounted : Panel
mounted = record { text = []; vpn = []; err = []; copied = []; view = qr; request = none }
