-- ===== src/Views/Setup.antt =====
-- web/app/components/ConfigModal.tsx: the setup file of a location.
use beauty_awg.Base.{
  ℕ, true, false, not, Option, List, [], ◌∷◌, ◌++◌, Text, codes, truthy, ◌==◌, if◌then◌else◌,
}
use beauty_awg.Errors.{human_error}
use beauty_awg.Api.{Result, ok, thrown}
use beauty_awg.Ui.{Item, title, hint, alert, prose, field, button, shown_if}
use beauty_awg.Views.Share.{Clipboard, is_copied, is_alive}

-- The three states, and the number of the current request, while the window is there.
pub record Setup : Type 0 where
  pub text : Text
  pub err : Text
  pub copied : Text
  pub request : Option ℕ

pub data SetupPress : Type 0 where
  save_file : SetupPress
  copy_file : SetupPress
  close : SetupPress

set_answer : Result Text → Setup → Setup
set_answer (ok t) s = record s { text = t }
set_answer (thrown e) s = record s { err = human_error e }

-- The answer to a request.
unfoldable pub take_answer : ℕ → Result Text → Setup → Setup
unfolding set_answer
take_answer n r s = if is_alive n s.request then set_answer r s else s

-- `copy`
unfoldable pub copy_setup : Clipboard → Text → Text → Setup → Setup
copy_setup b value label s = record s { copied = if is_copied b value then label else codes "fail" }

-- `download`: the file's name and its contents.
unfoldable pub setup_file : Text → Setup → Text × Text
setup_file filename s = (filename, s.text)

-- The part of the window for the file.
unfoldable pub file_view : Setup → List (Item SetupPress)
file_view s =
    if truthy s.text
    then field (codes "Setup file contents") s.text true
      ∷ button (codes "Download file") false save_file
      ∷ button (if s.copied == codes "conf" then codes "Copied" else codes "Copy text") false
          copy_file
      ∷ shown_if (s.copied == codes "fail")
          (hint (codes "Couldn’t copy automatically — select the text and copy it manually.") ∷ [])
    else shown_if (not (truthy s.err)) (prose (codes "Loading…") ∷ [])

-- `ConfigModal`
unfoldable pub setup_view : Text → Setup → List (Item SetupPress)
unfolding file_view
setup_view name s =
    title (codes "Setup file for " ++ name)
      ∷ prose (codes "Put this on the machine at that location.")
      ∷ shown_if (truthy s.err) (alert s.err ∷ [])
    ++ (prose (
            codes
              "If you installed that machine with the node installer, it updates itself and you "
            ++ (codes
                  "don’t need this. Use it only for a machine you set up by hand: save the file as "
                ++ codes "/etc/amnezia/amneziawg/awg0.conf, then run awg-quick up awg0."))
          ∷ file_view s
        ++ (button (codes "Close") false close ∷ []))
