-- ===== src/Views/Link.antt =====
-- web/app/components/LinkModal.tsx: what the window of a link shows.
use beauty_awg.Base.{Bool, false, List, [], ◌∷◌, ◌++◌, Text, codes, if◌then◌else◌}
use beauty_awg.Ui.{Item, title, prose, button}

pub data LinkPress : Type 0 where
  stop_reverse : LinkPress
  start_reverse : LinkPress
  remove : LinkPress
  close : LinkPress

-- The window, from the names of the two ends and whether the opposite link exists.
unfoldable pub link_view : Text → Text → Bool → List (Item LinkPress)
link_view src dst has_reverse =
    title (codes "Link between two locations")
      ∷ prose (src ++ (codes " → " ++ dst))
      ∷ prose (
          codes "Everything on "
          ++ (src
              ++ (codes "’s network can open connections to everything on "
                  ++ (dst ++ codes "’s network — no app needed on the individual devices."))))
      ∷ (if has_reverse
          then prose (dst ++ codes " can start connections back the other way too.")
            ∷ button (codes "Stop " ++ (dst ++ (codes " starting connections to " ++ src))) false
                stop_reverse
            ∷ []
          else prose (dst ++ codes " can reply, but can't start a connection of its own.")
            ∷ button (codes "Also let " ++ (dst ++ (codes " start connections to " ++ src))) false
                start_reverse
            ∷ [])
    ++ (button (codes "Close") false close ∷ button (codes "Remove link") false remove ∷ [])
