-- ===== src/Dashboard/Forms.antt =====
-- The small forms of web/app: sign-in, a new location, a location's settings, names; and the check
-- that a request has a session.
use beauty_awg.Base.{
  Bool, true, false, ◌&&◌, ◌||◌, not, Option, none, some, List, [], ◌∷◌, ◌++◌, Text, codes, ◌==◌,
  any, filter, map, if◌then◌else◌,
}
use beauty_awg.Base.Strings.{trim, truthy, ◌or_text◌}
use beauty_awg.Errors.{Thrown, human_error}
use beauty_awg.Api.{Panel, VpnNode, login, create_node, update_node, Call}
use beauty_awg.Api.Effects.{M, ◌>>=◌, ◌>>◌, modify, call, note, attempt, closed, moved_to, reloaded}
use beauty_awg.Graph.{split_at}

-- A form: whether it is busy, and the message it shows.
pub record Form : Type 0 where
  pub busy : Bool
  pub err : Text

-- `text.split(",").map((s) => s.trim()).filter(Boolean)`
unfoldable pub split_list : Text → List Text
split_list text = filter truthy (map trim (split_at b',' text))

-- `xs.join(",")`
unfoldable pub join_commas : List Text → Text
join_commas [] = []
join_commas (x ∷ []) = x
join_commas (x ∷ y ∷ ys) = x ++ b',' ∷ join_commas (y ∷ ys)

module _ {S : Type 0} (P : Panel S) where
  failed_form : Thrown → M S Form (Unit {0})
  failed_form e = modify (λ f. record f { err = human_error e })

  -- `submit` of login/page.tsx.
  unfoldable pub submit : Text → Text → M S Form (Unit {0})
  unfolding failed_form
  submit username password = do
    modify (λ f. record f { err = []; busy = true })
    attempt (do call P (login username password); note (moved_to (codes "/"))) failed_form
    modify (λ f. record f { busy = false })

  -- `save` of AddLocationModal.tsx.
  unfoldable pub add_location : Text → Text → Text → M S Form (Unit {0})
  unfolding failed_form split_list
  add_location name iface subnets = do
    modify (λ f. record f { err = []; busy = true })
    attempt
        (do
          created ←
              call P
                (create_node (trim name) (trim iface or_text codes "eth0") (split_list subnets))
          note reloaded
          note closed)
        failed_form
    modify (λ f. record f { busy = false })

-- `ready` of AddLocationModal.tsx.
unfoldable pub can_add_location : Text → Text → Bool
can_add_location name subnets = truthy (trim name) && truthy (trim subnets)

-- `save` of LocationSettings.tsx: the call that it hands on, if a value changed.
unfoldable pub save_settings : VpnNode → Text → Text → Option Call
unfolding split_list join_commas
save_settings node dns domains =
    if dns == node.dns && join_commas (split_list domains) == join_commas node.domains
    then none
    else some (update_node node.id dns (split_list domains))

-- `save` of RenameModal.tsx: the name that is handed on; the dialog closes in either case.
unfoldable pub rename_to : Text → Text → Option Text
rename_to current name =
    if not (truthy (trim name)) || trim name == current then none else some (trim name)

-- `saveName` of ClientDetails.tsx and GroupModal.tsx: the name that is handed on, and the field's
-- text after it.
unfoldable pub save_name : Text → Text → Option Text × Text
save_name current name =
    if truthy (trim name) && not (trim name == current)
    then (some (trim name), name)
    else (none, current)

-- web/middleware.ts: the path that a request is sent to instead, if it has no session's cookie.
unfoldable pub middleware : List Text → Option Text
middleware cookies =
    if any (λ c. c == codes "awg_session") cookies then none else some (codes "/login")
