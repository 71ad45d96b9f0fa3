-- ===== src/Rules/Tests.antt =====
-- Runs of the editor of limits.
use beauty_awg.Base.{
  ◌≡◌, ◌≢◌, refl, true, false, ◌&&◌, none, List, [], ◌∷◌, ◌++◌, Text, ◌==◌, any, filter, find,
  if◌then◌else◌,
}
use beauty_awg.Base.Sets.{includes}
use beauty_awg.Base.Strings.{trim, trim_start, trim_end, is_space}
use beauty_awg.Api.{set_grant_exit}
use beauty_awg.Api.Effects.{Event, failed, closed}
use beauty_awg.Samples.{platform, at_work, editor, phone_id, home_id, hub_id, database}
use beauty_awg.Store.{is_hub_location, other_exit, rule_error}
use beauty_awg.Store.Serving.{serve}
use beauty_awg.Store.Exit.{exits}
use beauty_awg.Rules.{add_rule, remove_rule, save, to_save, is_catch_all, has_catch_all, catch_all}
use beauty_awg.Rules.Saving.{apply_edits, IsCovered, to_save-apply_edits}
use beauty_awg.Rules.Storing.{CanSave, save_at_hub, save-stored}
use beauty_awg.Base.{inl}
use beauty_awg.Api.{Rule, any_proto}
use beauty_awg.Ui.{Offers}
use beauty_awg.Rules.{Editor, toggle_exit}
use beauty_awg.Rules.Window.{edit, rule_rows, rules_view}
use beauty_awg.Rules.Locked.{AreLocked, rules_view-locked}

-- An editor with a limit to one address and the switch off.
abbrev limited : Editor
limited = record editor {
  rules = record { dest = b'9' ∷ []; proto = any_proto; port_from = 0; port_to = 0 } ∷ [];
  exit = false;
}

no_catch_all : IsCovered limited
unfolding is_catch_all has_catch_all any catch_all trim trim_start trim_end is_space ◌==◌
no_catch_all h = h

to_save-apply_edits_example :
    (any is_catch_all
        (to_save (apply_edits (catch_all ∷ []) (remove_rule 7 ∷ add_rule ∷ add_rule ∷ []) limited))
      ≡ false)
    × IsCovered (apply_edits (catch_all ∷ []) (remove_rule 7 ∷ add_rule ∷ add_rule ∷ []) limited)
to_save-apply_edits_example =
    to_save-apply_edits (catch_all ∷ []) (remove_rule 7 ∷ add_rule ∷ add_rule ∷ []) limited
      (refl, (refl, (refl, tt))) no_catch_all

hub-is_hub : is_hub_location database.locations hub_id ≡ true
unfolding is_hub_location find ◌==◌
hub-is_hub = refl

save_at_hub_example :
    ((save (serve platform) (phone_id ∷ []) hub_id [] (at_work editor)).1.local.err ≢ [])
    × ((save (serve platform) (phone_id ∷ []) hub_id [] (at_work editor)).1.log
        ≡ failed (set_grant_exit phone_id hub_id true) ∷ [])
    × ((save (serve platform) (phone_id ∷ []) hub_id [] (at_work editor)).1.server ≡ database)
save_at_hub_example = save_at_hub platform phone_id [] hub_id [] (at_work editor) hub-is_hub

home-is_spoke : is_hub_location database.locations home_id ≡ false
unfolding is_hub_location find ◌==◌
home-is_spoke = refl

no_rules : rule_error platform (to_save editor) ≡ none
unfolding rule_error to_save filter
no_rules = refl

phone-CanSave : CanSave true home_id database.rows phone_id
unfolding any other_exit find ◌==◌
phone-CanSave = record { held = refl; only = λ h. refl }

save-stored_example :
    ((d m : Text)
      → exits (save (serve platform) (phone_id ∷ []) home_id [] (at_work editor)).1.server.rows d m
        ≡ (if includes (phone_id ∷ []) d && home_id == m then true else exits database.rows d m))
    × ((save (serve platform) (phone_id ∷ []) home_id [] (at_work editor)).1.local.err ≡ [])
    × (events : List Event) × ((save
          (serve platform)
          (phone_id ∷ [])
          home_id
          []
          (at_work editor)).1.log
        ≡ events ++ (closed ∷ []))
save-stored_example =
    save-stored platform (phone_id ∷ []) home_id [] (at_work editor) (λ db. refl) no_rules
      home-is_spoke (phone-CanSave, tt)

abbrev printer : Rule
printer = record { dest = b'1' ∷ []; proto = any_proto; port_from = 80; port_to = 0 }

abbrev switched : Editor
switched = record { rules = printer ∷ []; exit = true; err = []; busy = false; loaded = true }

toggle_offered : Offers (rules_view (b'P' ∷ []) (b'H' ∷ []) true switched) (edit toggle_exit)
unfolding rules_view
toggle_offered = inl refl

rules_view-locked_example :
    (toggle_exit ≡ toggle_exit) × AreLocked (rule_rows true 0 (printer ∷ []))
rules_view-locked_example =
    rules_view-locked (b'P' ∷ []) (b'H' ∷ []) true switched toggle_exit refl toggle_offered
