-- ===== src/Rules/Storing.antt =====
-- A save of RulesModal.tsx, carried out by the store.
use beauty_awg.Base.{
  ◌≡◌, refl, ap, ◌∙◌, ◌≢◌, Bool, true, false, ◌&&◌, none, some, List, [], ◌∷◌, ◌++◌, arith, Text,
  All, ◌==◌, find, if◌then◌else◌, Bool-cases, inl, inr, codes,
}
use beauty_awg.Base.Sets.{includes}
use beauty_awg.Errors.{Thrown, human_error}
use beauty_awg.Errors.Laws.{human_error-ne-nil}
use beauty_awg.Api.{Result, ok, Rule, set_grant_exit}
use beauty_awg.Api.Effects.{
  ◌>>◌, toasted, warn, Event, World, M, bind, for_each, note, announce, closed, catch_result,
  failed, modify,
}
use beauty_awg.Store.{
  Row, Database, Platform, has_row, is_hub_location, set_exit_rows, set_rules_rows, other_exit,
  set_grant_exit_of, set_grant_rules_of, rule_error,
}
use beauty_awg.Store.Serving.{serve}
use beauty_awg.Store.Exit.{exits, set_grant_exit_of_held, exits-set_exit_rows, exits-set_rules_rows}
use beauty_awg.Store.Granting.{
  has_row-set_exit_rows, has_row-set_rules_rows, has_row-eq, settled_up,
}
use beauty_awg.Rules.{Editor, to_save, save, save_for}

other_exit-set_exit_rows :
    (rows : List Row) (c n d : Text) (exit : Bool)
    → other_exit d n rows ≡ none
    → other_exit d n (set_exit_rows c n exit rows) ≡ none
unfolding other_exit find set_exit_rows
other_exit-set_exit_rows [] c n d exit h = refl
other_exit-set_exit_rows (r ∷ rs) c n d exit h =
    ground (arith, other_exit-set_exit_rows rs c n d exit)

other_exit-set_rules_rows :
    (rows : List Row) (c n d : Text) (rules : List Rule)
    → other_exit d n rows ≡ none
    → other_exit d n (set_rules_rows c n rules rows) ≡ none
unfolding other_exit find set_rules_rows
other_exit-set_rules_rows [] c n d rules h = refl
other_exit-set_rules_rows (r ∷ rs) c n d rules h =
    ground (arith, other_exit-set_rules_rows rs c n d rules)

bind_ok_here :
    {S L A B : Type 0} {a : A} (r : Result A × World S L) (f : A → M S L B)
    → r.0 ≡ ok a
    → bind r f ≡ f a r.1
bind_ok_here r f h = rw h refl

-- The device has the grant, and no other exit if one is to be turned on.
pub record CanSave (exit : Bool) (node : Text) (rows : List Row) (id : Text) : Type 0 where
  pub held : has_row rows id node ≡ true
  pub only : exit ≡ true → other_exit id node rows ≡ none

module _ (X : Platform) where
  hub_error :
      (c n : Text) (exit : Bool) (db : Database)
      → is_hub_location db.locations n ≡ true
      → (e : Text) × (set_grant_exit_of X c n exit db ≡ (some e, db))
  unfolding set_grant_exit_of
  hub_error c n exit db hub = elim (Bool-cases (has_row db.rows c n)) [
    | inl held ↦
        (codes "the internet-exit hub node is already a full-tunnel exit", rw (held, hub) refl)
    | inr absent ↦ (codes "grant does not exist", rw absent refl)
  ]

  -- At the internet's location a save can never succeed: the store refuses to set an exit there, so
  -- the editor stays open with a message, and nothing is stored.
  pub save_at_hub :
      (c : Text) (cs : List Text) (node who : Text) (w : World Database Editor)
      → is_hub_location w.server.locations node ≡ true
      → ((save (serve X) (c ∷ cs) node who w).1.local.err ≢ [])
        × ((save (serve X) (c ∷ cs) node who w).1.log
            ≡ w.log ++ (failed (set_grant_exit c node w.local.exit) ∷ []))
        × ((save (serve X) (c ∷ cs) node who w).1.server ≡ w.server)
  unfolding save save_for serve for_each
  save_at_hub c cs node who w hub =
      let (e, refused) = hub_error c node w.local.exit w.server hub in
      rw refused (human_error-ne-nil _, refl, refl)

  module _ (node : Text) (e : Editor) (up : (db : Database) → X.reconcile db ≡ none)
      (good : rule_error X (to_save e) ≡ none) where
    abbrev saved_rows : Text → List Row → List Row
    saved_rows id rows = set_rules_rows id node (to_save e) (set_exit_rows id node e.exit rows)

    rules_written :
        (id : Text) (db : Database)
        → has_row db.rows id node ≡ true
        → set_grant_rules_of X id node (to_save e) db
          ≡ (none, record db { rows = set_rules_rows id node (to_save e) db.rows })
    unfolding set_grant_rules_of
    rules_written id db held = rw (held, good) refl

    save_for-stored :
        (ids : List Text) (id : Text) (w : World Database Editor)
        → is_hub_location w.server.locations node ≡ false
        → CanSave e.exit node w.server.rows id
        → ((save_for (serve X) ids node e id w).0 ≡ ok tt)
          × ((save_for (serve X) ids node e id w).1.server
              ≡ record w.server { rows = saved_rows id w.server.rows })
          × ((save_for (serve X) ids node e id w).1.local ≡ w.local)
    unfolding save_for serve
    save_for-stored ids id w spoke can =
        let mid : Database = record w.server {
          rows = set_exit_rows id node e.exit w.server.rows;
        } in
        let held : has_row mid.rows id node ≡ true =
          has_row-set_exit_rows w.server.rows id node id node e.exit ∙ can.held in
        let done_db : Database = record w.server { rows = saved_rows id w.server.rows } in
        rw
          (
            set_grant_exit_of_held X id node e.exit w.server can.held spoke can.only,
            settled_up X 400 mid (up mid),
          )
          (rw (rules_written id mid held, settled_up X 400 done_db (up done_db)) (refl, refl, refl))

    exits-saved_rows :
        (rows : List Row) (id d m : Text)
        → has_row rows id node ≡ true
        → exits (saved_rows id rows) d m ≡ (if id == d && node == m then e.exit else exits rows d m)
    exits-saved_rows rows id d m held =
        exits-set_rules_rows (set_exit_rows id node e.exit rows) id node d m (to_save e)
        ∙ (exits-set_exit_rows rows id node d m e.exit
            ∙ ground (arith, has_row-eq rows id node d m))

    CanSave-saved_rows :
        (rows : List Row) (id d : Text)
        → CanSave e.exit node rows d
        → CanSave e.exit node (saved_rows id rows) d
    CanSave-saved_rows rows id d can = record {
      held =
          has_row-set_rules_rows (set_exit_rows id node e.exit rows) id node d node (to_save e)
          ∙ (has_row-set_exit_rows rows id node d node e.exit ∙ can.held);
      only = λ on.
          other_exit-set_rules_rows (set_exit_rows id node e.exit rows) id node d (to_save e)
            (other_exit-set_exit_rows rows id node d e.exit (can.only on));
    }

    All-CanSave :
        (rows : List Row) (id : Text) (ids : List Text)
        → All (CanSave e.exit node rows) ids
        → All (CanSave e.exit node (saved_rows id rows)) ids
    All-CanSave rows id [] h = tt
    All-CanSave rows id (x ∷ xs) (c, h) = (CanSave-saved_rows rows id x c, All-CanSave rows id xs h)

    save_all-stored :
        (all ids : List Text) (w : World Database Editor)
        → is_hub_location w.server.locations node ≡ false
        → All (CanSave e.exit node w.server.rows) ids
        → ((for_each ids (save_for (serve X) all node e) w).0 ≡ ok tt)
          × ((d m : Text)
              → exits (for_each ids (save_for (serve X) all node e) w).1.server.rows d m
                ≡ (if includes ids d && node == m then e.exit else exits w.server.rows d m))
          × ((for_each ids (save_for (serve X) all node e) w).1.local ≡ w.local)
    unfolding for_each includes
    save_all-stored all [] w spoke h = (refl, λ d m. refl, refl)
    save_all-stored all (x ∷ xs) w spoke (c, h) =
        let (good, stored, kept) = save_for-stored all x w spoke c in
        let next = (save_for (serve X) all node e x w).1 in
        let (done, held, same) =
          save_all-stored all xs next (rw stored spoke)
            (rw stored (All-CanSave w.server.rows x xs h)) in
        let chained =
          bind_ok_here (save_for (serve X) all node e x w)
            (λ a. for_each xs (save_for (serve X) all node e)) good in
        (
          ap (λ v. v.0) chained ∙ done,
          λ d m.
              ap (λ v. exits v.1.server.rows d m) chained
              ∙ (held d m
                  ∙ ground (
                    arith,
                    ap (λ s. exits s.rows d m) stored,
                    exits-saved_rows w.server.rows x d m c.held,
                  )),
          ap (λ v. v.1.local) chained ∙ (same ∙ kept),
        )

  -- Saving for a device, or for each member of a group, at a location that is not the internet's
  -- leaves exactly these devices with the exit that the switch shows, and no other exit changed;
  -- the editor closes without a message. This holds when each device has the grant, and no other
  -- exit if one is turned on, the limits are valid and the tunnels take the change.
  pub save-stored :
      (ids : List Text) (node who : Text) (w : World Database Editor)
      → ((db : Database) → X.reconcile db ≡ none)
      → rule_error X (to_save w.local) ≡ none
      → is_hub_location w.server.locations node ≡ false
      → All (CanSave w.local.exit node w.server.rows) ids
      → ((d m : Text)
          → exits (save (serve X) ids node who w).1.server.rows d m
            ≡ (if includes ids d && node == m then w.local.exit else exits w.server.rows d m))
        × ((save (serve X) ids node who w).1.local.err ≡ [])
        × (events : List Event) × ((save (serve X) ids node who w).1.log ≡ events ++ (closed ∷ []))
  unfolding save to_save
  save-stored ids node who w up good spoke can =
      let e : Editor = record w.local { busy = true; err = [] } in
      let start : World Database Editor = record w { local = e } in
      let (done, held, same) = save_all-stored node e up good ids ids start spoke can in
      let saved : Result (Unit {0}) × World Database Editor =
        for_each ids (save_for (serve X) ids node e) start in
      let say : Unit {0} → M Database Editor (Unit {0}) = λ a. announce who >> note closed in
      let fail : Thrown → M Database Editor (Unit {0}) =
        λ t. modify (λ s. record s { err = human_error t }) in
      let free : Unit {0} → M Database Editor (Unit {0}) =
        λ a. modify (λ s. record s { busy = false }) in
      let path = ap (λ v. bind (catch_result v fail) free) (bind_ok_here saved say done) in
      (
        λ d m. ap (λ v. exits v.1.server.rows d m) path ∙ held d m,
        ap (λ v. v.1.local.err) path ∙ ap (λ l. l.err) same,
        saved.1.log ++ (toasted (who ++ codes ": config changed — re-share it") warn ∷ []),
        ap (λ v. v.1.log) path,
      )
