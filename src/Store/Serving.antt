-- ===== src/Store/Serving.antt =====
-- internal/api/handlers.go: the handlers of the grants and the links, as a backend for the pages.
use beauty_awg.Base.{
  ℕ, ltb, if◌then◌else◌, Bool, Option, none, some, List, [], ◌∷◌, ◌++◌, Text, codes, find,
}
use beauty_awg.Json.{Json}
use beauty_awg.Errors.{api_error}
use beauty_awg.Api.{
  Panel, Result, ok, thrown, Rule, grant, revoke, link_nodes, unlink_nodes, list_node_links,
  get_grant_rules, set_grant_rules, get_grant_exit, set_grant_exit, get_layout, set_layout,
}
use beauty_awg.Store.{
  Row, Database, Platform, Done, is_row, set_grant, delete_grant, set_grant_rules_of,
  set_grant_exit_of, set_node_link, delete_node_link,
}

-- `http.Error(w, text, status)`, as `req` throws it.
abbrev pub refuse : {A : Type 0} → ℕ → Text → Result A
refuse status text = thrown (api_error status (text ++ (10 ∷ [])))

module _ (X : Platform) where
  -- The end of a handler that writes: what was stored stays when the reconciliation fails.
  abbrev pub settled : ℕ → Done → Result (Unit {0}) × Database
  settled status (some e, db) = (refuse status e, db)
  settled status (none, db) = elim (X.reconcile db) [
    | none ↦ (ok tt, db)
    | some e ↦ (refuse 500 (codes "reconcile: " ++ e), db)
  ]

  rules_of : Option Row → List Rule
  rules_of none = []
  rules_of (some r) = X.by_dest r.rules

  exit_of : Option Row → Result Bool
  exit_of none = refuse 404 (codes "grant does not exist")
  exit_of (some r) = ok r.exit

  -- The answer of `SetGraphLayout`.
  abbrev pub stored_layout : Option Text → Json → Database → Result (Unit {0}) × Database
  stored_layout (some e) blob db = (refuse 500 e, db)
  stored_layout none blob db = (ok tt, record db { layout = X.jsonb blob })

  -- `handleSetLayout`: the body is read up to its limit, and a blob that is cut short is not valid.
  unfoldable pub write_layout : Json → Database → Result (Unit {0}) × Database
  write_layout blob db =
      if ltb 1048576 (X.bytes blob)
      then (refuse 400 (codes "invalid json"), db)
      else stored_layout (X.layout_error blob db) blob db

  unfoldable pub serve : Panel Database
  unfolding rules_of exit_of
  serve (grant c n) db = settled 500 (set_grant X c n db)
  serve (revoke c n) db = settled 500 (delete_grant X c n db)
  serve (link_nodes a b) db = settled 400 (set_node_link X a b db)
  serve (unlink_nodes a b) db = settled 500 (delete_node_link X a b db)
  serve list_node_links db = (ok db.links, db)
  serve (get_grant_rules c n) db = (ok (rules_of (find (is_row c n) db.rows)), db)
  serve (set_grant_rules c n rules) db = settled 400 (set_grant_rules_of X c n rules db)
  serve (get_grant_exit c n) db = (exit_of (find (is_row c n) db.rows), db)
  serve (set_grant_exit c n exit) db = settled 400 (set_grant_exit_of X c n exit db)
  serve get_layout db = (ok db.layout, db)
  serve (set_layout blob) db = write_layout blob db
  serve call db = X.others call db
