-- ===== src/Store/Granting.antt =====
-- The backend is a store of grants, as the pages take it.
use beauty_awg.Base.{
  ℕ, ltb, ◌≡◌, refl, ap, ◌∙◌, Bool, true, false, ◌&&◌, ◌||◌, not, Option, none, some, List, [], ◌∷◌,
  arith, Text, ◌==◌, eq_iff, any, filter, any-append, Bool-cases, Option-cases, inl, inr,
}
use beauty_awg.Api.{Call, ok, Rule}
use beauty_awg.Api.Grants.{
  GrantStore, IsAside, reads_exit, reads_rules, writes_exit, writes_rules, writes_layout, links,
  unlinks,
}
use beauty_awg.Store.{
  Row, Database, Platform, Done, is_row, has_row, has_keys, set_grant, delete_grant,
  set_grant_rules_of, set_grant_exit_of, set_node_link, delete_node_link, set_exit_rows,
  set_rules_rows, rule_error, other_exit, is_hub_location, unless_error, insert_link, write_exit,
  turn_on, is_link,
}
use beauty_awg.Json.{Json}
use beauty_awg.Store.Serving.{serve, settled, write_layout}

pub has_row-eq :
    (rows : List Row) (c n d m : Text)
    → (c == d && n == m) ≡ true
    → has_row rows c n ≡ has_row rows d m
has_row-eq rows c n d m h = ground (
  arith,
  eq_iff c d,
  eq_iff n m,
  λ (p : c ≡ d) (q : n ≡ m). ap (λ t. has_row rows t n) p ∙ ap (has_row rows d) q,
)

pub has_row-delete :
    (rows : List Row) (c n d m : Text)
    → has_row (filter (λ r. not (is_row c n r)) rows) d m
      ≡ (has_row rows d m && not (c == d && n == m))
unfolding any filter
has_row-delete [] c n d m = refl
has_row-delete (r ∷ rs) c n d m = ground (
  arith,
  has_row-delete rs c n d m,
  eq_iff r.client c,
  eq_iff r.node n,
  eq_iff r.client d,
  eq_iff r.node m,
  eq_iff c d,
  eq_iff n m,
)

pub has_row-set_exit_rows :
    (rows : List Row) (c n d m : Text) (exit : Bool)
    → has_row (set_exit_rows c n exit rows) d m ≡ has_row rows d m
unfolding any set_exit_rows
has_row-set_exit_rows [] c n d m exit = refl
has_row-set_exit_rows (r ∷ rs) c n d m exit = ground (arith, has_row-set_exit_rows rs c n d m exit)

pub has_row-set_rules_rows :
    (rows : List Row) (c n d m : Text) (rules : List Rule)
    → has_row (set_rules_rows c n rules rows) d m ≡ has_row rows d m
unfolding any set_rules_rows
has_row-set_rules_rows [] c n d m rules = refl
has_row-set_rules_rows (r ∷ rs) c n d m rules =
    ground (arith, has_row-set_rules_rows rs c n d m rules)

module _ (X : Platform) where
  pub settled-db : (status : ℕ) (d : Done) → (settled X status d).1 ≡ d.1
  settled-db status (some e, db) = refl
  settled-db status (none, db) = elim (Option-cases (X.reconcile db)) [
    | inl h ↦ rw (settled, h) refl
    | inr (e, h) ↦ rw (settled, h) refl
  ]

  pub settled_up :
      (status : ℕ) (db : Database)
      → X.reconcile db ≡ none
      → settled X status (none, db) ≡ (ok tt, db)
  settled_up status db up = rw (settled, up) refl

  pub settled_ok :
      (status : ℕ) (d : Done) → X.reconcile d.1 ≡ none → d.0 ≡ none → (settled X status d).0 ≡ ok tt
  settled_ok status (none, db) up h = rw (settled, up) refl
  settled_ok status (some e, db) up h = cc

  -- What the operations keep: the devices and the locations, and for some the grants too.
  abbrev Same : Database → Database → Type 0
  Same a b =
      ((d m : Text) → has_row a.rows d m ≡ has_row b.rows d m)
      × ((d m : Text) → has_keys a d m ≡ has_keys b d m)

  pub set_grant-rows :
      (c n : Text) (db : Database)
      → has_keys db c n ≡ true
      → ((set_grant X c n db).0 ≡ none)
        × ((d m : Text)
            → has_row (set_grant X c n db).1.rows d m ≡ (has_row db.rows d m || c == d && n == m))
  unfolding set_grant any
  set_grant-rows c n db h = elim (Bool-cases (has_row db.rows c n)) [
    | inl old ↦ rw old (refl, λ d m. ground (arith, has_row-eq db.rows c n d m))
    | inr new ↦
        rw (new, h)
          (
            refl,
            λ d m. ground (
              arith,
              any-append (is_row d m) db.rows
                  (record { client = c; node = n; exit = false; rules = [] } ∷ []),
            ),
          )
  ]

  pub set_grant-keys :
      (c n d m : Text) (db : Database) → has_keys (set_grant X c n db).1 d m ≡ has_keys db d m
  unfolding set_grant
  set_grant-keys c n d m db = elim (Bool-cases (has_row db.rows c n)) [
    | inl old ↦ rw old refl
    | inr new ↦ elim (Bool-cases (has_keys db c n)) [
      | inl good ↦ rw (new, good) refl
      | inr bad ↦ rw (new, bad) refl
    ]
  ]

  set_grant_rules_of-Same :
      (c n : Text) (rules : List Rule) (db : Database)
      → Same (set_grant_rules_of X c n rules db).1 db
  unfolding set_grant_rules_of
  set_grant_rules_of-Same c n rules db = elim (Bool-cases (has_row db.rows c n)) [
    | inr absent ↦ rw absent (λ d m. refl, λ d m. refl)
    | inl held ↦ elim (Option-cases (rule_error X rules)) [
      | inl good ↦
          rw (held, good) (λ d m. has_row-set_rules_rows db.rows c n d m rules, λ d m. refl)
      | inr (e, bad) ↦ rw (held, bad) (λ d m. refl, λ d m. refl)
    ]
  ]

  write_exit-Same :
      (c n : Text) (exit : Bool) (db : Database) → Same (write_exit X c n exit db).1 db
  write_exit-Same c n exit db = (λ d m. has_row-set_exit_rows db.rows c n d m exit, λ d m. refl)

  turn_on-Same :
      (c n : Text) (db : Database) (other : Option Row) → Same (turn_on X c n db other).1 db
  unfolding turn_on
  turn_on-Same c n db none = write_exit-Same c n true db
  turn_on-Same c n db (some r) = (λ d m. refl, λ d m. refl)

  set_grant_exit_of-Same :
      (c n : Text) (exit : Bool) (db : Database) → Same (set_grant_exit_of X c n exit db).1 db
  unfolding set_grant_exit_of
  set_grant_exit_of-Same c n exit db = elim (Bool-cases (has_row db.rows c n)) [
    | inr absent ↦ rw absent (λ d m. refl, λ d m. refl)
    | inl held ↦ elim (Bool-cases (is_hub_location db.locations n)) [
      | inl hub ↦ rw (held, hub) (λ d m. refl, λ d m. refl)
      | inr spoke ↦ elim (Bool-cases exit) [
        | inl on ↦ rw (held, spoke, on) (turn_on-Same c n db (other_exit c n db.rows))
        | inr off ↦ rw (held, spoke, off) (write_exit-Same c n false db)
      ]
    ]
  ]

  unless_error-Same :
      (e : Option Text) (a b : Text) (db : Database) → Same (unless_error X e a b db).1 db
  unfolding unless_error insert_link
  unless_error-Same (some e) a b db = (λ d m. refl, λ d m. refl)
  unless_error-Same none a b db = elim (Bool-cases (any (is_link X a b) db.links)) [
    | inl old ↦ rw old (λ d m. refl, λ d m. refl)
    | inr new ↦ rw new (λ d m. refl, λ d m. refl)
  ]

  set_node_link-Same : (a b : Text) (db : Database) → Same (set_node_link X a b db).1 db
  unfolding set_node_link
  set_node_link-Same a b db = elim (Bool-cases (a == b)) [
    | inl self ↦ rw self (λ d m. refl, λ d m. refl)
    | inr apart ↦ rw apart (unless_error-Same _ a b db)
  ]

  served-Same :
      (status : ℕ) (d : Done) (db : Database) → Same d.1 db → Same (settled X status d).1 db
  served-Same status d db h = rw (settled-db status d) h

  write_layout-Same : (blob : Json) (db : Database) → Same (write_layout X blob db).1 db
  unfolding write_layout
  write_layout-Same blob db = elim (Bool-cases (ltb 1048576 (X.bytes blob))) [
    | inl long ↦ rw long (λ d m. refl, λ d m. refl)
    | inr short ↦ elim (Option-cases (X.layout_error blob db)) [
      | inl good ↦ rw (short, good) (λ d m. refl, λ d m. refl)
      | inr (e, bad) ↦ rw (short, bad) (λ d m. refl, λ d m. refl)
    ]
  ]

  pub serve-Same : {c : Call} → IsAside c → (db : Database) → Same (serve X c db).1 db
  unfolding serve delete_node_link
  serve-Same reads_exit db = (λ d m. refl, λ d m. refl)
  serve-Same reads_rules db = (λ d m. refl, λ d m. refl)
  serve-Same (writes_exit {c} {n} {exit}) db =
      served-Same 400 _ db (set_grant_exit_of-Same c n exit db)
  serve-Same (writes_rules {c} {n} {rules}) db =
      served-Same 400 _ db (set_grant_rules_of-Same c n rules db)
  serve-Same (links {a} {b}) db = served-Same 400 _ db (set_node_link-Same a b db)
  serve-Same (unlinks {a} {b}) db =
      served-Same 500 (delete_node_link X a b db) db (λ d m. refl, λ d m. refl)
  serve-Same (writes_layout {blob}) db = write_layout-Same blob db

  -- With a reconciliation that succeeds, the handlers are a store of grants: the rows of `grants`,
  -- where the foreign keys of the device and the location hold.
  unfoldable pub serve_grants : ((db : Database) → X.reconcile db ≡ none) → GrantStore (serve X)
  unfolding serve delete_grant
  serve_grants up = record {
    granted = λ db c n. has_row db.rows c n;
    known = has_keys;
    grant_ok = λ c n db k. settled_ok 500 (set_grant X c n db) (up _) (set_grant-rows c n db k).0;
    revoke_ok = λ c n db k. settled_ok 500 (delete_grant X c n db) (up _) refl;
    granted-grant = λ c n db k d m.
        ap (λ b. has_row b.rows d m) (settled-db 500 (set_grant X c n db))
        ∙ (set_grant-rows c n db k).1 d m;
    granted-revoke = λ c n db k d m.
        ap (λ b. has_row b.rows d m) (settled-db 500 (delete_grant X c n db))
        ∙ has_row-delete db.rows c n d m;
    known-grant = λ c n db d m.
        ap (λ b. has_keys b d m) (settled-db 500 (set_grant X c n db)) ∙ set_grant-keys c n d m db;
    known-revoke = λ c n db d m. ap (λ b. has_keys b d m) (settled-db 500 (delete_grant X c n db));
    granted-aside = λ call db h. (serve-Same h db).0;
    known-aside = λ call db h. (serve-Same h db).1;
  }
