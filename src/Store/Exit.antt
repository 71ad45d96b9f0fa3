-- ===== src/Store/Exit.antt =====
-- One exit for a device: the default route of the store's grants.
use beauty_awg.Base.{
  ◌≡◌, refl, ap, Bool, true, false, ◌&&◌, Option, none, some, List, [], ◌∷◌, arith, Text, ◌==◌,
  eq_iff, any, filter, find, any-append, Bool-cases, Option-cases, inl, inr, if◌then◌else◌,
}
use beauty_awg.Api.{Rule}
use beauty_awg.Store.{
  Row, Database, Platform, is_row, has_row, has_keys, set_grant, delete_grant, set_grant_rules_of,
  set_grant_exit_of, set_exit_rows, set_rules_rows, rule_error, other_exit, is_hub_location,
  write_exit, turn_on,
}

-- The device sends its traffic out through the location.
abbrev pub exits : List Row → Text → Text → Bool
exits rows c n = any (λ r. is_row c n r && r.exit) rows

-- No device has two exits.
abbrev pub HasOneExit : Database → Type 0
HasOneExit db = (c n m : Text) → exits db.rows c n ≡ true → exits db.rows c m ≡ true → n ≡ m

pub exits-set_exit_rows :
    (rows : List Row) (c n d m : Text) (exit : Bool)
    → exits (set_exit_rows c n exit rows) d m
      ≡ (if c == d && n == m then exit && has_row rows d m else exits rows d m)
unfolding any set_exit_rows
exits-set_exit_rows [] c n d m exit = ground arith
exits-set_exit_rows (r ∷ rs) c n d m exit = ground (
  arith,
  exits-set_exit_rows rs c n d m exit,
  eq_iff r.client c,
  eq_iff r.node n,
  eq_iff r.client d,
  eq_iff r.node m,
  eq_iff c d,
  eq_iff n m,
)

other_exit-none :
    (rows : List Row) (c n m : Text) → other_exit c n rows ≡ none → exits rows c m ≡ true → m ≡ n
unfolding other_exit find any
other_exit-none [] c n m h k = cc
other_exit-none (r ∷ rs) c n m h k =
    ground (arith, other_exit-none rs c n m, eq_iff r.node n, eq_iff r.node m, eq_iff r.client c)

pub exits-set_rules_rows :
    (rows : List Row) (c n d m : Text) (rules : List Rule)
    → exits (set_rules_rows c n rules rows) d m ≡ exits rows d m
unfolding any set_rules_rows
exits-set_rules_rows [] c n d m rules = refl
exits-set_rules_rows (r ∷ rs) c n d m rules = ground (arith, exits-set_rules_rows rs c n d m rules)

exits-filter :
    (rows : List Row) (p : Row → Bool) (d m : Text)
    → exits (filter p rows) d m ≡ true
    → exits rows d m ≡ true
unfolding any filter
exits-filter [] p d m h = h
exits-filter (r ∷ rs) p d m h = ground (arith, exits-filter rs p d m)

module _ (X : Platform) where
  write_exit-off :
      (c n : Text) (db : Database) → HasOneExit db → HasOneExit (write_exit X c n false db).1
  write_exit-off c n db h d m k p q = ground (
    arith,
    exits-set_exit_rows db.rows c n d m false,
    exits-set_exit_rows db.rows c n d k false,
    h d m k,
  )

  turn_on-HasOneExit :
      (c n : Text) (db : Database) (o : Option Row)
      → other_exit c n db.rows ≡ o
      → HasOneExit db
      → HasOneExit (turn_on X c n db o).1
  unfolding turn_on
  turn_on-HasOneExit c n db (some r) e h = h
  turn_on-HasOneExit c n db none e h = λ d m k p q. ground (
    arith,
    exits-set_exit_rows db.rows c n d m true,
    exits-set_exit_rows db.rows c n d k true,
    other_exit-none db.rows c n m e,
    other_exit-none db.rows c n k e,
    h d m k,
    eq_iff c d,
    eq_iff n m,
    eq_iff n k,
    λ (p : c ≡ d). ap (λ t. exits db.rows t m) p,
    λ (p : c ≡ d). ap (λ t. exits db.rows t k) p,
  )

  module _ (c n : Text) (db : Database) (h : HasOneExit db) where
    set_grant-HasOneExit : HasOneExit (set_grant X c n db).1
    unfolding set_grant any
    set_grant-HasOneExit = elim (Bool-cases (has_row db.rows c n)) [
      | inl old ↦ rw old h
      | inr new ↦ elim (Bool-cases (has_keys db c n)) [
        | inr bad ↦ rw (new, bad) h
        | inl good ↦
            rw (new, good)
              (λ d m k p q. ground (
                arith,
                any-append (λ r. is_row d m r && r.exit) db.rows
                    (record { client = c; node = n; exit = false; rules = [] } ∷ []),
                any-append (λ r. is_row d k r && r.exit) db.rows
                    (record { client = c; node = n; exit = false; rules = [] } ∷ []),
                h d m k,
              ))
      ]
    ]

    delete_grant-HasOneExit : HasOneExit (delete_grant X c n db).1
    unfolding delete_grant
    delete_grant-HasOneExit d m k p q =
        h d m k (exits-filter db.rows _ d m p) (exits-filter db.rows _ d k q)

    set_grant_rules_of-HasOneExit :
        (rules : List Rule) → HasOneExit (set_grant_rules_of X c n rules db).1
    unfolding set_grant_rules_of
    set_grant_rules_of-HasOneExit rules = elim (Bool-cases (has_row db.rows c n)) [
      | inr absent ↦ rw absent h
      | inl held ↦ elim (Option-cases (rule_error X rules)) [
        | inr (e, bad) ↦ rw (held, bad) h
        | inl good ↦
            rw (held, good)
              (λ d m k p q. ground (
                arith,
                exits-set_rules_rows db.rows c n d m rules,
                exits-set_rules_rows db.rows c n d k rules,
                h d m k,
              ))
      ]
    ]

    set_grant_exit_of-HasOneExit : (exit : Bool) → HasOneExit (set_grant_exit_of X c n exit db).1
    unfolding set_grant_exit_of
    set_grant_exit_of-HasOneExit exit = elim (Bool-cases (has_row db.rows c n)) [
      | inr absent ↦ rw absent h
      | inl held ↦ elim (Bool-cases (is_hub_location db.locations n)) [
        | inl hub ↦ rw (held, hub) h
        | inr spoke ↦ elim (Bool-cases exit) [
          | inl on ↦
              rw (held, spoke, on) (turn_on-HasOneExit c n db (other_exit c n db.rows) refl h)
          | inr off ↦ rw (held, spoke, off) (write_exit-off c n db h)
        ]
      ]
    ]

  -- The store never comes to route a device's traffic out through two locations: granting,
  -- revoking, setting limits and setting an exit each keep it at most one, refused or not.
  pub HasOneExit-kept :
      (c n : Text) (exit : Bool) (rules : List Rule) (db : Database)
      → HasOneExit db
      → HasOneExit (set_grant X c n db).1
        × HasOneExit (delete_grant X c n db).1
        × HasOneExit (set_grant_rules_of X c n rules db).1
        × HasOneExit (set_grant_exit_of X c n exit db).1
  HasOneExit-kept c n exit rules db h = (
    set_grant-HasOneExit c n db h,
    delete_grant-HasOneExit c n db h,
    set_grant_rules_of-HasOneExit c n db h rules,
    set_grant_exit_of-HasOneExit c n db h exit,
  )

  -- A grant that is held takes an exit that the checks let through.
  pub set_grant_exit_of_held :
      (c n : Text) (exit : Bool) (db : Database)
      → has_row db.rows c n ≡ true
      → is_hub_location db.locations n ≡ false
      → (exit ≡ true → other_exit c n db.rows ≡ none)
      → set_grant_exit_of X c n exit db
        ≡ (none, record db { rows = set_exit_rows c n exit db.rows })
  unfolding set_grant_exit_of turn_on
  set_grant_exit_of_held c n exit db held spoke only = elim (Bool-cases exit) [
    | inl on ↦ rw (held, spoke, on, only on) refl
    | inr off ↦ rw (held, spoke, off) refl
  ]
