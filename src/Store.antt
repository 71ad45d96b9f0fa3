-- ===== src/Store.antt =====
-- internal/store and internal/api of the backend: the grants, their exits and limits, and the
-- links between locations, as the handlers serve them. The tables are lists of rows; what
-- Postgres, `netip` and the reconciliation of the tunnels answer are parameters.
pub mod Serving
pub mod Granting
pub mod Linking
pub mod Exit
mod Tests
use beauty_awg.Base.{
  ℕ, suc, Bool, true, false, ◌&&◌, ◌||◌, not, Option, none, some, List, [], ◌∷◌, ◌++◌, Text, codes,
  ◌==◌, eqb, leb, find, filter, any, all, map, if◌then◌else◌,
}
use beauty_awg.Base.Sets
use beauty_awg.Json.{Json}
use beauty_awg.Errors.{Thrown, api_error}
use beauty_awg.Api.{
  Call, Answer, Panel, Result, ok, thrown, Rule, NodeLink, grant, revoke, link_nodes, unlink_nodes,
  list_node_links, get_grant_rules, set_grant_rules, get_grant_exit, set_grant_exit, get_layout,
  set_layout,
}

-- A row of `grants`, with its rows of `grant_rules`.
pub record Row : Type 0 where
  pub client : Text
  pub node : Text
  pub exit : Bool
  pub rules : List Rule

-- A row of `nodes`, with its rows of `node_subnets` that parse.
pub record Location : Type 0 where
  pub id : Text
  pub name : Text
  pub is_hub : Bool
  pub active : Bool
  pub subnets : List Text

pub record Database : Type 0 where
  pub clients : List Text
  pub locations : List Location
  pub rows : List Row
  pub links : List NodeLink
  pub layout : Json

-- `WHERE client_id=$1 AND node_id=$2`
abbrev pub is_row : Text → Text → Row → Bool
is_row c n r = r.client == c && r.node == n

abbrev pub has_row : List Row → Text → Text → Bool
has_row rows c n = any (is_row c n) rows

abbrev pub find_location : List Location → Text → Option Location
find_location ls id = find (λ l. l.id == id) ls

-- The foreign keys of `grants`.
abbrev pub has_keys : Database → Text → Text → Bool
has_keys db c n = Sets.includes db.clients c && any (λ l. l.id == n) db.locations

-- `COALESCE((SELECT is_hub FROM nodes WHERE id=$2), false)`
unfoldable pub is_hub_location : List Location → Text → Bool
is_hub_location ls n = elim (find_location ls n) [ none ↦ false | some l ↦ l.is_hub ]

unfoldable pub set_exit_rows : Text → Text → Bool → List Row → List Row
set_exit_rows c n exit rows = map (λ r. if is_row c n r then record r { exit = exit } else r) rows

unfoldable pub set_rules_rows : Text → Text → List Rule → List Row → List Row
set_rules_rows c n rules rows =
    map (λ r. if is_row c n r then record r { rules = rules } else r) rows

-- The row of another exit of the device.
unfoldable pub other_exit : Text → Text → List Row → Option Row
other_exit c n rows = find (λ r. r.exit && (r.client == c && not (r.node == n))) rows

location_name : List Location → Text → Text
location_name ls n = elim (find_location ls n) [ none ↦ [] | some l ↦ l.name ]

-- The ports' checks in the table, where a zero is stored as no port.
abbrev in_range : ℕ → Bool
in_range p = eqb p 0 || leb p 65535

abbrev ports_ok : Rule → Bool
ports_ok r =
    in_range r.port_from
    && (in_range r.port_to && (eqb r.port_to 0 || eqb r.port_from 0 || leb r.port_from r.port_to))

-- What is not the program's own code.
pub record Platform : Type 0 where
  -- The error of `Reconcile` on the stored data.
  pub reconcile : Database → Option Text
  -- `netip.ParsePrefix(s)` succeeds, and the cast to `cidr` does.
  pub is_prefix : Text → Bool
  pub is_cidr : Text → Bool
  pub overlaps : Text → Text → Bool
  -- What a `jsonb` column gives back of a value.
  pub jsonb : Json → Json
  -- The length of a value's text in bytes, and the error of storing it.
  pub bytes : Json → ℕ
  pub layout_error : Json → Database → Option Text
  -- `ORDER BY dest`
  pub by_dest : List Rule → List Rule
  -- The message of a violated constraint, and of an error with a cause or a quoted name.
  pub violation : Text
  pub bad_dest : Text → Text
  pub quote : Text → Text
  pub overlap_of : Text → Text → Text
  -- The other handlers.
  pub others : Panel Database

-- An error, if any, and the database after the transaction.
abbrev Done : Type 0
Done = Option Text × Database

module _ (X : Platform) where
  unfoldable pub set_grant : Text → Text → Database → Done
  set_grant c n db =
      if has_row db.rows c n
      then (none, db)
      else if has_keys db c n
      then (
        none,
        record db {
          rows = db.rows ++ (record { client = c; node = n; exit = false; rules = [] } ∷ []);
        },
      )
      else (some X.violation, db)

  unfoldable pub delete_grant : Text → Text → Database → Done
  delete_grant c n db = (none, record db { rows = filter (λ r. not (is_row c n r)) db.rows })

  -- The loop over the rules: the error of the first one that is refused.
  unfoldable pub rule_error : List Rule → Option Text
  rule_error [] = none
  rule_error (r ∷ rs) =
      if not (X.is_prefix r.dest)
      then some (X.bad_dest r.dest)
      else if X.is_cidr r.dest && ports_ok r
      then rule_error rs
      else some X.violation

  unfoldable pub set_grant_rules_of : Text → Text → List Rule → Database → Done
  unfolding rule_error set_rules_rows
  set_grant_rules_of c n rules db =
      if has_row db.rows c n
      then elim (rule_error rules) [
        | some e ↦ (some e, db)
        | none ↦ (none, record db { rows = set_rules_rows c n rules db.rows })
      ]
      else (some (codes "grant does not exist"), db)

  abbrev write_exit : Text → Text → Bool → Database → Done
  write_exit c n exit db = (none, record db { rows = set_exit_rows c n exit db.rows })

  -- The search for another exit of the device, before one is turned on.
  turn_on : Text → Text → Database → Option Row → Done
  unfolding location_name
  turn_on c n db none = write_exit c n true db
  turn_on c n db (some r) = (
    some (
        codes "this device already sends all traffic through "
        ++ (X.quote (location_name db.locations r.node)
            ++ codes " — a device can use only one internet exit at a time")),
    db,
  )

  unfoldable pub set_grant_exit_of : Text → Text → Bool → Database → Done
  unfolding turn_on
  set_grant_exit_of c n exit db =
      if not (has_row db.rows c n)
      then (some (codes "grant does not exist"), db)
      else if is_hub_location db.locations n
      then (some (codes "the internet-exit hub node is already a full-tunnel exit"), db)
      else if exit
      then turn_on c n db (other_exit c n db.rows)
      else write_exit c n false db

  -- The error of `SetNodeLink` before the insertion.
  subnets_error : List Text → List Text → Option Text
  subnets_error [] bs = none
  subnets_error (a ∷ rest) bs = elim (find (X.overlaps a) bs) [
    | none ↦ subnets_error rest bs
    | some b ↦ some (X.overlap_of a b)
  ]

  unfoldable pub active_location : List Location → Text → Option Location
  active_location ls id = find (λ l. l.id == id && l.active) ls

  ends_error : Option Location → Option Location → Option Text
  unfolding subnets_error
  ends_error (some a) (some b) =
      if a.is_hub || b.is_hub
      then some (codes "the internet-exit hub node cannot be part of a site-to-site link")
      else elim a.subnets [
        | [] ↦ some (codes "both nodes must have at least one LAN subnet")
        | s ∷ ss ↦ elim b.subnets [
          | [] ↦ some (codes "both nodes must have at least one LAN subnet")
          | t ∷ ts ↦ subnets_error (s ∷ ss) (t ∷ ts)
        ]
      ]
  ends_error a b = some (codes "both nodes must exist and be active")

  abbrev pub is_link : Text → Text → NodeLink → Bool
  is_link src dst l = l.src == src && l.dst == dst

  -- `ON CONFLICT DO NOTHING`
  insert_link : Text → Text → Database → Done
  insert_link src dst db =
      if any (is_link src dst) db.links
      then (none, db)
      else (none, record db { links = db.links ++ (record { src = src; dst = dst } ∷ []) })

  unless_error : Option Text → Text → Text → Database → Done
  unfolding insert_link
  unless_error none src dst db = insert_link src dst db
  unless_error (some e) src dst db = (some e, db)

  unfoldable pub set_node_link : Text → Text → Database → Done
  unfolding unless_error ends_error active_location
  set_node_link src dst db =
      if src == dst
      then (some (codes "a node cannot link to itself"), db)
      else unless_error
          (ends_error (active_location db.locations src) (active_location db.locations dst)) src dst
          db

  unfoldable pub delete_node_link : Text → Text → Database → Done
  delete_node_link src dst db =
      (none, record db { links = filter (λ l. not (is_link src dst l)) db.links })
