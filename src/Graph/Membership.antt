-- ===== src/Graph/Membership.antt =====
-- AccessGraph.tsx: devices that join a group and leave it.
pub mod Joining
pub mod Interrupted
use beauty_awg.Base.{
  ℕ, Bool, true, false, ◌&&◌, ◌||◌, not, Option, none, some, List, [], ◌∷◌, ◌++◌, Text, codes, ◌==◌,
  find, filter, map, length, if◌then◌else◌,
}
use beauty_awg.Base.Int.{ℤ, pos, ◌+ℤ◌}
use beauty_awg.Base.Sets
use beauty_awg.Base.Dict.{Dict, lookup, insert}
use beauty_awg.Errors.{Thrown}
use beauty_awg.Groups.{
  Group, gid, is_group_id, group_of, group_grants, grants_of, SyncPlan, sync_plan, Seat,
  member_seat,
}
use beauty_awg.Api.{
  VpnNode, Client, Panel, grant, revoke, get_grant_exit, get_grant_rules, set_grant_exit,
  set_grant_rules, Rule,
}
use beauty_awg.Api.Effects.{
  M, ◌>>=◌, ◌>>◌, get, modify, done, call, both, note, announce, report, attempt, for_each, toasted,
  warn, reloaded,
}
use beauty_awg.Graph.{unwrap}
use beauty_awg.Graph.Relations.{grants_by_client}
use beauty_awg.Graph.State.{MapState, Position, update_group}
use beauty_awg.Graph.Access.{group_with_id}

-- `nameOf` in `joinGroup`.
unfoldable pub place_name : List VpnNode → Text → Text
place_name servers id = elim (find (λ s. s.id == id) servers) [
  | none ↦ codes "a location"
  | some s ↦ if s.is_hub then codes "the internet" else s.name
]

-- `xs.join(", ")`
unfoldable pub join_names : List Text → Text
join_names [] = []
join_names (x ∷ []) = x
join_names (x ∷ y ∷ ys) = x ++ codes ", " ++ join_names (y ∷ ys)

-- The access that a device takes over: its own in an empty group, else the group's.
unfoldable pub join_target : Group → Client → Dict (List Text) → List Text
join_target g c grants = elim g.members [ [] ↦ c.granted_nodes | m ∷ ms ↦ group_grants g grants ]

-- A member that holds the grant.
unfoldable pub representative : Group → Dict (List Text) → Text → Option Text
representative g grants node = find (λ m. Sets.includes (grants_of grants m) node) g.members

module _ {S : Type 0} (P : Panel S) (servers : List VpnNode) (clients : List Client) where
  copy_from : Client → Text → Option Text → M S MapState (Unit {0})
  copy_from c node none = done
  copy_from c node (some rep) = do
    (exit, rules) ← both (call P (get_grant_exit rep node)) (call P (get_grant_rules rep node))
    call P (set_grant_exit c.id node exit)
    call P (set_grant_rules c.id node rules)

  unfoldable pub copy_all : Group → Client → List Text → M S MapState (Unit {0})
  unfolding copy_from
  copy_all g c target =
      for_each target (λ node. copy_from c node (representative g (grants_by_client clients) node))

  warn_reach : Text → List Text → M S MapState (Unit {0})
  warn_reach text [] = done
  warn_reach text (n ∷ ns) =
      note (toasted (text ++ join_names (map (place_name servers) (n ∷ ns))) warn)

  -- `if (add.length || remove.length)`
  announce_change : Client → List Text → M S MapState (Unit {0})
  announce_change c [] = done
  announce_change c (n ∷ ns) = announce c.name

  -- The part of `joinGroup` under its `try`.
  unfoldable pub apply_access : Group → Client → M S MapState (Unit {0})
  unfolding copy_all warn_reach announce_change
  apply_access g c = do
    let target = join_target g c (grants_by_client clients)
    let plan = sync_plan target c.granted_nodes
    for_each plan.to_add (λ n. call P (grant c.id n))
    for_each plan.to_remove (λ n. call P (revoke c.id n))
    copy_all g c target
    warn_reach (c.name ++ codes " now reaches ") plan.to_add
    warn_reach (c.name ++ codes " no longer reaches ") plan.to_remove
    announce_change c (plan.to_add ++ plan.to_remove)
    note reloaded

  join_failed : Thrown → M S MapState (Unit {0})
  join_failed e = do report (codes "Couldn't apply the group's access: ") e; note reloaded

  unfoldable pub join_group : Group → Client → M S MapState (Unit {0})
  unfolding join_failed
  join_group g c = do
    update_group P g.id (λ x. record x { members = g.members ++ (c.id ∷ []) })
    attempt (apply_access g c) join_failed

  seat_position : Seat → Position
  seat_position s = record { x = pos s.x; y = pos s.y }

  -- The frame's position is added back: a member's is kept relative to it.
  absolute : Option Position → Position → Position
  absolute none p = p
  absolute (some o) p = record { x = p.x +ℤ o.x; y = p.y +ℤ o.y }

  take_in : Text → Client → Option Group → M S MapState (Unit {0})
  unfolding seat_position
  take_in card c none = done
  take_in card c (some g) = do
    modify (λ s. record s {
      positions = insert card (seat_position (member_seat (length g.members))) s.positions;
    })
    join_group g c

  let_out : Text → Position → Client → Group → M S MapState (Unit {0})
  unfolding absolute
  let_out card at c g = do
    s ← get
    let abs = absolute (lookup (gid g.id) s.positions) at
    modify (λ t. record t {
      positions = insert card abs t.positions;
      detached = insert card abs t.detached;
    })
    update_group P g.id (λ x. record x { members = filter (λ m. not (m == c.id)) g.members })

  settle : Text → Position → Client → Option Text → Option Group → M S MapState (Unit {0})
  unfolding take_in let_out
  settle card at c (some hit) none = do
    s ← get
    take_in card c (group_with_id s.groups (unwrap hit))
  settle card at c none (some g) = let_out card at c g
  settle card at c hit current = done

  -- `onClientDropped`: the card, where it was dropped, and the cards that it touches there.
  unfoldable pub on_client_dropped : Text → Position → List Text → M S MapState (Unit {0})
  unfolding settle
  on_client_dropped card at touched = elim (find (λ c. c.id == unwrap card) clients) [
    | none ↦ done
    | some c ↦ do s ← get; settle card at c (find is_group_id touched) (group_of s.groups c.id)
  ]
