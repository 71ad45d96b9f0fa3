-- ===== src/Graph/State.antt =====
-- AccessGraph.tsx: the state of the map, its one writer of the layout, and the groups' operations.
pub mod Saving
use beauty_awg.Base.{
  ℕ, suc, Bool, true, false, ◌&&◌, not, Option, none, some, List, [], ◌∷◌, ◌++◌, Text, codes, ◌==◌,
  map, filter, find, any, length, if◌then◌else◌,
}
use beauty_awg.Base.Int.{ℤ}
use beauty_awg.Base.Sets
use beauty_awg.Base.Dict.{Dict, insert}
use beauty_awg.Json.{Json, num, obj, of_fields, decimal}
use beauty_awg.Groups.{Group, gid, is_group_id, group_of}
use beauty_awg.Groups.Layout.{serialize_layout, group_json}
use beauty_awg.Api.{Panel, set_layout}
use beauty_awg.Api.Effects.{M, World, ◌>>=◌, ◌>>◌, modify, get, done, call, quietly, note, reloaded}
use beauty_awg.Graph.{cid, is_client_id, unwrap}

pub record Position : Type 0 where
  pub x : ℤ
  pub y : ℤ

-- The refs and states of `Graph` that its handlers write; `menu` is at the window's coordinates.
pub record MapState : Type 0 where
  pub groups : List Group
  pub positions : Dict Position
  pub detached : Dict Position
  pub drop_at : Option Position
  pub save_due : Bool
  pub selected : Option Text
  pub connecting_from : Option Text
  pub editing_group : Option Text
  pub menu : Option Position
  pub adding_device : Bool

position_json : Position → Json
position_json p = obj (of_fields ((codes "x", num p.x) ∷ (codes "y", num p.y) ∷ []))

pub positions_json : Dict Position → Dict Json
unfolding position_json
positions_json [] = []
positions_json ((k, p) ∷ d) = (k, position_json p) ∷ positions_json d

-- `serializeLayout({ positions, groups })`
unfoldable pub blob_of : Dict Position → List Group → Json
unfolding positions_json
blob_of positions groups =
    serialize_layout
      (record { positions = positions_json positions; groups = map group_json groups })

-- A patch of a group by `{ ...g, ...patch }`, at the group of that id.
unfoldable pub patch_group : Text → (Group → Group) → List Group → List Group
patch_group id patch [] = []
patch_group id patch (g ∷ gs) = (if g.id == id then patch g else g) ∷ patch_group id patch gs

unfoldable pub place_all : Dict Position → List (Text × Position) → Dict Position
place_all d [] = d
place_all d ((id, p) ∷ rest) = place_all (insert id p d) rest

module _ {S : Type 0} (P : Panel S) where
  -- `saveLayout` with groups: the ref and the state take them, and the whole blob is sent.
  unfoldable pub save_groups : List Group → M S MapState (Unit {0})
  save_groups groups = do
    modify (λ s. record s { groups = groups })
    s ← get
    quietly (call P (set_layout (blob_of s.positions groups)))

  -- `createGroup`, with the id that `newGroupId` draws.
  unfoldable pub create_group : Text → M S MapState (Unit {0})
  unfolding save_groups
  create_group id = do
    s ← get
    let g : Group = record {
      id = id;
      name = codes "Group " ++ decimal (suc (length s.groups));
      w = none;
      h = none;
      color = none;
      members = [];
    }
    modify (λ t. elim t.drop_at [
      | none ↦ t
      | some at ↦ record t { positions = insert (gid id) at t.positions }
    ])
    modify (λ t. record t { drop_at = none })
    save_groups (s.groups ++ (g ∷ []))
    modify (λ t. record t { editing_group = some id })

  unfoldable pub update_group : Text → (Group → Group) → M S MapState (Unit {0})
  unfolding save_groups patch_group
  update_group id patch = do s ← get; save_groups (patch_group id patch s.groups)

  unfoldable pub dissolve_group : Text → M S MapState (Unit {0})
  unfolding save_groups
  dissolve_group id = do
    s ← get
    save_groups (filter (λ g. not (g.id == id)) s.groups)
    modify (λ t. record t { editing_group = none })

  -- `persist`, at rounded positions: the map of positions is built anew, and a save is due.
  unfoldable pub persist : List (Text × Position) → M S MapState (Unit {0})
  unfolding place_all
  persist nodes = modify (λ s. record s { positions = place_all [] nodes; save_due = true })

  -- The timer of the last `persist`, 400 ms after it.
  unfoldable pub flush : M S MapState (Unit {0})
  flush = do
    s ← get
    modify (λ t. record t { save_due = false })
    if s.save_due then quietly (call P (set_layout (blob_of s.positions s.groups))) else done

  -- `onDone` of the wizard: the new card is put where the menu was opened.
  place_created : Text → Position → M S MapState (Unit {0})
  unfolding positions_json
  place_created id at = do
    modify (λ s. record s { positions = insert (cid id) at s.positions })
    s ← get
    quietly (call P (set_layout (obj (of_fields (positions_json s.positions)))))
    modify (λ t. record t { drop_at = none })

  created_at : Option Text → Option Position → M S MapState (Unit {0})
  unfolding place_created
  created_at (some (c ∷ id)) (some at) = place_created (c ∷ id) at
  created_at id at = done

  unfoldable pub on_device_created : Option Text → M S MapState (Unit {0})
  unfolding created_at
  on_device_created id = do s ← get; created_at id s.drop_at; note reloaded
