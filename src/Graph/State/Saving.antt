-- ===== src/Graph/State/Saving.antt =====
-- What AccessGraph.tsx saves of the map, read back as the next load of the page reads it.
use mathlib.Core.List.{append_assoc}
use beauty_awg.Base.{
  ℕ, ◌≡◌, refl, ap, ◌≢◌, true, some, List, [], ◌∷◌, ◌++◌, arith, Text, All, map, codes, ◌==◌,
}
use beauty_awg.Base.Sets
use beauty_awg.Base.Dict
use beauty_awg.Base.Dict.{Dict, keys, lookup}
use beauty_awg.Json.{Json, obj, of_fields}
use beauty_awg.Groups.{Group}
use beauty_awg.Groups.Layout.{
  Layout, groups_key, is_position, parse_layout, serialize_layout, group_json,
}
use beauty_awg.Groups.Layout.RoundTrip.{parse_layout-serialize_layout}
use beauty_awg.Groups.Layout.Written.{group_json-All}
use beauty_awg.Api.{Panel, Result, set_layout}
use beauty_awg.Api.Effects.{World, outcome, Event, reloaded}
use beauty_awg.Graph.{cid}
use beauty_awg.Graph.State.{
  Position, MapState, position_json, positions_json, blob_of, save_groups, place_created,
  created_at, on_device_created, flush,
}

-- The positions are those of cards: distinct keys, none of them the groups' key.
pub record AreCards (positions : Dict Position) : Type 0 where
  pub cards : All (λ k. k ≢ groups_key) (keys positions)
  pub distinct : Sets.Nodup (keys positions)

keys-positions_json : (d : Dict Position) → keys (positions_json d) ≡ keys d
unfolding positions_json
keys-positions_json [] = refl
keys-positions_json ((k, p) ∷ d) = ap (λ r. k ∷ r) (keys-positions_json d)

position_json-is_position : (p : Position) → is_position (position_json p) ≡ true
unfolding is_position position_json lookup codes ◌==◌
position_json-is_position p = refl

positions_json-All :
    (d : Dict Position)
    → All (λ k. k ≢ groups_key) (keys d)
    → All (λ e. (e.0 ≢ groups_key) × (is_position e.1 ≡ true)) (positions_json d)
unfolding positions_json
positions_json-All [] h = tt
positions_json-All ((k, p) ∷ d) (ne, h) =
    ((ne, position_json-is_position p), positions_json-All d h)

-- A load of what the map sends gives back each position and each group.
parse_layout-blob_of :
    (positions : Dict Position) (groups : List Group)
    → AreCards positions
    → parse_layout (blob_of positions groups)
      ≡ record { positions = positions_json positions; groups = map group_json groups }
unfolding blob_of
parse_layout-blob_of positions groups h = parse_layout-serialize_layout _ (record {
  positions = positions_json-All positions h.cards;
  distinct = rw (keys-positions_json positions) h.distinct;
  groups = group_json-All groups;
})

-- The bare positions, without the groups' key.
parse_layout-positions :
    (positions : Dict Position)
    → AreCards positions
    → parse_layout (obj (of_fields (positions_json positions)))
      ≡ record { positions = positions_json positions; groups = [] }
unfolding blob_of serialize_layout
parse_layout-positions positions h = parse_layout-blob_of positions [] h

insert_card-All :
    (id : Text) (p : Position) (d : Dict Position)
    → All (λ k. k ≢ groups_key) (keys d)
    → All (λ k. k ≢ groups_key) (keys (Dict.insert (cid id) p d))
unfolding Dict.insert cid groups_key
insert_card-All id p [] h = (ground arith, tt)
insert_card-All id p ((j, q) ∷ d) (ne, h) = ground (arith, insert_card-All id p d h)

insert_card-AreCards :
    (id : Text) (p : Position) (d : Dict Position)
    → AreCards d
    → AreCards (Dict.insert (cid id) p d)
insert_card-AreCards id p d h = record {
  cards = insert_card-All id p d h.cards;
  distinct = Dict.insert-Nodup (cid id) p d h.distinct;
}

-- One save was sent, then `rest` happened, and the next load of the page reads `layout` of it.
pub record Saves {S : Type 0} (before after : World S MapState) (rest : List Event)
    (layout : Layout) : Type 0 where
  pub blob : Json
  pub answer : Result (Unit {0})
  pub sent : after.log ≡ before.log ++ (outcome (set_layout blob) answer ∷ rest)
  pub reads : parse_layout blob ≡ layout

module _ {S : Type 0} (P : Panel S) where
  -- A change of the groups saves the positions with them: whatever the backend answers, one blob
  -- is sent, and a load of it gives every position of the map and every group that was set.
  pub save_groups-Saves :
      (groups : List Group) (w : World S MapState)
      → AreCards w.local.positions
      → Saves w
          (save_groups P groups w).1
          []
          (record { positions = positions_json w.local.positions; groups = map group_json groups })
  unfolding save_groups
  save_groups-Saves groups w h = record {
    blob = blob_of w.local.positions groups;
    answer = (P (set_layout (blob_of w.local.positions groups)) w.server).0;
    sent = refl;
    reads = parse_layout-blob_of w.local.positions groups h;
  }

  -- The save that is due after cards were moved has the groups in it.
  pub flush-Saves :
      (w : World S MapState)
      → AreCards w.local.positions
      → w.local.save_due ≡ true
      → Saves w (flush P w).1 [] (record {
        positions = positions_json w.local.positions;
        groups = map group_json w.local.groups;
      })
  unfolding flush
  flush-Saves w h due = record {
    blob = blob_of w.local.positions w.local.groups;
    answer = (P (set_layout (blob_of w.local.positions w.local.groups)) w.server).0;
    sent = rw due refl;
    reads = parse_layout-blob_of w.local.positions w.local.groups h;
  }

  -- A device that is created from the map's menu is saved by another writer: a load of the blob
  -- gives the positions, the new card's with them, and no group at all, whatever groups there are.
  pub on_device_created-Saves :
      (c : ℕ) (id : Text) (at : Position) (w : World S MapState)
      → AreCards w.local.positions
      → w.local.drop_at ≡ some at
      → Saves w (on_device_created P (some (c ∷ id)) w).1 (reloaded ∷ []) (record {
        positions = positions_json (Dict.insert (cid (c ∷ id)) at w.local.positions);
        groups = [];
      })
  unfolding on_device_created created_at place_created
  on_device_created-Saves c id at w h due =
      let positions = Dict.insert (cid (c ∷ id)) at w.local.positions in
      let blob = obj (of_fields (positions_json positions)) in
      record {
        blob = blob;
        answer = (P (set_layout blob) w.server).0;
        sent = rw due (append_assoc w.log _ _);
        reads =
            parse_layout-positions positions (insert_card-AreCards (c ∷ id) at w.local.positions h);
      }
