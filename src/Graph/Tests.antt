-- ===== src/Graph/Tests.antt =====
-- Runs of the map.
mod Handlers
mod Landing
use beauty_awg.Base.{
  ◌≡◌, refl, true, false, ◌&&◌, ◌||◌, not, none, some, List, [], ◌∷◌, arith, Text, ◌==◌, any,
  starts_with, filter, All, if◌then◌else◌, map,
}
use beauty_awg.Base.Sets.{includes, Nodup, to_set, add_all, add}
use beauty_awg.Base.Dict
use beauty_awg.Base.Dict.{Dict, lookup, insert}
use beauty_awg.Api.Effects.{reloaded, World}
use beauty_awg.Api.{NodeLink}
use beauty_awg.Groups.{
  gid, grouped_client_ids, is_group_id, sync_plan, group_grants, group_grants_from, grants_of,
}
use beauty_awg.Groups.Grants.{granted_to_any}
use beauty_awg.Groups.Layout.{group_json, groups_key}
use beauty_awg.Api.{ok}
use beauty_awg.Samples.{
  platform, database, at_work, map_state, servers, clients, laptop, family, phone_id, laptop_id,
  home_id, there_and_back, spot,
}
use beauty_awg.Store.{Database, has_row, has_keys}
use beauty_awg.Store.Serving.{serve}
use beauty_awg.Store.Granting.{serve_grants}
use beauty_awg.Graph.{
  cid, nid, link_edge_id, bus_edge_id, grant_edge_id, parse_link_edge, parse_bus_edge, split_arrow,
  first_of, second_of, is_link_edge, is_bus_edge, unwrap, is_client_id, is_node_id,
}
use beauty_awg.Graph.Ids.{IsPlain}
use beauty_awg.Graph.Pairs.{Pairs, Anim, track_pairs, one_way, bus}
use beauty_awg.Graph.Pairs.Transitions.{tx_after, change, track_pairs-tx}
use beauty_awg.Graph.Relations.{
  relations, live_groups, is_server, grants_by_client, grants_from, link_rels, Rel,
}
use beauty_awg.Graph.Coverage.{has_line, is_granted, relations-client, relations-group}
use beauty_awg.Graph.Links.{
  IsIn, is_drawn, bus_ids, stands_for, link_rels_complete, link_rels_sound,
}
use beauty_awg.Graph.Pairs.{is_live, link_keys}
use beauty_awg.Graph.State.{MapState, positions_json, save_groups, on_device_created}
use beauty_awg.Graph.State.Saving.{AreCards, Saves, save_groups-Saves, on_device_created-Saves}
use beauty_awg.Graph.Access.{
  Edge, Connection, in_selection, on_edges_delete, on_connect, delete_line, wish_of, line_of,
  client_grant, group_grant, node_link, no_wish, client_line, group_line, link_line, bus_line,
  wish_between, selection_anchor,
}
use beauty_awg.Graph.Access.Drawing.{line_of-drawn}
use beauty_awg.Graph.Access.Granting.{on_connect-granted, delete_line-granted, asks, carries}
use beauty_awg.Graph.Membership.{join_group, join_target}
use beauty_awg.Graph.Membership.Joining.{CanApply, plan_for, join_group-granted}
use beauty_awg.Graph.Highlight.{
  card_ids, shown_selection, anchor_of, look_of, is_editable, can_drop,
}
use beauty_awg.Graph.Highlight.Anchors.{edge_of, anchors-agree}
use beauty_awg.Graph.Cards.{Places, cards}
use beauty_awg.Graph.Cards.Order.{AreInOrder, cards-AreInOrder}
use beauty_awg.Base.{suc}
use beauty_awg.Graph.Pairs.{end_bus_tx}
use beauty_awg.Graph.Pairs.Ending.{
  Tracked, at_first, Reach, here, next, reconciles, is_there, Reach-ends,
}

phone-IsPlain : IsPlain phone_id
phone-IsPlain =
    ((omega arith, omega arith, omega arith), ((omega arith, omega arith, omega arith), tt))

home-IsPlain : IsPlain home_id
home-IsPlain =
    ((omega arith, omega arith, omega arith), ((omega arith, omega arith, omega arith), tt))

line_of-drawn_example :
    (wish_of (record { source = some (cid phone_id); target = some (nid home_id) })
      ≡ client_grant phone_id home_id)
    × (wish_of (record { source = some (gid phone_id); target = some (nid home_id) })
        ≡ group_grant phone_id home_id)
    × (wish_of (record { source = some (nid phone_id); target = some (nid home_id) })
        ≡ node_link phone_id home_id)
    × (wish_of (record { source = some (nid phone_id); target = some (cid home_id) }) ≡ no_wish)
    × (line_of (record {
      id = grant_edge_id phone_id home_id;
      source = cid phone_id;
      target = nid home_id;
    })
        ≡ client_line phone_id home_id)
    × (line_of (record {
      id = grant_edge_id (gid phone_id) home_id;
      source = gid phone_id;
      target = nid home_id;
    })
        ≡ group_line phone_id home_id)
    × (line_of (record {
      id = link_edge_id phone_id home_id;
      source = nid phone_id;
      target = nid home_id;
    })
        ≡ link_line phone_id home_id)
    × (line_of (record {
      id = bus_edge_id phone_id home_id;
      source = nid phone_id;
      target = nid home_id;
    })
        ≡ bus_line (first_of phone_id home_id) (second_of phone_id home_id))
line_of-drawn_example =
    line_of-drawn phone_id home_id phone-IsPlain home-IsPlain (omega arith, (omega arith, tt))

abbrev arrows : Pairs
arrows = record { state = (home_id, one_way) ∷ []; init = true }

abbrev still : Anim
still = record { tx = []; timers = []; tick = 0 }

track_pairs-tx_example :
    lookup home_id (track_pairs false 5 ((home_id, bus) ∷ []) arrows still).1.tx
    ≡ tx_after false 5
        (change (lookup home_id ((home_id, one_way) ∷ [])) (lookup home_id ((home_id, bus) ∷ [])))
        (lookup home_id [])
unfolding includes
track_pairs-tx_example =
    track_pairs-tx false 5 ((home_id, bus) ∷ []) arrows still home_id (refl, tt) (refl, tt)

relations-client_example :
    has_line
      (relations servers clients (family ∷ []) there_and_back [])
      (cid laptop_id)
      (nid home_id)
    ≡ (not (includes (grouped_client_ids (live_groups (family ∷ []) clients)) laptop_id)
        && (is_server servers home_id && is_granted clients laptop_id home_id))
relations-client_example =
    relations-client servers clients (family ∷ []) there_and_back [] laptop_id home_id

relations-group_example :
    has_line
      (relations servers clients (family ∷ []) there_and_back [])
      (gid (b'f' ∷ []))
      (nid home_id)
    ≡ (is_server servers home_id
        && any
            (λ x.
              x.id == (b'f' ∷ []) && granted_to_any x.members (grants_by_client clients) home_id)
            (live_groups (family ∷ []) clients))
relations-group_example =
    relations-group servers clients (family ∷ []) there_and_back [] (b'f' ∷ []) home_id

link_rels_complete_example :
    ((l : NodeLink)
      → IsIn l there_and_back
      → is_live (is_server servers) l ≡ true
      → is_drawn
          (is_server servers)
          (link_keys there_and_back)
          []
          []
          (link_rels (is_server servers) (link_keys there_and_back) [] [] there_and_back)
          l
        ≡ true)
    × Nodup
        (bus_ids (link_rels (is_server servers) (link_keys there_and_back) [] [] there_and_back))
link_rels_complete_example =
    link_rels_complete (is_server servers) (link_keys there_and_back) [] there_and_back

link_rels_sound_example :
    All
      (λ r. stands_for (is_server servers) (link_keys there_and_back) [] there_and_back r ≡ true)
      (link_rels (is_server servers) (link_keys there_and_back) [] [] there_and_back)
link_rels_sound_example =
    link_rels_sound (is_server servers) (link_keys there_and_back) [] [] there_and_back

abbrev family_rel : Rel
family_rel = record {
  id = grant_edge_id (gid (b'f' ∷ [])) home_id;
  source = gid (b'f' ∷ []);
  target = nid home_id;
  link = false;
  bus = false;
  tx = none;
}

anchors-agree_example :
    is_editable (
      look_of
        (anchor_of (live_groups (family ∷ []) clients) (
          shown_selection
            (card_ids servers clients (live_groups (family ∷ []) clients))
            (some (cid phone_id))))
        family_rel)
    ≡ (if includes (card_ids servers clients (live_groups (family ∷ []) clients)) (cid phone_id)
        then in_selection
            (selection_anchor (some (cid phone_id)) (family ∷ []))
            (edge_of family_rel)
        else true)
anchors-agree_example = anchors-agree servers clients (family ∷ []) (cid phone_id) family_rel

abbrev places : Places
places = record { detached = []; before = []; layout = [] }

cards-AreInOrder_example : AreInOrder [] (cards places (family ∷ []) clients servers)
cards-AreInOrder_example = cards-AreInOrder places (family ∷ []) clients servers

abbrev one_way_seen : Tracked
one_way_seen = record {
  pairs = (track_pairs false 0 ((home_id, one_way) ∷ []) at_first.pairs at_first.anim).0;
  anim = (track_pairs false 0 ((home_id, one_way) ∷ []) at_first.pairs at_first.anim).1;
}

abbrev bus_seen : Tracked
bus_seen = record {
  pairs = (track_pairs false 9 ((home_id, bus) ∷ []) one_way_seen.pairs one_way_seen.anim).0;
  anim = (track_pairs false 9 ((home_id, bus) ∷ []) one_way_seen.pairs one_way_seen.anim).1;
}

Reach-ends_example :
    (is_there (lookup home_id bus_seen.anim.tx) ≡ is_there (lookup home_id bus_seen.anim.timers))
    × (lookup home_id (end_bus_tx home_id bus_seen.anim).tx ≡ none)
    × ((end_bus_tx home_id bus_seen.anim).tick ≡ suc bus_seen.anim.tick)
Reach-ends_example = Reach-ends home_id (
    next (next here (reconciles at_first false 0 ((home_id, one_way) ∷ [])))
      (reconciles one_way_seen false 9 ((home_id, bus) ∷ [])))
