-- ===== src/Graph/Tests/Handlers.antt =====
-- Runs of the map's handlers against the store.
use beauty_awg.Base.{
  ◌≡◌, refl, true, ◌&&◌, ◌||◌, not, some, [], ◌∷◌, Text, ◌==◌, any, starts_with, filter, All,
  if◌then◌else◌, map,
}
use beauty_awg.Base.Sets.{includes, to_set, add_all, add}
use beauty_awg.Base.Dict
use beauty_awg.Base.Dict.{Dict, lookup, insert}
use beauty_awg.Api.Effects.{reloaded, World}
use beauty_awg.Groups.{SyncPlan, is_group_id, sync_plan, group_grants, group_grants_from, grants_of}
use beauty_awg.Groups.Layout.{group_json, groups_key}
use beauty_awg.Api.{ok, grant, revoke}
use beauty_awg.Samples.{
  platform, database, at_work, map_state, servers, clients, laptop, family, phone_id, laptop_id,
  home_id, hub_id, spot,
}
use beauty_awg.Store.{Database, has_row, has_keys}
use beauty_awg.Store.Serving.{serve}
use beauty_awg.Store.Granting.{serve_grants}
use beauty_awg.Graph.{cid, nid, unwrap, is_client_id, is_node_id}
use beauty_awg.Graph.Relations.{grants_by_client, grants_from}
use beauty_awg.Graph.State.{MapState, positions_json, save_groups, on_device_created}
use beauty_awg.Graph.State.Saving.{AreCards, Saves, save_groups-Saves, on_device_created-Saves}
use beauty_awg.Graph.Access.{
  Connection, on_connect, delete_line, wish_of, client_grant, client_line, wish_between,
}
use beauty_awg.Graph.Access.Granting.{on_connect-granted, delete_line-granted, asks, carries}
use beauty_awg.Graph.Membership.{join_group, join_target}
use beauty_awg.Graph.Membership.Joining.{CanApply, plan_for, join_group-granted}

abbrev work : World Database MapState
work = at_work map_state

abbrev drawn : Connection
drawn = record { source = some (cid laptop_id); target = some (nid home_id) }

drawn_wish : wish_of drawn ≡ client_grant laptop_id home_id
unfolding wish_of wish_between is_node_id is_group_id is_client_id nid cid unwrap starts_with
drawn_wish = refl

laptop_known : has_keys database laptop_id home_id ≡ true
unfolding includes any ◌==◌
laptop_known = refl

on_connect-granted_example :
    ((on_connect (serve platform) servers clients drawn work).0 ≡ ok tt)
    × ((d n : Text)
        → has_row (on_connect (serve platform) servers clients drawn work).1.server.rows d n
          ≡ (has_row database.rows d n || asks (family ∷ []) (wish_of drawn) d n))
unfolding serve_grants wish_of wish_between is_node_id is_group_id is_client_id nid cid unwrap
    starts_with
on_connect-granted_example =
    on_connect-granted (serve platform) (serve_grants platform (λ db. refl)) servers clients drawn
      work laptop_known

phone_known : has_keys database phone_id home_id ≡ true
unfolding includes any ◌==◌
phone_known = refl

delete_line-granted_example :
    ((delete_line (serve platform) servers clients (client_line phone_id home_id) work).0 ≡ ok tt)
    × ((d n : Text)
        → has_row
            (delete_line
              (serve platform)
              servers
              clients
              (client_line phone_id home_id)
              work).1.server.rows
            d
            n
          ≡ (has_row database.rows d n
              && not (carries (family ∷ []) (client_line phone_id home_id) d n)))
unfolding serve_grants
delete_line-granted_example =
    delete_line-granted (serve platform) (serve_grants platform (λ db. refl)) servers clients
      (client_line phone_id home_id) work phone_known

laptop_current : (n : Text) → has_row database.rows laptop_id n ≡ includes [] n
unfolding any ◌==◌ includes
laptop_current n = refl

laptop_adds :
    All
      (λ n. has_keys database laptop_id n ≡ true)
      (sync_plan (join_target family laptop (grants_by_client clients)) []).to_add
unfolding sync_plan join_target group_grants group_grants_from grants_by_client grants_from
    grants_of to_set add_all add includes filter any insert lookup ◌==◌
laptop_adds = (refl, tt)

laptop_removes :
    All
      (λ n. has_keys database laptop_id n ≡ true)
      (sync_plan (join_target family laptop (grants_by_client clients)) []).to_remove
unfolding sync_plan to_set add_all filter
laptop_removes = tt

laptop-CanApply :
    CanApply
      (serve platform)
      (serve_grants platform (λ db. refl))
      servers
      clients
      work
      laptop
      (plan_for (serve platform) (serve_grants platform (λ db. refl)) servers clients family laptop)
unfolding serve_grants
laptop-CanApply = record { to_add = laptop_adds; to_remove = laptop_removes }

join_group-granted_example :
    ((join_group (serve platform) servers clients family laptop work).0 ≡ ok tt)
    × ((d n : Text)
        → has_row (join_group (serve platform) servers clients family laptop work).1.server.rows d n
          ≡ (if laptop_id == d
              then includes (join_target family laptop (grants_by_client clients)) n
              else has_row database.rows d n))
unfolding serve_grants
join_group-granted_example =
    join_group-granted (serve platform) (serve_grants platform (λ db. refl)) servers clients family
      laptop work laptop_current laptop-CanApply

map_state-AreCards : AreCards map_state.positions
unfolding includes cid groups_key
map_state-AreCards = record { cards = ((λ h. cc), tt); distinct = (refl, tt) }

save_groups-Saves_example :
    Saves work (save_groups (serve platform) (family ∷ []) work).1 [] (record {
      positions = positions_json map_state.positions;
      groups = map group_json (family ∷ []);
    })
save_groups-Saves_example = save_groups-Saves (serve platform) (family ∷ []) work map_state-AreCards

on_device_created-Saves_example :
    Saves work
      (on_device_created (serve platform) (some laptop_id) work).1
      (reloaded ∷ [])
      (record {
        positions = positions_json (Dict.insert (cid laptop_id) spot map_state.positions);
        groups = [];
      })
on_device_created-Saves_example =
    on_device_created-Saves (serve platform) b'b' (b'2' ∷ []) spot work map_state-AreCards refl

-- While the laptop joins, the phone loses its access and another handler gives the laptop the
-- internet; then the laptop's own call is answered.
abbrev meanwhile : Database
meanwhile =
    (serve platform (grant laptop_id home_id)
      (serve platform (grant laptop_id hub_id)
        (serve platform (revoke phone_id home_id) database).1).1).1

abbrev laptop_plan : SyncPlan
laptop_plan = sync_plan (home_id ∷ []) []
