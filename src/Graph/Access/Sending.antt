-- ===== src/Graph/Access/Sending.antt =====
-- `onConnect` of AccessGraph.tsx: what a connection that is drawn leaves of the backend, whatever
-- the backend answers.
use beauty_awg.Base.{
  ◌≡◌, refl, some, List, Text, ◌==◌, starts_with, if◌then◌else◌, Bool-cases, inl, inr,
}
use beauty_awg.Groups.{is_group_id}
use beauty_awg.Errors.{Thrown}
use beauty_awg.Api.{VpnNode, Client, Panel, Result, ok, thrown, grant, link_nodes}
use beauty_awg.Api.Effects.{World, M, bind, catch_result}
use beauty_awg.Graph.{is_client_id, is_node_id, unwrap, cid, nid}
use beauty_awg.Graph.State.{MapState}
use beauty_awg.Graph.Access.{
  on_connect, wish_of, wish_between, ends, carry_out, grant_client, link_pair, failing,
}

module _ {S : Type 0} where
  -- After a call, nothing else of the handler reaches the backend.
  server_after :
      (r : Result (Unit {0})) (w : World S MapState) (k : Unit {0} → M S MapState (Unit {0}))
      (h : Thrown → M S MapState (Unit {0}))
      → ((v : World S MapState) → ((k tt v).0 ≡ ok tt) × ((k tt v).1.server ≡ v.server))
      → ((e : Thrown) (v : World S MapState) → (h e v).1.server ≡ v.server)
      → (catch_result (bind (r, w) k) h).1.server ≡ w.server
  server_after (ok u) w k h quiet told = rw (catch_result, (quiet w).0) (quiet w).1
  server_after (thrown e) w k h quiet told = told e w

module _ {S : Type 0} (P : Panel S) (servers : List VpnNode) (clients : List Client) where
  grant_client-server :
      (c n : Text) (w : World S MapState)
      → (grant_client P servers clients c n w).1.server ≡ (P (grant c n) w.server).1
  unfolding grant_client failing
  grant_client-server c n w =
      server_after (P (grant c n) w.server).0 _ _ _ (λ v. (refl, refl)) (λ e v. refl)

  link_pair-server :
      (a b : Text) (w : World S MapState)
      → (link_pair P servers clients a b w).1.server
        ≡ (if a == b then w.server else (P (link_nodes a b) w.server).1)
  unfolding link_pair failing
  link_pair-server a b w = elim (Bool-cases (a == b)) [
    | inl same ↦ rw same refl
    | inr apart ↦
        rw apart
          (server_after (P (link_nodes a b) w.server).0 _ _ _ (λ v. (refl, refl)) (λ e v. refl))
  ]

  -- A connection from a device reaches the backend when it ends on a location, as one call.
  pub on_connect-server_client :
      (c id : Text) (w : World S MapState)
      → (on_connect P servers clients
          (record { source = some (cid c); target = some id })
          w).1.server
        ≡ (if is_node_id id then (P (grant c (unwrap id)) w.server).1 else w.server)
  unfolding on_connect carry_out wish_of ends wish_between cid is_client_id is_group_id is_node_id
      unwrap starts_with
  on_connect-server_client c id w = elim (Bool-cases (is_node_id id)) [
    | inl lands ↦ rw lands (grant_client-server c (unwrap id) w)
    | inr misses ↦ rw misses refl
  ]

  -- One from a location too, unless it ends on that location itself.
  pub on_connect-server_node :
      (a id : Text) (w : World S MapState)
      → (on_connect P servers clients
          (record { source = some (nid a); target = some id })
          w).1.server
        ≡ (if is_node_id id
            then (if a == unwrap id then w.server else (P (link_nodes a (unwrap id)) w.server).1)
            else w.server)
  unfolding on_connect carry_out wish_of ends wish_between nid is_client_id is_group_id is_node_id
      unwrap starts_with
  on_connect-server_node a id w = elim (Bool-cases (is_node_id id)) [
    | inl lands ↦ rw lands (link_pair-server a (unwrap id) w)
    | inr misses ↦ rw misses refl
  ]
