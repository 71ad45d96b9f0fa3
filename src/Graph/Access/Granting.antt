-- ===== src/Graph/Access/Granting.antt =====
-- The grants that a connection and a deleted line of AccessGraph.tsx leave, on a store of grants.
use beauty_awg.Base.{
  ◌≡◌, refl, ◌∙◌, Bool, true, false, ◌&&◌, ◌||◌, not, Option, none, some, List, [], ◌∷◌, ◌++◌,
  arith, Text, ◌==◌, All, codes, Bool-cases, inl, inr,
}
use beauty_awg.Graph.{grant_edge_id, link_edge_id}
use beauty_awg.Base.Sets.{includes}
use beauty_awg.Groups.{Group}
use beauty_awg.Api.{VpnNode, Client, Panel, ok, grant, revoke, link_nodes, unlink_nodes}
use beauty_awg.Api.Grants.{GrantStore, links, unlinks}
use beauty_awg.Api.Grants.Calls.{
  Keeps, caught_ok, attempt-granted, then-Keeps, call-Keeps, for_each_member-grant,
  for_each_member-revoke,
}
use beauty_awg.Api.Effects.{
  World, M, for_each, call, note, announce, reloaded, report, edge_added, ◌>>◌,
}
use beauty_awg.Graph.State.{MapState}
use beauty_awg.Graph.Access.{
  Connection, Wish, group_grant, client_grant, node_link, no_wish, wish_of, Line, group_line,
  bus_line, link_line, client_line, group_with_id, on_connect, delete_line, carry_out, grant_group,
  grant_client, link_pair, failing, announce_group, revoke_group, group_title, client_name,
  node_name,
}

abbrev pub members_in : Option Group → List Text
members_in none = []
members_in (some g) = g.members

-- The grants that a wish is for.
abbrev pub asks : List Group → Wish → Text → Text → Bool
asks groups (group_grant g node) d n = includes (members_in (group_with_id groups g)) d && node == n
asks groups (client_grant client node) d n = client == d && node == n
asks groups (node_link a b) d n = false
asks groups no_wish d n = false

-- The grants that a line stands for.
abbrev pub carries : List Group → Line → Text → Text → Bool
carries groups (group_line g node) d n =
    includes (members_in (group_with_id groups g)) d && node == n
carries groups (client_line client node) d n = client == d && node == n
carries groups (link_line a b) d n = false
carries groups (bus_line a b) d n = false

module _ {S : Type 0} (P : Panel S) (G : GrantStore P) (servers : List VpnNode)
    (clients : List Client) where
  abbrev AreKnown : World S MapState → Option Group → Text → Type 0
  AreKnown w g node = All (λ m. G.known w.server m node ≡ true) (members_in g)

  -- The store knows the devices and the location that a wish is about.
  abbrev CanGrant : World S MapState → Wish → Type 0
  CanGrant w (group_grant g node) = AreKnown w (group_with_id w.local.groups g) node
  CanGrant w (client_grant client node) = G.known w.server client node ≡ true
  CanGrant w (node_link a b) = Unit
  CanGrant w no_wish = Unit

  announce_group-Keeps :
      (title : Text) (ms : List Text) → Keeps P G (announce_group P servers clients title ms)
  unfolding announce_group
  announce_group-Keeps title [] = λ w d n. refl
  announce_group-Keeps title (m ∷ ms) = λ w d n. refl

  grant_group-granted :
      (g : Option Group) (node : Text) (w : World S MapState)
      → AreKnown w g node
      → ((grant_group P servers clients g node w).0 ≡ ok tt)
        × ((d n : Text)
            → G.granted (grant_group P servers clients g node w).1.server d n
              ≡ (G.granted w.server d n || includes (members_in g) d && node == n))
  unfolding grant_group failing includes
  grant_group-granted none node w h = (refl, λ d n. ground arith)
  grant_group-granted (some g) node w h =
      let (good, held) = for_each_member-grant P G node g.members w h in
      let said = announce_group P servers clients (group_title g) g.members in
      let fail = failing P servers clients (codes "Couldn't give access: ") in
      (
        caught_ok P G _ fail (λ e v. refl),
        λ d n.
            attempt-granted P G (for_each g.members (λ m. call P (grant m node)))
              (λ a. said >> note reloaded) fail w
              (λ a.
                then-Keeps P G said (λ _. note reloaded)
                  (announce_group-Keeps (group_title g) g.members) (λ a w d n. refl))
              (λ e w d n. refl) d n
            ∙ held d n,
      )

  carry_out-granted :
      (wish : Wish) (w : World S MapState)
      → CanGrant w wish
      → ((carry_out P servers clients wish w).0 ≡ ok tt)
        × ((d n : Text)
            → G.granted (carry_out P servers clients wish w).1.server d n
              ≡ (G.granted w.server d n || asks w.local.groups wish d n))
  unfolding carry_out grant_client link_pair failing
  carry_out-granted (group_grant g node) w h =
      grant_group-granted (group_with_id w.local.groups g) node w h
  carry_out-granted (client_grant client node) w h = (
    caught_ok P G _ (failing P servers clients (codes "Couldn't give access: ")) (λ e v. refl),
    λ d n.
        attempt-granted P G (call P (grant client node))
          (λ a. announce (client_name clients client (codes "client")) >> note reloaded)
          (failing P servers clients (codes "Couldn't give access: "))
          (record w { log = w.log ++ (edge_added (grant_edge_id client node) ∷ []) })
          (λ a v d n. refl) (λ e v d n. refl) d n
        ∙ G.granted-grant client node w.server h d n,
  )
  carry_out-granted (node_link a b) w h = elim (Bool-cases (a == b)) [
    | inl same ↦ rw same (refl, λ d n. ground arith)
    | inr apart ↦ rw apart (
      caught_ok P G _ (failing P servers clients (codes "Couldn't link those locations: "))
          (λ e v. refl),
      λ d n.
          attempt-granted P G (call P (link_nodes a b))
            (λ t. announce (node_name servers a (codes "node")) >> note reloaded)
            (failing P servers clients (codes "Couldn't link those locations: "))
            (record w { log = w.log ++ (edge_added (link_edge_id a b) ∷ []) }) (λ t v d n. refl)
            (λ e v d n. refl) d n
          ∙ ground (arith, G.granted-aside (link_nodes a b) w.server links d n),
    )
  ]
  carry_out-granted no_wish w h = (refl, λ d n. ground arith)

  -- A connection that is drawn gives exactly the access that it asks for: a group's to each of its
  -- members, a device's to it, and none between locations or in another direction; the handler
  -- ends without throwing. This holds when the store knows the devices and the location.
  pub on_connect-granted :
      (c : Connection) (w : World S MapState)
      → CanGrant w (wish_of c)
      → ((on_connect P servers clients c w).0 ≡ ok tt)
        × ((d n : Text)
            → G.granted (on_connect P servers clients c w).1.server d n
              ≡ (G.granted w.server d n || asks w.local.groups (wish_of c) d n))
  unfolding on_connect
  on_connect-granted c w = carry_out-granted (wish_of c) w

  revoke_group-granted :
      (g : Option Group) (node : Text) (w : World S MapState)
      → AreKnown w g node
      → ((revoke_group P servers clients g node w).0 ≡ ok tt)
        × ((d n : Text)
            → G.granted (revoke_group P servers clients g node w).1.server d n
              ≡ (G.granted w.server d n && not (includes (members_in g) d && node == n)))
  unfolding revoke_group includes
  revoke_group-granted none node w h = (refl, λ d n. ground arith)
  revoke_group-granted (some g) node w h =
      let (good, held) = for_each_member-revoke P G node g.members w h in
      (
        caught_ok P G _ (report (codes "Couldn't take away access: ")) (λ e v. refl),
        λ d n.
            attempt-granted P G (for_each g.members (λ m. call P (revoke m node)))
              (λ a. announce (group_title g)) (report (codes "Couldn't take away access: ")) w
              (λ a w d n. refl) (λ e w d n. refl) d n
            ∙ held d n,
      )

  -- The store knows the devices and the location that a line is about.
  abbrev CanRevoke : World S MapState → Line → Type 0
  CanRevoke w (group_line g node) = AreKnown w (group_with_id w.local.groups g) node
  CanRevoke w (client_line client node) = G.known w.server client node ≡ true
  CanRevoke w (link_line a b) = Unit
  CanRevoke w (bus_line a b) = Unit

  -- Deleting a line takes away exactly the access that it stands for, and the handler goes on: a
  -- line between locations leaves every device's access, answered or refused. This holds when the
  -- store knows the devices and the location.
  pub delete_line-granted :
      (l : Line) (w : World S MapState)
      → CanRevoke w l
      → ((delete_line P servers clients l w).0 ≡ ok tt)
        × ((d n : Text)
            → G.granted (delete_line P servers clients l w).1.server d n
              ≡ (G.granted w.server d n && not (carries w.local.groups l d n)))
  unfolding delete_line
  delete_line-granted (group_line g node) w h =
      revoke_group-granted (group_with_id w.local.groups g) node w h
  delete_line-granted (bus_line a b) w h =
      let unlink : Text → Text → M S MapState (Unit {0}) = λ x y. call P (unlink_nodes x y) in
      let said : M S MapState (Unit {0}) = announce (node_name servers a (codes "location")) in
      let fail = report (codes "Couldn't remove the link: ") in
      (
        caught_ok P G ((unlink a b >> (unlink b a >> said)) w) fail (λ e v. refl),
        λ d n.
            attempt-granted P G (unlink a b) (λ t. unlink b a >> said) fail w
              (λ t.
                then-Keeps P G (unlink b a) (λ _. said) (call-Keeps P G MapState _ unlinks)
                  (λ t v d n. refl))
              (λ e v d n. refl) d n
            ∙ ground (arith, G.granted-aside (unlink_nodes a b) w.server unlinks d n),
      )
  delete_line-granted (link_line a b) w h =
      let fail = report (codes "Couldn't remove the link: ") in
      (
        caught_ok P G _ fail (λ e v. refl),
        λ d n.
            attempt-granted P G (call P (unlink_nodes a b))
              (λ t. announce (node_name servers a (codes "node"))) fail w (λ t v d n. refl)
              (λ e v d n. refl) d n
            ∙ ground (arith, G.granted-aside (unlink_nodes a b) w.server unlinks d n),
      )
  delete_line-granted (client_line client node) w h =
      let fail = report (codes "Couldn't take away access: ") in
      (
        caught_ok P G _ fail (λ e v. refl),
        λ d n.
            attempt-granted P G (call P (revoke client node))
              (λ t. announce (client_name clients client (codes "client"))) fail w (λ t v d n. refl)
              (λ e v d n. refl) d n
            ∙ G.granted-revoke client node w.server h d n,
      )
