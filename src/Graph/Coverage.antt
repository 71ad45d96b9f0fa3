-- ===== src/Graph/Coverage.antt =====
-- The lines of the map are exactly the access and the links that there are.
use beauty_awg.Base.{
  ◌≡◌, refl, ap, Bool, false, ◌&&◌, not, List, [], ◌∷◌, ◌++◌, arith, Text, ◌==◌, eq_iff, any,
  any-append, any_congr, filter,
}
use beauty_awg.Base.Sets
use beauty_awg.Base.Sets.{includes, Nodup}
use beauty_awg.Base.Dict.{Dict}
use beauty_awg.Api.{VpnNode, Client, NodeLink}
use beauty_awg.Groups.{Group, gid, group_grants, grouped_client_ids}
use beauty_awg.Groups.Grants.{granted_to_any, group_grants-union}
use beauty_awg.Graph.{cid, nid, bus_edge_id}
use beauty_awg.Graph.Pairs.{Tx, link_keys}
use beauty_awg.Graph.Relations.{
  Rel, is_server, live_groups, grants_by_client, loose_clients, grant_rels, client_rels, group_rels,
  link_rels, relations,
}

-- A line runs from the one card to the other.
abbrev pub joins : Text → Text → Rel → Bool
joins source target r = r.source == source && r.target == target

abbrev pub has_line : List Rel → Text → Text → Bool
has_line rels source target = any (joins source target) rels

nid_eq : (a b : Text) → (nid a == nid b) ≡ (a == b)
unfolding nid ◌==◌
nid_eq a b = refl

has_line-grant_rels :
    (servers : List VpnNode) (owner source : Text) (nodes : List Text) (from n : Text)
    → has_line (grant_rels servers owner source nodes) from (nid n)
      ≡ (source == from && (is_server servers n && includes nodes n))
unfolding grant_rels any includes
has_line-grant_rels servers owner source [] from n = ground arith
has_line-grant_rels servers owner source (m ∷ ms) from n = ground (
  arith,
  has_line-grant_rels servers owner source ms from n,
  nid_eq m n,
  eq_iff m n,
  λ (e : m ≡ n). ap (is_server servers) e,
)

-- A device is granted a location, by the data of the page.
abbrev pub is_granted : List Client → Text → Text → Bool
is_granted clients c n = any (λ x. x.id == c && includes x.granted_nodes n) clients

has_line-client_rels :
    (servers : List VpnNode) (clients : List Client) (c n : Text)
    → has_line (client_rels servers clients) (cid c) (nid n)
      ≡ (is_server servers n && is_granted clients c n)
unfolding client_rels any cid ◌==◌
has_line-client_rels servers [] c n = ground arith
has_line-client_rels servers (x ∷ xs) c n = ground (
  arith,
  any-append (joins (cid c) (nid n)) (grant_rels servers x.id (cid x.id) x.granted_nodes)
      (client_rels servers xs),
  has_line-grant_rels servers x.id (cid x.id) x.granted_nodes (cid c) n,
  has_line-client_rels servers xs c n,
)

no_line-client_rels :
    (servers : List VpnNode) (clients : List Client) (g n : Text)
    → has_line (client_rels servers clients) (gid g) (nid n) ≡ false
unfolding client_rels any cid gid ◌==◌
no_line-client_rels servers [] g n = refl
no_line-client_rels servers (x ∷ xs) g n = ground (
  arith,
  any-append (joins (gid g) (nid n)) (grant_rels servers x.id (cid x.id) x.granted_nodes)
      (client_rels servers xs),
  has_line-grant_rels servers x.id (cid x.id) x.granted_nodes (gid g) n,
  no_line-client_rels servers xs g n,
)

has_line-group_rels :
    (servers : List VpnNode) (grants : Dict (List Text)) (groups : List Group) (g n : Text)
    → has_line (group_rels servers grants groups) (gid g) (nid n)
      ≡ (is_server servers n && any (λ x. x.id == g && includes (group_grants x grants) n) groups)
unfolding group_rels any gid ◌==◌
has_line-group_rels servers grants [] g n = ground arith
has_line-group_rels servers grants (x ∷ xs) g n = ground (
  arith,
  any-append (joins (gid g) (nid n))
      (grant_rels servers (gid x.id) (gid x.id) (group_grants x grants))
      (group_rels servers grants xs),
  has_line-grant_rels servers (gid x.id) (gid x.id) (group_grants x grants) (gid g) n,
  has_line-group_rels servers grants xs g n,
)

no_line-group_rels :
    (servers : List VpnNode) (grants : Dict (List Text)) (groups : List Group) (c n : Text)
    → has_line (group_rels servers grants groups) (cid c) (nid n) ≡ false
unfolding group_rels any cid gid ◌==◌
no_line-group_rels servers grants [] c n = refl
no_line-group_rels servers grants (x ∷ xs) c n = ground (
  arith,
  any-append (joins (cid c) (nid n))
      (grant_rels servers (gid x.id) (gid x.id) (group_grants x grants))
      (group_rels servers grants xs),
  has_line-grant_rels servers (gid x.id) (gid x.id) (group_grants x grants) (cid c) n,
  no_line-group_rels servers grants xs c n,
)

-- A card's id with another first letter than a location's.
abbrev IsNoNode : Text → Type 0
IsNoNode from = (m : Text) → (nid m == from) ≡ false

no_line-link_rels :
    (alive : Text → Bool) (both : List Text) (txs : Dict Tx) (drawn : List Text)
    (links : List NodeLink) (from n : Text)
    → IsNoNode from
    → has_line (link_rels alive both txs drawn links) from (nid n) ≡ false
unfolding link_rels any
no_line-link_rels alive both txs drawn [] from n h = refl
no_line-link_rels alive both txs drawn (l ∷ ls) from n h = ground (
  arith,
  h l.src,
  no_line-link_rels alive both txs drawn ls from n h,
  no_line-link_rels alive both txs (Sets.add drawn (bus_edge_id l.src l.dst)) ls from n h,
)

is_granted-loose :
    (in_group : List Text) (clients : List Client) (c n : Text)
    → is_granted (loose_clients in_group clients) c n
      ≡ (not (includes in_group c) && is_granted clients c n)
unfolding loose_clients filter any
is_granted-loose in_group [] c n = ground arith
is_granted-loose in_group (x ∷ xs) c n = ground (
  arith,
  is_granted-loose in_group xs c n,
  eq_iff x.id c,
  λ (e : x.id ≡ c). ap (includes in_group) e,
)

module _ (servers : List VpnNode) (clients : List Client) (groups : List Group)
    (links : List NodeLink) (txs : Dict Tx) where
  abbrev live : List Group
  live = live_groups groups clients

  -- A device's card has a line to a location exactly when the location is active, the device is
  -- granted it, and the device is in no group: a member's lines are the group's.
  pub relations-client :
      (c n : Text)
      → has_line (relations servers clients groups links txs) (cid c) (nid n) ≡ (
          not (includes (grouped_client_ids (live_groups groups clients)) c)
          && (is_server servers n && is_granted clients c n))
  unfolding relations
  relations-client c n =
      let in_group = grouped_client_ids live in
      ground (
        arith,
        any-append (joins (cid c) (nid n)) (client_rels servers (loose_clients in_group clients)) (
            group_rels servers (grants_by_client clients) live
            ++ link_rels (is_server servers) (link_keys links) txs [] links),
        any-append (joins (cid c) (nid n)) (group_rels servers (grants_by_client clients) live)
            (link_rels (is_server servers) (link_keys links) txs [] links),
        has_line-client_rels servers (loose_clients in_group clients) c n,
        is_granted-loose in_group clients c n,
        no_line-group_rels servers (grants_by_client clients) live c n,
        no_line-link_rels (is_server servers) (link_keys links) txs [] links (cid c) n
            (λ m. unfold cid nid ◌==◌ in refl),
      )

  -- A group's card has a line to a location exactly when the location is active and some live
  -- member is granted it.
  pub relations-group :
      (g n : Text)
      → has_line (relations servers clients groups links txs) (gid g) (nid n) ≡ (
          is_server servers n
          && any
              (λ x. x.id == g && granted_to_any x.members (grants_by_client clients) n)
              (live_groups groups clients))
  unfolding relations
  relations-group g n =
      let in_group = grouped_client_ids live in
      ground (
        arith,
        any-append (joins (gid g) (nid n)) (client_rels servers (loose_clients in_group clients)) (
            group_rels servers (grants_by_client clients) live
            ++ link_rels (is_server servers) (link_keys links) txs [] links),
        any-append (joins (gid g) (nid n)) (group_rels servers (grants_by_client clients) live)
            (link_rels (is_server servers) (link_keys links) txs [] links),
        no_line-client_rels servers (loose_clients in_group clients) g n,
        has_line-group_rels servers (grants_by_client clients) live g n,
        no_line-link_rels (is_server servers) (link_keys links) txs [] links (gid g) n
            (λ m. unfold gid nid ◌==◌ in refl),
        any_congr (λ x. x.id == g && includes (group_grants x (grants_by_client clients)) n)
            (λ x. x.id == g && granted_to_any x.members (grants_by_client clients) n) live
            (λ x. ap (λ b. x.id == g && b) ((group_grants-union x (grants_by_client clients)).0 n)),
      )
