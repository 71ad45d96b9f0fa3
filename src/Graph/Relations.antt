-- ===== src/Graph/Relations.antt =====
-- AccessGraph.tsx: the lines of the map, built from the devices, the groups and the links.
use beauty_awg.Base.{
  Bool, true, false, ◌||◌, not, Option, none, some, List, [], ◌∷◌, ◌++◌, Text, ◌==◌, map, filter,
  any, if◌then◌else◌,
}
use beauty_awg.Base.Sets
use beauty_awg.Base.Dict.{Dict, lookup, insert}
use beauty_awg.Api.{VpnNode, Client, NodeLink, Status, active}
use beauty_awg.Groups.{Group, gid, group_grants, grouped_client_ids}
use beauty_awg.Graph.{cid, nid, grant_edge_id, link_edge_id, bus_edge_id}
use beauty_awg.Graph.Pairs.{Tx, form, split, is_mutual, is_live, link_keys}

pub record Rel : Type 0 where
  pub id : Text
  pub source : Text
  pub target : Text
  pub link : Bool
  pub bus : Bool
  pub tx : Option Tx

is_active : Status → Bool
is_active active = true
is_active _ = false

-- `servers`
unfoldable pub servers_of : List VpnNode → List VpnNode
unfolding is_active
servers_of nodes = filter (λ n. is_active n.status) nodes

-- `servers.some((s) => s.id === id)`
unfoldable pub is_server : List VpnNode → Text → Bool
is_server servers id = any (λ s. s.id == id) servers

-- Members whose devices are gone are left out.
live_group : List Client → Group → Group
live_group clients g = record g { members = filter (λ m. any (λ c. c.id == m) clients) g.members }

unfoldable pub live_groups : List Group → List Client → List Group
unfolding live_group
live_groups groups clients = map (live_group clients) groups

unfoldable pub grants_from : Dict (List Text) → List Client → Dict (List Text)
grants_from d [] = d
grants_from d (c ∷ cs) = grants_from (insert c.id c.granted_nodes d) cs

unfoldable pub grants_by_client : List Client → Dict (List Text)
unfolding grants_from
grants_by_client clients = grants_from [] clients

unfoldable pub loose_clients : List Text → List Client → List Client
loose_clients in_group clients = filter (λ c. not (Sets.includes in_group c.id)) clients

-- The lines of one card to the locations that it is granted and that are active.
unfoldable pub grant_rels : List VpnNode → Text → Text → List Text → List Rel
grant_rels servers owner source [] = []
grant_rels servers owner source (n ∷ ns) =
    if is_server servers n
    then record {
      id = grant_edge_id owner n;
      source = source;
      target = nid n;
      link = false;
      bus = false;
      tx = none;
    }
      ∷ grant_rels servers owner source ns
    else grant_rels servers owner source ns

unfoldable pub client_rels : List VpnNode → List Client → List Rel
client_rels servers [] = []
client_rels servers (c ∷ cs) =
    grant_rels servers c.id (cid c.id) c.granted_nodes ++ client_rels servers cs

unfoldable pub group_rels : List VpnNode → Dict (List Text) → List Group → List Rel
group_rels servers grants [] = []
group_rels servers grants (g ∷ gs) =
    grant_rels servers (gid g.id) (gid g.id) (group_grants g grants) ++ group_rels servers grants gs

unfoldable pub bus_rel : NodeLink → Option Tx → Rel
bus_rel l tx = record {
  id = bus_edge_id l.src l.dst;
  source = nid l.src;
  target = nid l.dst;
  link = true;
  bus = true;
  tx = tx;
}

unfoldable pub arrow_rel : NodeLink → Rel
arrow_rel l = record {
  id = link_edge_id l.src l.dst;
  source = nid l.src;
  target = nid l.dst;
  link = true;
  bus = false;
  tx = none;
}

-- `tx?.kind === "split"`
unfoldable pub is_splitting : Option Tx → Bool
is_splitting none = false
is_splitting (some t) = elim t.kind [ split ↦ true | form ↦ false ]

-- The loop over the links; `drawn` are the buses that are there already.
unfoldable pub link_rels :
    (Text → Bool) → List Text → Dict Tx → List Text → List NodeLink → List Rel
unfolding bus_rel arrow_rel
link_rels alive both txs drawn [] = []
link_rels alive both txs drawn (l ∷ ls) =
    let bus_id = bus_edge_id l.src l.dst in
    let tx = lookup bus_id txs in
    let skipped = link_rels alive both txs drawn ls in
    let bussed = bus_rel l tx ∷ link_rels alive both txs (Sets.add drawn bus_id) ls in
    if is_live alive l
    then if is_mutual both l || is_splitting tx
      then if Sets.includes drawn bus_id then skipped else bussed
      else arrow_rel l ∷ skipped
    else skipped

-- `rels`
unfoldable pub relations :
    List VpnNode → List Client → List Group → List NodeLink → Dict Tx → List Rel
relations servers clients groups links txs =
    let live = live_groups groups clients in
    client_rels servers (loose_clients (grouped_client_ids live) clients)
    ++ (group_rels servers (grants_by_client clients) live
        ++ link_rels (is_server servers) (link_keys links) txs [] links)
