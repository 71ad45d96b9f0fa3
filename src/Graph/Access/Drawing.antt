-- ===== src/Graph/Access/Drawing.antt =====
-- Lines that are drawn on the map of AccessGraph.tsx, read back from what they join.
use beauty_awg.Base.{◌≡◌, refl, ap, ◌≢◌, true, false, some, [], ◌∷◌, arith, Text, All, starts_with}
use beauty_awg.Groups.{gid, is_group_id}
use beauty_awg.Graph.{
  cid, nid, unwrap, is_client_id, is_node_id, part, link_edge_id, is_link_edge, bus_edge_id,
  is_bus_edge, grant_edge_id, first_of, second_of,
}
use beauty_awg.Graph.Ids.{IsPlain, edge_ids-parse}
use beauty_awg.Graph.Access.{
  client_line, group_line, link_line, bus_line, line_of, wish_of, wish_between, client_grant,
  group_grant, node_link, no_wish,
}

-- An id without a colon, as a UUID is.
abbrev pub HasNoColon : Text → Type 0
HasNoColon id = All (λ c. c ≢ b':') id

grant_edge_id_plain :
    (a b : Text)
    → HasNoColon a
    → (is_link_edge (grant_edge_id a b) ≡ false) × (is_bus_edge (grant_edge_id a b) ≡ false)
unfolding is_link_edge is_bus_edge grant_edge_id starts_with
grant_edge_id_plain [] b h = (refl, refl)
grant_edge_id_plain (c ∷ []) b h = ground arith
grant_edge_id_plain (c ∷ d ∷ []) b h = ground arith
grant_edge_id_plain (c ∷ d ∷ e ∷ []) b h = ground arith
grant_edge_id_plain (c ∷ d ∷ e ∷ f ∷ a) b h = ground arith

is_link_edge-link_edge_id : (a b : Text) → is_link_edge (link_edge_id a b) ≡ true
unfolding is_link_edge link_edge_id starts_with
is_link_edge-link_edge_id a b = refl

is_bus_edge-bus_edge_id : (a b : Text) → is_bus_edge (bus_edge_id a b) ≡ true
unfolding is_bus_edge bus_edge_id starts_with
is_bus_edge-bus_edge_id a b = refl

-- For ids of the backend, a connection that the user draws asks for the access between the two
-- cards it joins, whatever the kinds of the cards, and a line of each kind is taken, when it is
-- deleted, for what it was drawn for: the device's grant, the group's, the link in its
-- direction, or both links of a bus.
pub line_of-drawn :
    (a b : Text)
    → IsPlain a
    → IsPlain b
    → HasNoColon a
    → (wish_of (record { source = some (cid a); target = some (nid b) }) ≡ client_grant a b)
      × (wish_of (record { source = some (gid a); target = some (nid b) }) ≡ group_grant a b)
      × (wish_of (record { source = some (nid a); target = some (nid b) }) ≡ node_link a b)
      × (wish_of (record { source = some (nid a); target = some (cid b) }) ≡ no_wish)
      × (line_of (record { id = grant_edge_id a b; source = cid a; target = nid b })
          ≡ client_line a b)
      × (line_of (record { id = grant_edge_id (gid a) b; source = gid a; target = nid b })
          ≡ group_line a b)
      × (line_of (record { id = link_edge_id a b; source = nid a; target = nid b }) ≡ link_line a b)
      × (line_of (record { id = bus_edge_id a b; source = nid a; target = nid b })
          ≡ bus_line (first_of a b) (second_of a b))
unfolding wish_of wish_between line_of is_group_id is_client_id is_node_id gid cid nid unwrap
    starts_with
line_of-drawn a b h k plain =
    let (link, bus, comm, own, group, marks, not_bus, not_link) = edge_ids-parse a b h k in
    let (p, q) = grant_edge_id_plain a b plain in
    (
      refl,
      refl,
      refl,
      refl,
      rw (p, q, own) refl,
      ap (λ ps. group_line a (part ps 1)) group,
      rw (not_bus, is_link_edge-link_edge_id a b, link) refl,
      rw (is_bus_edge-bus_edge_id a b, bus) refl,
    )
