-- ===== src/Graph/Highlight/Anchors.antt =====
-- The selection that is drawn and the one that the handlers use.
use beauty_awg.Base.{
  ◌≡◌, refl, ap, Bool, true, false, Option, none, some, List, [], ◌∷◌, ◌++◌, arith, Text, ◌==◌, map,
  find, any, filter, starts_with, if◌then◌else◌, Bool-cases, inl, inr,
}
use beauty_awg.Base.Sets
use beauty_awg.Base.Sets.{includes}
use beauty_awg.Api.{VpnNode, Client}
use beauty_awg.Groups.{Group, gid}
use beauty_awg.Graph.{cid, nid, unwrap, is_client_id}
use beauty_awg.Graph.Relations.{Rel, live_groups}
use beauty_awg.Graph.Access.{selection_anchor, in_selection, Edge}
use beauty_awg.Graph.Highlight.{
  card_ids, shown_selection, holder_of, anchor_with, anchor_of, look_of, is_editable,
}

-- The line as React Flow hands it to the handlers.
abbrev pub edge_of : Rel → Edge
edge_of r = record { id = r.id; source = r.source; target = r.target }

has_client : List Client → Text → Bool
has_client clients id = any (λ c. c.id == id) clients

includes-live :
    (clients : List Client) (ms : List Text) (id : Text)
    → any (λ c. c.id == id) clients ≡ true
    → includes (filter (λ m. any (λ c. c.id == m) clients) ms) id ≡ includes ms id
includes-live clients ms id h =
    ground (arith, Sets.includes-filter (λ m. any (λ c. c.id == m) clients) ms id)

anchor_of-live :
    (groups : List Group) (clients : List Client) (id : Text)
    → is_client_id id ≡ true
    → any (λ c. c.id == unwrap id) clients ≡ true
    → anchor_with
        (find (λ g. includes g.members (unwrap id)) (live_groups groups clients))
        (some id)
      ≡ selection_anchor (some id) groups
unfolding live_groups find selection_anchor anchor_with
anchor_of-live [] clients id k h = rw k refl
anchor_of-live (g ∷ gs) clients id k h =
    ground (arith, includes-live clients g.members (unwrap id) h, anchor_of-live gs clients id k h)

cid_of_client_id : (id : Text) → is_client_id id ≡ true → id ≡ cid (unwrap id)
unfolding is_client_id cid unwrap starts_with
cid_of_client_id [] h = cc
cid_of_client_id (c ∷ []) h = ground arith
cid_of_client_id (c ∷ d ∷ id) h = ground arith

includes-cids :
    (clients : List Client) (u : Text)
    → includes (map (λ c. cid c.id) clients) (cid u) ≡ any (λ c. c.id == u) clients
unfolding includes any cid ◌==◌
includes-cids [] u = refl
includes-cids (c ∷ cs) u = ground (arith, includes-cids cs u)

includes-nids :
    (servers : List VpnNode) (u : Text) → includes (map (λ n. nid n.id) servers) (cid u) ≡ false
unfolding includes nid cid ◌==◌
includes-nids [] u = refl
includes-nids (n ∷ ns) u = includes-nids ns u

includes-gids :
    (groups : List Group) (u : Text) → includes (map (λ g. gid g.id) groups) (cid u) ≡ false
unfolding includes gid cid ◌==◌
includes-gids [] u = refl
includes-gids (g ∷ gs) u = includes-gids gs u

-- The card of a device is on the map when the device is there.
has_card :
    (servers : List VpnNode) (clients : List Client) (live : List Group) (id : Text)
    → is_client_id id ≡ true
    → includes (card_ids servers clients live) id ≡ true
    → any (λ c. c.id == unwrap id) clients ≡ true
unfolding card_ids
has_card servers clients live id k h = ground (
  arith,
  cid_of_client_id id k,
  ap (includes (map (λ c. cid c.id) clients)) (cid_of_client_id id k),
  ap (includes (map (λ n. nid n.id) servers)) (cid_of_client_id id k),
  ap (includes (map (λ g. gid g.id) live)) (cid_of_client_id id k),
  Sets.includes-append (map (λ c. cid c.id) clients)
      (map (λ n. nid n.id) servers ++ map (λ g. gid g.id) live) id,
  Sets.includes-append (map (λ n. nid n.id) servers) (map (λ g. gid g.id) live) id,
  includes-cids clients (unwrap id),
  includes-nids servers (unwrap id),
  includes-gids live (unwrap id),
)

drawn_anchor :
    (servers : List VpnNode) (clients : List Client) (groups : List Group) (id : Text)
    → includes (card_ids servers clients (live_groups groups clients)) id ≡ true
    → anchor_of (live_groups groups clients) (some id) ≡ selection_anchor (some id) groups
unfolding anchor_of holder_of
drawn_anchor servers clients groups id h = elim (Bool-cases (is_client_id id)) [
  | inl c ↦ rw c (
      anchor_of-live groups clients id c
        (has_card servers clients (live_groups groups clients) id c h))
  | inr other ↦ rw other (unfold selection_anchor anchor_with in rw other refl)
]

is_editable-in_selection :
    (anchor : Option Text) (r : Rel)
    → is_editable (look_of anchor r) ≡ in_selection anchor (edge_of r)
unfolding is_editable look_of in_selection
is_editable-in_selection none r = refl
is_editable-in_selection (some a) r = ground arith

all_editable : (live : List Group) (r : Rel) → is_editable (look_of (anchor_of live none) r) ≡ true
unfolding is_editable look_of anchor_of holder_of anchor_with
all_editable live r = refl

-- While the selected card is on the map, the selection that lines are drawn by is the one that the
-- handlers test, so a line can be edited on the map exactly when a handler lets its edit through.
-- When the card is gone every line is drawn as editable, though the handlers still keep the old
-- selection.
pub anchors-agree :
    (servers : List VpnNode) (clients : List Client) (groups : List Group) (id : Text) (r : Rel)
    → let live = live_groups groups clients in
      let cards = card_ids servers clients live in
      is_editable (look_of (anchor_of live (shown_selection cards (some id))) r) ≡ (
        if includes cards id
        then in_selection (selection_anchor (some id) groups) (edge_of r)
        else true)
unfolding shown_selection
anchors-agree servers clients groups id r =
    elim (Bool-cases (includes (card_ids servers clients (live_groups groups clients)) id)) [
      | inr gone ↦ rw gone (all_editable (live_groups groups clients) r)
      | inl there ↦
          rw (there, drawn_anchor servers clients groups id there)
            (is_editable-in_selection (selection_anchor (some id) groups) r)
    ]
