-- ===== src/Graph/Highlight/Landing.antt =====
-- Where a connection may land on the map of AccessGraph.tsx, and what is lit.
use beauty_awg.Base.{
  ◌≡◌, Bool, ◌&&◌, ◌||◌, not, Option, some, List, [], ◌∷◌, arith, Text, ◌==◌, any, if◌then◌else◌,
  map,
}
use beauty_awg.Base.Sets
use beauty_awg.Base.Sets.{includes}
use beauty_awg.Groups.{Group}
use beauty_awg.Graph.{cid}
use beauty_awg.Graph.Relations.{Rel}
use beauty_awg.Graph.Access.{Connection}
use beauty_awg.Graph.Highlight.{
  connect_rels, connected, anchor_of, add_selected, holder_members, holder_of, is_dim,
}

-- The connection from one card to another.
abbrev pub drawn : Text → Text → Connection
drawn from id = record { source = some from; target = some id }

includes-connect_rels :
    (anchor : Text) (lit : List Text) (rels : List Rel) (id : Text)
    → includes (connect_rels anchor lit rels) id ≡ (
        includes lit id
        || any
            (λ r. r.source == anchor && r.target == id || r.target == anchor && r.source == id)
            rels)
unfolding connect_rels any
includes-connect_rels anchor lit [] id = ground arith
includes-connect_rels anchor lit (r ∷ rs) id =
    let one = if r.source == anchor then Sets.add lit r.target else lit in
    ground (
      arith,
      includes-connect_rels anchor (if r.target == anchor then Sets.add one r.source else one) rs
          id,
      Sets.includes-add one r.source id,
      Sets.includes-add lit r.target id,
    )

-- A member of the selected device's group, the anchor and the selection itself.
abbrev pub is_companion : List Group → Option Text → Text → Text → Bool
is_companion live sel anchor id =
    includes (add_selected sel (anchor ∷ [])) id
    || includes (map cid (holder_members (holder_of live sel))) id

-- With an anchor, a card is faded exactly when it is neither the anchor, the selected card or a card
-- of its group, nor joined to the anchor by a line.
pub is_dim-lines :
    (live : List Group) (sel : Option Text) (rels : List Rel) (id anchor : Text)
    → anchor_of live sel ≡ some anchor
    → is_dim live sel rels id
      ≡ not (
          is_companion live sel anchor id
          || any
              (λ r. r.source == anchor && r.target == id || r.target == anchor && r.source == id)
              rels)
unfolding is_dim connected
is_dim-lines live sel rels id anchor h =
    let start = add_selected sel (anchor ∷ []) in
    let kin = map cid (holder_members (holder_of live sel)) in
    rw (is_dim, connected, h)
      (ground (
        arith,
        includes-connect_rels anchor (Sets.add_all start kin) rels id,
        Sets.includes-add_all start kin id,
      ))
