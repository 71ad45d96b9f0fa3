-- ===== src/Graph/Links.antt =====
-- The links of the map: each live link is drawn as what it is, and a bus is drawn once.
use beauty_awg.Base.{
  ◌≡◌, refl, ap, ◌∙◌, ◌⊎◌, inl, inr, Bool, true, false, ◌&&◌, ◌||◌, not, List, [], ◌∷◌, arith, Text,
  ◌==◌, eq_iff, eq_refl, any, All, All-if, sym, if◌then◌else◌,
}
use beauty_awg.Base.Sets
use beauty_awg.Base.Sets.{includes, Nodup}
use beauty_awg.Base.Dict.{Dict, lookup}
use beauty_awg.Api.{NodeLink}
use beauty_awg.Graph.{nid, link_edge_id, bus_edge_id}
use beauty_awg.Graph.Pairs.{Tx, is_mutual, is_live}
use beauty_awg.Graph.Relations.{Rel, is_splitting, link_rels, bus_rel, arrow_rel}

-- The ids of the buses, in the order in which they are drawn.
abbrev pub bus_ids : List Rel → List Text
bus_ids [] = []
bus_ids (r ∷ rs) = if r.bus then r.id ∷ bus_ids rs else bus_ids rs

-- The plain arrow of a link is drawn.
abbrev pub has_arrow : List Rel → NodeLink → Bool
has_arrow rels l =
    any
      (λ r.
        not r.bus
        && (r.id == link_edge_id l.src l.dst && (r.source == nid l.src && r.target == nid l.dst)))
      rels

module _ (alive : Text → Bool) (both : List Text) (txs : Dict Tx) where
  bus_ids-new :
      (drawn : List Text) (links : List NodeLink) (id : Text)
      → includes drawn id ≡ true
      → includes (bus_ids (link_rels alive both txs drawn links)) id ≡ false
  unfolding link_rels includes bus_rel arrow_rel
  bus_ids-new drawn [] id h = refl
  bus_ids-new drawn (l ∷ ls) id h =
      let b = bus_edge_id l.src l.dst in
      ground (
        arith,
        bus_ids-new drawn ls id h,
        bus_ids-new (Sets.add drawn b) ls id,
        Sets.includes-add drawn b id,
        eq_iff b id,
        λ (e : b ≡ id). ap (includes drawn) e,
      )

  bus_ids-Nodup :
      (drawn : List Text) (links : List NodeLink)
      → Nodup (bus_ids (link_rels alive both txs drawn links))
  unfolding link_rels bus_rel arrow_rel
  bus_ids-Nodup drawn [] = tt
  bus_ids-Nodup drawn (l ∷ ls) =
      let b = bus_edge_id l.src l.dst in
      ground (
        arith,
        bus_ids-Nodup drawn ls,
        bus_ids-Nodup (Sets.add drawn b) ls,
        bus_ids-new (Sets.add drawn b) ls b,
        Sets.includes-add drawn b b,
        eq_refl b,
      )

  -- A link is drawn as what it is: a bus if the opposite link is there or a collapse is playing,
  -- an arrow otherwise. A bus may be drawn before.
  abbrev pub is_drawn : List Text → List Rel → NodeLink → Bool
  is_drawn drawn rels l =
      let b = bus_edge_id l.src l.dst in
      if is_mutual both l || is_splitting (lookup b txs)
      then includes drawn b || includes (bus_ids rels) b
      else has_arrow rels l

abbrev pub IsIn : NodeLink → List NodeLink → Type 0
IsIn l [] = ⊥
IsIn l (x ∷ xs) = (l ≡ x) ⊎ IsIn l xs

module _ (alive : Text → Bool) (both : List Text) (txs : Dict Tx) where
  is_drawn_first :
      (drawn : List Text) (l : NodeLink) (ls : List NodeLink)
      → is_live alive l ≡ true
      → is_drawn alive both txs drawn (link_rels alive both txs drawn (l ∷ ls)) l ≡ true
  unfolding link_rels includes any bus_rel arrow_rel
  is_drawn_first drawn l ls h = ground (
    arith,
    eq_refl (bus_edge_id l.src l.dst),
    eq_refl (link_edge_id l.src l.dst),
    eq_refl (nid l.src),
    eq_refl (nid l.dst),
  )

  is_drawn_later :
      (drawn : List Text) (x l : NodeLink) (ls : List NodeLink)
      → is_drawn alive both txs drawn (link_rels alive both txs drawn ls) l ≡ true
      → is_drawn alive both txs
          (Sets.add drawn (bus_edge_id x.src x.dst))
          (link_rels alive both txs (Sets.add drawn (bus_edge_id x.src x.dst)) ls)
          l
        ≡ true
      → is_drawn alive both txs drawn (link_rels alive both txs drawn (x ∷ ls)) l ≡ true
  unfolding link_rels includes any bus_rel arrow_rel
  is_drawn_later drawn x l ls h k =
      ground (arith, Sets.includes-add drawn (bus_edge_id x.src x.dst) (bus_edge_id l.src l.dst))

  link_rels-is_drawn :
      (drawn : List Text) (links : List NodeLink) (l : NodeLink)
      → IsIn l links
      → is_live alive l ≡ true
      → is_drawn alive both txs drawn (link_rels alive both txs drawn links) l ≡ true
  link_rels-is_drawn drawn [] l m h = absurd m
  link_rels-is_drawn drawn (x ∷ xs) l (inl e) h =
      rw e (is_drawn_first drawn x xs (ap (is_live alive) (sym e) ∙ h))
  link_rels-is_drawn drawn (x ∷ xs) l (inr m) h =
      is_drawn_later drawn x l xs (link_rels-is_drawn drawn xs l m h)
        (link_rels-is_drawn (Sets.add drawn (bus_edge_id x.src x.dst)) xs l m h)

  -- Every link between active locations is on the map, as one bus where the opposite link exists
  -- or a collapse is playing, as an arrow otherwise; and no bus is drawn twice, whatever links the
  -- data repeats.
  pub link_rels_complete :
      (links : List NodeLink)
      → ((l : NodeLink)
          → IsIn l links
          → is_live alive l ≡ true
          → is_drawn alive both txs [] (link_rels alive both txs [] links) l ≡ true)
        × Nodup (bus_ids (link_rels alive both txs [] links))
  link_rels_complete links = (link_rels-is_drawn [] links, bus_ids-Nodup alive both txs [] links)

  -- The two cards that a line joins are those of a live link.
  abbrev pub stands_for : List NodeLink → Rel → Bool
  stands_for links r =
      any (λ l. is_live alive l && (r.source == nid l.src && r.target == nid l.dst)) links

  stands_for_cons :
      (l : NodeLink) (ls : List NodeLink) (rels : List Rel)
      → All (λ r. stands_for ls r ≡ true) rels
      → All (λ r. stands_for (l ∷ ls) r ≡ true) rels
  unfolding any
  stands_for_cons l ls [] h = tt
  stands_for_cons l ls (r ∷ rs) (p, h) = (ground arith, stands_for_cons l ls rs h)

  -- Every line between locations stands for a live link of the data.
  pub link_rels_sound :
      (drawn : List Text) (links : List NodeLink)
      → All (λ r. stands_for links r ≡ true) (link_rels alive both txs drawn links)
  unfolding link_rels any bus_rel arrow_rel
  link_rels_sound drawn [] = tt
  link_rels_sound drawn (l ∷ ls) =
      let b = bus_edge_id l.src l.dst in
      let skipped =
        stands_for_cons l ls (link_rels alive both txs drawn ls) (link_rels_sound drawn ls) in
      let bussed =
        stands_for_cons l ls (link_rels alive both txs (Sets.add drawn b) ls)
          (link_rels_sound (Sets.add drawn b) ls) in
      All-if _ (is_live alive l) _ _
        (λ live.
          let own : (r : Rel)
              → (r.source ≡ nid l.src)
              → (r.target ≡ nid l.dst)
              → stands_for (l ∷ ls) r ≡ true =
            λ r p q. rw (live, p, q, eq_refl (nid l.src), eq_refl (nid l.dst)) in
          All-if _ (is_mutual both l || is_splitting (lookup b txs)) _ _
            (λ m.
              All-if _ (includes drawn b) _ _ (λ old. skipped)
                (λ new. (own (bus_rel l (lookup b txs)) refl refl, bussed)))
            (λ a. (own (arrow_rel l) refl refl, skipped)))
        (λ dead. skipped)
