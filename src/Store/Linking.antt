-- ===== src/Store/Linking.antt =====
-- `SetNodeLink` of internal/store/node_links.go: when a link is stored.
use beauty_awg.Base.{
  ◌≡◌, refl, Bool, true, false, ◌&&◌, not, Option, none, some, List, [], ◌∷◌, arith, Text, ◌==◌,
  eq_refl, find, any, any-append,
}
use beauty_awg.Store.{
  Database, Platform, Location, set_node_link, subnets_error, active_location, ends_error, is_link,
  unless_error, insert_link,
}

-- That there is a location and it is not the hub.
abbrev pub is_home : Option Location → Bool
is_home none = false
is_home (some l) = not l.is_hub

abbrev pub has_some : List Text → Bool
has_some [] = false
has_some (s ∷ ss) = true

module _ (X : Platform) where
  -- Both have subnets, and none of the one overlaps one of the other.
  abbrev pub fits : Location → Option Location → Bool
  fits a none = true
  fits a (some b) =
      has_some a.subnets
      && (has_some b.subnets && not (any (λ s. any (X.overlaps s) b.subnets) a.subnets))

  find-none : (p : Text → Bool) (ss : List Text) → any p ss ≡ false → find p ss ≡ none
  unfolding any find
  find-none p [] h = refl
  find-none p (s ∷ ss) h = ground (arith, find-none p ss)

  subnets_fit :
      (ss bs : List Text)
      → any (λ s. any (X.overlaps s) bs) ss ≡ false
      → subnets_error X ss bs ≡ none
  unfolding any subnets_error
  subnets_fit [] bs h = refl
  subnets_fit (a ∷ ss) bs h = ground (arith, subnets_fit ss bs, find-none (X.overlaps a) bs)

  -- Between a location that may be linked and another that is there, the hub is the only obstacle
  -- where the subnets fit.
  unless_error-links :
      (src dst : Text) (db : Database) (a : Location) (b : Option Location)
      → a.is_hub ≡ false
      → fits a b ≡ true
      → any (is_link X src dst) db.links ≡ false
      → any (is_link X src dst) (unless_error X (ends_error X (some a) b) src dst db).1.links
        ≡ is_home b
  unfolding unless_error insert_link ends_error any
  unless_error-links src dst db a none spoke fit new = new
  unless_error-links src dst db a (some b) spoke fit new = ground (
    arith,
    subnets_fit a.subnets b.subnets,
    eq_refl src,
    eq_refl dst,
    any-append (is_link X src dst) db.links (record { src = src; dst = dst } ∷ []),
  )

  pub set_node_link-links :
      (src dst : Text) (db : Database) (a : Location)
      → active_location X db.locations src ≡ some a
      → a.is_hub ≡ false
      → fits a (active_location X db.locations dst) ≡ true
      → any (is_link X src dst) db.links ≡ false
      → any (is_link X src dst) (set_node_link X src dst db).1.links
        ≡ (not (src == dst) && is_home (active_location X db.locations dst))
  unfolding set_node_link
  set_node_link-links src dst db a there spoke fit new = ground (
    arith,
    unless_error-links src dst db a (active_location X db.locations dst) spoke fit new,
    there,
  )
