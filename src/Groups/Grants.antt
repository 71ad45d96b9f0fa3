-- ===== src/Groups/Grants.antt =====
-- Which group a device belongs to, and what a group grants.
use beauty_awg.Base.{
  ◌≡◌, refl, ap, ◌↔◌, Bool, true, false, ◌||◌, none, some, List, [], ◌∷◌, arith, Text, find, any,
  find-eq-some,
}
use beauty_awg.Base.Sets
use beauty_awg.Base.Sets.{includes, Nodup}
use beauty_awg.Base.Dict.{Dict}
use beauty_awg.Groups.{
  Group, group_of, members_of, grouped_client_ids, grants_of, group_grants_from, group_grants,
}

-- Some member is granted the location.
abbrev pub granted_to_any : List Text → Dict (List Text) → Text → Bool
granted_to_any ms grants node = any (λ m. includes (grants_of grants m) node) ms

includes-group_grants_from :
    (out ms : List Text) (grants : Dict (List Text)) (node : Text)
    → includes (group_grants_from out ms grants) node
      ≡ (includes out node || granted_to_any ms grants node)
unfolding group_grants_from any
includes-group_grants_from out [] grants node = ground arith
includes-group_grants_from out (m ∷ ms) grants node = ground (
  arith,
  includes-group_grants_from (Sets.add_all out (grants_of grants m)) ms grants node,
  Sets.includes-add_all out (grants_of grants m) node,
)

group_grants_from-Nodup :
    (out ms : List Text) (grants : Dict (List Text))
    → Nodup out
    → Nodup (group_grants_from out ms grants)
unfolding group_grants_from
group_grants_from-Nodup out [] grants h = h
group_grants_from-Nodup out (m ∷ ms) grants h =
    group_grants_from-Nodup (Sets.add_all out (grants_of grants m)) ms grants
      (Sets.add_all-Nodup out (grants_of grants m) h)

-- A group grants exactly the locations that some member is granted, and lists each once.
pub group_grants-union :
    (g : Group) (grants : Dict (List Text))
    → ((node : Text) → includes (group_grants g grants) node ≡ granted_to_any g.members grants node)
      × Nodup (group_grants g grants)
unfolding group_grants includes
group_grants-union g grants =
    (includes-group_grants_from [] g.members grants, group_grants_from-Nodup [] g.members grants tt)

-- The members agree: each has the same access as `access`.
abbrev pub Agree : (Text → Bool) → List Text → Dict (List Text) → Type 0
Agree access [] grants = Unit
Agree access (m ∷ ms) grants =
    ((node : Text) → includes (grants_of grants m) node ≡ access node) × Agree access ms grants

any-Agree :
    (access : Text → Bool) (ms : List Text) (grants : Dict (List Text)) (node : Text)
    → Agree access ms grants
    → granted_to_any ms grants node ≡ true
    → access node ≡ true
unfolding any
any-Agree access [] grants node h k = cc
any-Agree access (m ∷ ms) grants node (h, hs) k =
    ground (arith, h node, any-Agree access ms grants node hs)

-- In a settled group, one whose members all have the same access, the union is that access.
group_grants_settled :
    (g : Group) (grants : Dict (List Text)) (access : Text → Bool) (m : Text) (ms : List Text)
    → g.members ≡ m ∷ ms
    → Agree access g.members grants
    → (node : Text) → includes (group_grants g grants) node ≡ access node
unfolding any
group_grants_settled g grants access m ms e h node =
    let agree : Agree access (m ∷ ms) grants = rw e at h in
    ground (
      arith,
      (group_grants-union g grants).0 node,
      any-Agree access (m ∷ ms) grants node agree,
      ap (λ l. granted_to_any l grants node) e,
      agree.0 node,
    )

includes-members_of :
    (gs : List Group) (c : Text) → includes (members_of gs) c ≡ any (λ g. includes g.members c) gs
unfolding members_of any includes
includes-members_of [] c = refl
includes-members_of (g ∷ gs) c =
    ground (arith, includes-members_of gs c, Sets.includes-append g.members (members_of gs) c)

find-none-any : (p : Group → Bool) (gs : List Group) → (find p gs ≡ none) ↔ (any p gs ≡ false)
unfolding find any
find-none-any p [] = (λ _. refl, λ _. refl)
find-none-any p (g ∷ gs) = ground (arith, find-none-any p gs)

-- A device is drawn loose exactly when no group holds it, and the group that is found for a
-- device holds it.
pub group_of-grouped_client_ids :
    (gs : List Group) (c : Text)
    → ((group_of gs c ≡ none) ↔ (includes (grouped_client_ids gs) c ≡ false))
      × ((g : Group) → group_of gs c ≡ some g → includes g.members c ≡ true)
unfolding group_of grouped_client_ids
group_of-grouped_client_ids gs c = (
  ground (
    arith,
    find-none-any (λ g. includes g.members c) gs,
    includes-members_of gs c,
    Sets.includes-to_set (members_of gs) c,
  ),
  λ g e. find-eq-some (λ g. includes g.members c) gs g e,
)
