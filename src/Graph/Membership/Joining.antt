-- ===== src/Graph/Membership/Joining.antt =====
-- The access that `joinGroup` of AccessGraph.tsx leaves, on a store of grants.
use beauty_awg.Base.{
  ◌≡◌, refl, ap, ◌∙◌, Bool, true, Option, none, some, List, [], ◌∷◌, ◌++◌, arith, Text, ◌==◌,
  eq_iff, All, codes, if◌then◌else◌,
}
use beauty_awg.Base.Sets.{includes}
use beauty_awg.Groups.{Group, SyncPlan, sync_plan}
use beauty_awg.Groups.Plan.{includes-to_add, includes-to_remove}
use beauty_awg.Api.{
  VpnNode, Client, Panel, ok, grant, revoke, set_layout, Rule, get_grant_exit, get_grant_rules,
  set_grant_exit, set_grant_rules,
}
use beauty_awg.Api.Grants.{
  GrantStore, writes_layout, reads_exit, reads_rules, writes_exit, writes_rules,
}
use beauty_awg.Api.Effects.{World, M, both, for_each, call, ◌>>◌, reloaded, note}
use beauty_awg.Graph.State.{MapState, update_group, save_groups, blob_of, patch_group}
use beauty_awg.Graph.Relations.{grants_by_client}
use beauty_awg.Graph.Membership.{
  join_group, join_target, apply_access, join_failed, copy_all, copy_from, representative,
  warn_reach, announce_change,
}
use beauty_awg.Api.Grants.Calls.{
  Keeps, bind_ok, caught_ok, caught-Keeps, then-Keeps, call-Keeps, known_after, for_each-grant,
  for_each-revoke, for_each-Keeps, both-Keeps,
}

module _ {S : Type 0} (P : Panel S) (G : GrantStore P) where
  module _ (servers : List VpnNode) (clients : List Client) where
    copy_from-Keeps :
        (c : Client) (node : Text) (rep : Option Text)
        → Keeps P G (copy_from P servers clients c node rep)
    unfolding copy_from
    copy_from-Keeps c node none = λ w d n. refl
    copy_from-Keeps c node (some rep) =
        let read_exit : M S MapState Bool = call P (get_grant_exit rep node) in
        let read_rules : M S MapState (List Rule) = call P (get_grant_rules rep node) in
        let write_exit : Bool → M S MapState (Unit {0}) =
          λ e. call P (set_grant_exit c.id node e) in
        let write_rules : List Rule → M S MapState (Unit {0}) =
          λ r. call P (set_grant_rules c.id node r) in
        then-Keeps P G (both read_exit read_rules) (λ a. write_exit a.0 >> write_rules a.1)
          (both-Keeps P G read_exit read_rules (call-Keeps P G MapState _ reads_exit)
            (call-Keeps P G MapState _ reads_rules))
          (λ a.
            then-Keeps P G (write_exit a.0) (λ _. write_rules a.1)
              (call-Keeps P G MapState _ writes_exit) (λ _. call-Keeps P G MapState _ writes_rules))

    copy_all-Keeps :
        (g : Group) (c : Client) (target : List Text)
        → Keeps P G (copy_all P servers clients g c target)
    unfolding copy_all
    copy_all-Keeps g c target =
        for_each-Keeps P G target _
          (λ node. copy_from-Keeps c node (representative g (grants_by_client clients) node))

    warn_reach-Keeps :
        (text : Text) (nodes : List Text) → Keeps P G (warn_reach P servers clients text nodes)
    unfolding warn_reach
    warn_reach-Keeps text [] = λ w d n. refl
    warn_reach-Keeps text (x ∷ xs) = λ w d n. refl

    announce_change-Keeps :
        (c : Client) (moved : List Text) → Keeps P G (announce_change P servers clients c moved)
    unfolding announce_change
    announce_change-Keeps c [] = λ w d n. refl
    announce_change-Keeps c (x ∷ xs) = λ w d n. refl

    -- What follows the grants and the revocations.
    finish : Group → Client → List Text → SyncPlan → M S MapState (Unit {0})
    finish g c target plan = do
      copy_all P servers clients g c target
      warn_reach P servers clients (c.name ++ codes " now reaches ") plan.to_add
      warn_reach P servers clients (c.name ++ codes " no longer reaches ") plan.to_remove
      announce_change P servers clients c (plan.to_add ++ plan.to_remove)
      note reloaded

    finish-Keeps :
        (g : Group) (c : Client) (target : List Text) (plan : SyncPlan)
        → Keeps P G (finish g c target plan)
    unfolding finish
    finish-Keeps g c target plan =
        let copy = copy_all P servers clients g c target in
        let more = warn_reach P servers clients (c.name ++ codes " now reaches ") plan.to_add in
        let less =
          warn_reach P servers clients (c.name ++ codes " no longer reaches ") plan.to_remove in
        let said = announce_change P servers clients c (plan.to_add ++ plan.to_remove) in
        then-Keeps P G copy (λ _. more >> (less >> (said >> note reloaded)))
          (copy_all-Keeps g c target)
          (λ _.
            then-Keeps P G more (λ _. less >> (said >> note reloaded))
              (warn_reach-Keeps _ plan.to_add)
              (λ _.
                then-Keeps P G less (λ _. said >> note reloaded) (warn_reach-Keeps _ plan.to_remove)
                  (λ _.
                    then-Keeps P G said (λ _. note reloaded)
                      (announce_change-Keeps c (plan.to_add ++ plan.to_remove)) (λ _ w d n. refl))))

    -- The store knows the device and each location that is to be granted or revoked.
    pub record CanApply (w : World S MapState) (c : Client) (plan : SyncPlan) : Type 0 where
      pub to_add : All (λ n. G.known w.server c.id n ≡ true) plan.to_add
      pub to_remove : All (λ n. G.known w.server c.id n ≡ true) plan.to_remove

    abbrev pub plan_for : Group → Client → SyncPlan
    plan_for g c = sync_plan (join_target g c (grants_by_client clients)) c.granted_nodes

    apply_access-granted :
        (g : Group) (c : Client) (w : World S MapState)
        → ((n : Text) → G.granted w.server c.id n ≡ includes c.granted_nodes n)
        → CanApply w c (plan_for g c)
        → (d n : Text)
        → G.granted (apply_access P servers clients g c w).1.server d n ≡ (
            if c.id == d
            then includes (join_target g c (grants_by_client clients)) n
            else G.granted w.server d n)
    unfolding apply_access finish
    apply_access-granted g c w fresh can d n =
        let plan = plan_for g c in
        let (added, held, same) = for_each-grant P G c.id plan.to_add w can.to_add in
        let w1 = (for_each plan.to_add (λ n. call P (grant c.id n)) w).1 in
        let (removed, left) =
          for_each-revoke P G c.id plan.to_remove w1
            (known_after P G c.id plan.to_remove can.to_remove same) in
        ap (λ v. G.granted v.1.server d n)
          (bind_ok P G (for_each plan.to_add (λ n. call P (grant c.id n)) w) _ added
            ∙ bind_ok P G (for_each plan.to_remove (λ n. call P (revoke c.id n)) w1) _ removed)
        ∙ (finish-Keeps g c (join_target g c (grants_by_client clients)) plan _ d n
            ∙ (left d n
                ∙ ground (
                  arith,
                  held d n,
                  fresh n,
                  includes-to_add (join_target g c (grants_by_client clients)) c.granted_nodes n,
                  includes-to_remove (join_target g c (grants_by_client clients)) c.granted_nodes n,
                  eq_iff c.id d,
                  λ (e : c.id ≡ d). ap (λ t. G.granted w.server t n) e,
                )))

    -- When the page's data is current and the store knows the device and the locations, a device
    -- that joins a group ends with exactly the group's access, its own if the group is empty, and
    -- no other device's access changes: whatever the store answers when the exit and the limits of
    -- each location are copied, a refusal included.
    pub join_group-granted :
        (g : Group) (c : Client) (w : World S MapState)
        → ((n : Text) → G.granted w.server c.id n ≡ includes c.granted_nodes n)
        → CanApply w c (plan_for g c)
        → ((join_group P servers clients g c w).0 ≡ ok tt)
          × ((d n : Text)
              → G.granted (join_group P servers clients g c w).1.server d n ≡ (
                  if c.id == d
                  then includes (join_target g c (grants_by_client clients)) n
                  else G.granted w.server d n))
    unfolding join_group join_failed update_group save_groups
    join_group-granted g c w fresh can =
        let patch : Group → Group = λ x. record x { members = g.members ++ (c.id ∷ []) } in
        let w1 = (update_group P g.id patch w).1 in
        let saved =
          set_layout (blob_of w.local.positions (patch_group g.id patch w.local.groups)) in
        let same = G.granted-aside saved w.server writes_layout in
        let still = G.known-aside saved w.server writes_layout in
        (
          caught_ok P G (apply_access P servers clients g c w1) (join_failed P servers clients)
              (λ e v. refl),
          λ d n.
              caught-Keeps P G (apply_access P servers clients g c w1)
                (join_failed P servers clients) (λ e v d n. refl) d n
              ∙ (apply_access-granted g c w1 (λ n. same c.id n ∙ fresh n)
                    (record {
                      to_add = known_after P G c.id (plan_for g c).to_add can.to_add still;
                      to_remove = known_after P G c.id (plan_for g c).to_remove can.to_remove still;
                    })
                    d n
                  ∙ ap
                      (λ b.
                        if c.id == d
                        then includes (join_target g c (grants_by_client clients)) n
                        else b)
                      (same d n)),
        )
