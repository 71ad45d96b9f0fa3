-- ===== src/Graph/Membership/Interrupted/Alone.antt =====
-- `joinGroup` of AccessGraph.tsx when nothing comes between its calls: its loops are one of the runs
-- of Graph/Membership/Interrupted.
use beauty_awg.Base.{filter, ◌≡◌, true, List, [], ◌∷◌, Text, All}
use beauty_awg.Groups.{SyncPlan}
use beauty_awg.Api.{Panel, grant, revoke}
use beauty_awg.Api.Grants.{GrantStore}
use beauty_awg.Api.Effects.{World, M, for_each, call, ◌>>◌}
use beauty_awg.Api.Grants.Calls.{known_after, answered, bind_ok, for_each-grant}
use beauty_awg.Graph.Membership.Interrupted.{
  Running, Reach, here, next, gives, takes, all_sent, drop_from,
}

module _ {S : Type 0} (P : Panel S) (G : GrantStore P) (c : Text) where
  Reach-append : {r q u : Running S} → Reach P G c r q → Reach P G c q u → Reach P G c r u
  Reach-append h here = h
  Reach-append h (next k st) = next (Reach-append h k) st

  -- The loop of revocations sends what is left, one call at a time.
  Reach-revokes :
      {L : Type 0} (rs : List Text) (w : World S L)
      → All (λ n. G.known w.server c n ≡ true) rs
      → Reach P G c
          (record {
            server = w.server;
            left = record { to_add = []; to_remove = rs };
            touched = [];
          })
          (record {
            server = (for_each rs (λ n. call P (revoke c n)) w).1.server;
            left = all_sent;
            touched = [];
          })
  unfolding for_each drop_from filter
  Reach-revokes [] w h = here
  Reach-revokes (x ∷ xs) w (k, h) = rw (G.revoke_ok c x w.server k) (
      Reach-append (next here takes) (
        Reach-revokes xs (answered P G w (revoke c x))
          (known_after P G c xs h (G.known-revoke c x w.server))))

  Reach-grants :
      {L : Type 0} (xs rs : List Text) (w : World S L)
      → All (λ n. G.known w.server c n ≡ true) xs
      → Reach P G c
          (record {
            server = w.server;
            left = record { to_add = xs; to_remove = rs };
            touched = [];
          })
          (record {
            server = (for_each xs (λ n. call P (grant c n)) w).1.server;
            left = record { to_add = []; to_remove = rs };
            touched = [];
          })
  unfolding for_each drop_from filter
  Reach-grants [] rs w h = here
  Reach-grants (x ∷ xs) rs w (k, h) = rw (G.grant_ok c x w.server k) (
      Reach-append (next here gives) (
        Reach-grants xs rs (answered P G w (grant c x))
          (known_after P G c xs h (G.known-grant c x w.server))))

  -- The two loops of the handler, run without interruption, are such a run.
  Reach-loops :
      {L : Type 0} (plan : SyncPlan) (w : World S L)
      → All (λ n. G.known w.server c n ≡ true) plan.to_add
      → All (λ n. G.known w.server c n ≡ true) plan.to_remove
      → Reach P G c
          (record { server = w.server; left = plan; touched = [] })
          (record {
            server =
                ((for_each plan.to_add (λ n. call P (grant c n))
                    >> for_each plan.to_remove (λ n. call P (revoke c n)))
                  w).1.server;
            left = all_sent;
            touched = [];
          })
  Reach-loops plan w can_add can_remove =
      let loop : M S _ (Unit {0}) = for_each plan.to_add (λ n. call P (grant c n)) in
      let (added, held, same) = for_each-grant P G c plan.to_add w can_add in
      rw (bind_ok P G (loop w) (λ _. for_each plan.to_remove (λ n. call P (revoke c n))) added) (
        Reach-append (Reach-grants plan.to_add plan.to_remove w can_add) (
          Reach-revokes plan.to_remove (loop w).1
            (known_after P G c plan.to_remove can_remove same)))
