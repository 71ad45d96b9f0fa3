-- ===== src/Graph/Membership/Interrupted.antt =====
-- `joinGroup` of AccessGraph.tsx while other handlers run: between two of its awaited calls any
-- other call may be answered.
pub mod Alone
use beauty_awg.Base.{
  ◌≡◌, true, false, not, filter, if◌then◌else◌, ◌&&◌, ◌||◌, List, [], ◌∷◌, Text, ◌==◌, All,
}
use beauty_awg.Base.Sets.{includes}
use beauty_awg.Groups.{SyncPlan}
use beauty_awg.Api.{Call, Panel, grant, revoke}
use beauty_awg.Api.Grants.{GrantStore, IsAside}
use beauty_awg.Api.Effects.{World, M, for_each, call, ◌>>=◌, ◌>>◌}
use beauty_awg.Api.Grants.Calls.{answered, bind_ok, for_each-grant}

-- The backend's state, what the two loops of the device that joins have still to send, and the
-- locations at which other handlers changed the device's access since the join began, or since the
-- join's own call for the location.
pub record Running (S : Type 0) : Type 0 where
  pub server : S
  pub left : SyncPlan
  pub touched : List Text

abbrev pub all_sent : SyncPlan
all_sent = record { to_add = []; to_remove = [] }

-- The locations without one.
unfoldable pub drop_from : Text → List Text → List Text
drop_from x ts = filter (λ t. not (t == x)) ts

module _ {S : Type 0} (P : Panel S) (G : GrantStore P) (c : Text) where
  -- A call of the device's own loops, or one of another handler, for this device or for another.
  pub data Step : Running S → Running S → Type 0 where
    gives :
        {s : S} {x : Text} {xs rs ts : List Text}
        → Step
            (record { server = s; left = record { to_add = x ∷ xs; to_remove = rs }; touched = ts })
            (record {
              server = (P (grant c x) s).1;
              left = record { to_add = xs; to_remove = rs };
              touched = drop_from x ts;
            })
    takes :
        {s : S} {x : Text} {rs ts : List Text}
        → Step
            (record { server = s; left = record { to_add = []; to_remove = x ∷ rs }; touched = ts })
            (record {
              server = (P (revoke c x) s).1;
              left = record { to_add = []; to_remove = rs };
              touched = drop_from x ts;
            })
    other_gives :
        {s : S} {left : SyncPlan} {ts : List Text} {d n : Text}
        → G.known s d n ≡ true
        → Step
            (record { server = s; left = left; touched = ts })
            (record {
              server = (P (grant d n) s).1;
              left = left;
              touched = if d == c then n ∷ ts else ts;
            })
    other_takes :
        {s : S} {left : SyncPlan} {ts : List Text} {d n : Text}
        → G.known s d n ≡ true
        → Step
            (record { server = s; left = left; touched = ts })
            (record {
              server = (P (revoke d n) s).1;
              left = left;
              touched = if d == c then n ∷ ts else ts;
            })
    aside :
        {s : S} {left : SyncPlan} {ts : List Text} {k : Call}
        → IsAside k
        → Step
            (record { server = s; left = left; touched = ts })
            (record { server = (P k s).1; left = left; touched = ts })

  pub data Reach (start : Running S) : Running S → Type 0 where
    here : Reach start start
    next : {r q : Running S} → Reach start r → Step r q → Reach start q

  module _ (target current : List Text) where
    record IsOnItsWay (r : Running S) : Type 0 where
      ends :
          (n : Text)
          → includes r.touched n ≡ false
          → ((G.granted r.server c n || includes r.left.to_add n)
              && not (includes r.left.to_remove n))
            ≡ includes target n
      within :
          (n : Text)
          → includes r.touched n ≡ false
          → G.granted r.server c n ≡ true
          → (includes current n || includes target n) ≡ true
      keeps :
          (n : Text)
          → includes r.touched n ≡ false
          → (includes current n && includes target n) ≡ true
          → G.granted r.server c n ≡ true
      adds : (n : Text) → includes r.left.to_add n ≡ true → includes target n ≡ true
      removes : (n : Text) → includes r.left.to_remove n ≡ true → includes target n ≡ false
      known_add : All (λ n. G.known r.server c n ≡ true) r.left.to_add
      known_remove : All (λ n. G.known r.server c n ≡ true) r.left.to_remove
