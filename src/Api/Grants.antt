-- ===== src/Api/Grants.antt =====
-- What the map relies on of the backend's grants: the interface between the pages and the store.
pub mod Calls
use beauty_awg.Base.{◌≡◌, refl, Bool, true, false, ◌&&◌, ◌||◌, not, Text, ◌==◌, List, Option}
use beauty_awg.Json.{Json}
use beauty_awg.Api.{
  Call, Panel, Result, ok, thrown, grant, revoke, get_grant_exit, get_grant_rules, set_grant_exit,
  set_grant_rules, set_layout, Rule, link_nodes, unlink_nodes,
}

-- Calls that leave the grants and what is known as they are, answered or refused.
pub data IsAside : Call → Type 0 where
  reads_exit : {c n : Text} → IsAside (get_grant_exit c n)
  reads_rules : {c n : Text} → IsAside (get_grant_rules c n)
  writes_exit : {c n : Text} {exit : Bool} → IsAside (set_grant_exit c n exit)
  writes_rules : {c n : Text} {rules : List Rule} → IsAside (set_grant_rules c n rules)
  links : {a b : Text} → IsAside (link_nodes a b)
  unlinks : {a b : Text} → IsAside (unlink_nodes a b)
  writes_layout : {blob : Json} → IsAside (set_layout blob)

-- A device and a location that the store knows can be granted and revoked, which changes that
-- grant only.
pub record GrantStore {S : Type 0} (P : Panel S) : Type 0 where
  pub granted : S → Text → Text → Bool
  pub known : S → Text → Text → Bool
  pub grant_ok : (c n : Text) (s : S) → known s c n ≡ true → (P (grant c n) s).0 ≡ ok tt
  pub revoke_ok : (c n : Text) (s : S) → known s c n ≡ true → (P (revoke c n) s).0 ≡ ok tt
  pub granted-grant :
      (c n : Text) (s : S)
      → known s c n ≡ true
      → (d m : Text) → granted (P (grant c n) s).1 d m ≡ (granted s d m || c == d && n == m)
  pub granted-revoke :
      (c n : Text) (s : S)
      → known s c n ≡ true
      → (d m : Text) → granted (P (revoke c n) s).1 d m ≡ (granted s d m && not (c == d && n == m))
  pub known-grant :
      (c n : Text) (s : S) → (d m : Text) → known (P (grant c n) s).1 d m ≡ known s d m
  pub known-revoke :
      (c n : Text) (s : S) → (d m : Text) → known (P (revoke c n) s).1 d m ≡ known s d m
  pub granted-aside :
      (c : Call) (s : S) → IsAside c → (d m : Text) → granted (P c s).1 d m ≡ granted s d m
  pub known-aside :
      (c : Call) (s : S) → IsAside c → (d m : Text) → known (P c s).1 d m ≡ known s d m
