-- ===== src/Picker/Chips.antt =====
-- What the chips of AccessPicker.tsx show, and what pressing one does to the access.
use beauty_awg.Base.{
  ◌≡◌, refl, ap, ◌∙◌, Bool, true, false, ◌&&◌, ◌||◌, not, Option, none, some, List, [], ◌∷◌, ◌++◌,
  arith, Text, ◌==◌, eq_iff, any, All, if◌then◌else◌, Bool-cases, inl, inr,
}
use beauty_awg.Base.Sets.{includes}
use beauty_awg.Errors.{Thrown, human_error}
use beauty_awg.Api.{Panel, VpnNode, Client, Result, grant, revoke}
use beauty_awg.Api.Grants.{GrantStore}
use beauty_awg.Api.Grants.Calls.{bind-Keeps, bind_ok, caught_ok, attempt-granted}
use beauty_awg.Api.Effects.{
  World, M, attempt, call, note, announce, reported, reloaded, modify, ◌>>◌, ◌>>=◌,
}
use beauty_awg.Picker.{Chip, Busy, is_managed, chips, chip_of, toggle}

abbrev pub shown : List Chip → List Text
shown [] = []
shown (c ∷ cs) = c.node ∷ shown cs

abbrev pub is_location : List VpnNode → Text → Bool
is_location ns id = any (λ n. n.id == id) ns

-- A chip agrees with the device's access, and the chip of a managed device can neither be pressed
-- nor edited.
pub record IsFaithful (client : Client) (group : Option Text) (c : Chip) : Type 0 where
  pub granted : c.granted ≡ includes client.granted_nodes c.node
  pub locked : is_managed group ≡ true → (c.disabled ≡ true) × (c.gear ≡ false) × (c.granted ≡ true)
  pub edited : c.gear ≡ true → c.granted ≡ true

chip_of-IsFaithful :
    (client : Client) (group : Option Text) (busy : Busy) (can_edit : Bool) (n : VpnNode)
    → (is_managed group && not (includes client.granted_nodes n.id)) ≡ false
    → IsFaithful client group (chip_of client (is_managed group) busy can_edit n)
unfolding chip_of
chip_of-IsFaithful client group busy can_edit n there = record {
  granted = refl;
  locked = λ m. ground arith;
  edited = λ g. ground arith;
}

-- The chips are faithful to the device's access. A device on its own shows every location; one
-- whose access is a group's shows exactly the locations it reaches.
chips-IsFaithful :
    (client : Client) (group : Option Text) (busy : Busy) (can_edit : Bool) (ns : List VpnNode)
    → All (IsFaithful client group) (chips client group busy can_edit ns)
      × ((id : Text)
          → includes (shown (chips client group busy can_edit ns)) id
            ≡ (is_location ns id && (not (is_managed group) || includes client.granted_nodes id)))
unfolding chips chip_of any includes
chips-IsFaithful client group busy can_edit [] = (tt, λ id. refl)
chips-IsFaithful client group busy can_edit (n ∷ ns) =
    let (good, seen) = chips-IsFaithful client group busy can_edit ns in
    elim (Bool-cases (is_managed group && not (includes client.granted_nodes n.id))) [
      | inl hidden ↦ rw hidden (
        good,
        λ id. ground (
          arith,
          seen id,
          eq_iff n.id id,
          λ (e : n.id ≡ id). ap (includes client.granted_nodes) e,
        ),
      )
      | inr there ↦ rw there (
        (chip_of-IsFaithful client group busy can_edit n there, good),
        λ id. ground (
          arith,
          seen id,
          eq_iff n.id id,
          λ (e : n.id ≡ id). ap (includes client.granted_nodes) e,
        ),
      )
    ]

module _ {S : Type 0} (P : Panel S) (G : GrantStore P) where
  -- Pressing the chip of a location that the store knows turns that access, and no other, into its
  -- opposite, and the picker is free again.
  pub toggle-granted :
      (client : Client) (n : VpnNode) (granted : Bool) (w : World S Busy)
      → G.known w.server client.id n.id ≡ true
      → G.granted w.server client.id n.id ≡ granted
      → ((d m : Text)
          → G.granted (toggle P client n granted w).1.server d m
            ≡ (if client.id == d && n.id == m then not granted else G.granted w.server d m))
        × ((toggle P client n granted w).1.local ≡ none)
  unfolding toggle
  toggle-granted client n true w k h =
      let fail : Thrown → M S Busy (Unit {0}) = λ e. note (reported (human_error e)) in
      let start : World S Busy = record {
        server = w.server;
        local = some n.id;
        log = w.log ++ (reported [] ∷ []);
      } in
      let say : Unit {0} → M S Busy (Unit {0}) = λ a. announce client.name >> note reloaded in
      let pressed : Result (Unit {0}) × World S Busy =
        attempt (call P (revoke client.id n.id) >>= say) fail start in
      let free : Unit {0} → M S Busy (Unit {0}) = λ a. modify (λ b. none) in
      (
        λ d m.
            bind-Keeps P G pressed free (λ a v d m. refl) d m
            ∙ (attempt-granted P G (call P (revoke client.id n.id)) say fail start (λ a v d m. refl)
                  (λ e v d m. refl) d m
                ∙ ground (
                  arith,
                  G.granted-revoke client.id n.id w.server k d m,
                  eq_iff client.id d,
                  eq_iff n.id m,
                  λ (p : client.id ≡ d) (q : n.id ≡ m).
                      ap (λ t. G.granted w.server t n.id) p ∙ ap (G.granted w.server d) q,
                )),
        ap (λ v. v.1.local)
            (bind_ok P G pressed free
              (caught_ok P G ((call P (revoke client.id n.id) >>= say) start) fail (λ e v. refl))),
      )
  toggle-granted client n false w k h =
      let fail : Thrown → M S Busy (Unit {0}) = λ e. note (reported (human_error e)) in
      let start : World S Busy = record {
        server = w.server;
        local = some n.id;
        log = w.log ++ (reported [] ∷ []);
      } in
      let say : Unit {0} → M S Busy (Unit {0}) = λ a. announce client.name >> note reloaded in
      let pressed : Result (Unit {0}) × World S Busy =
        attempt (call P (grant client.id n.id) >>= say) fail start in
      let free : Unit {0} → M S Busy (Unit {0}) = λ a. modify (λ b. none) in
      (
        λ d m.
            bind-Keeps P G pressed free (λ a v d m. refl) d m
            ∙ (attempt-granted P G (call P (grant client.id n.id)) say fail start (λ a v d m. refl)
                  (λ e v d m. refl) d m
                ∙ ground (
                  arith,
                  G.granted-grant client.id n.id w.server k d m,
                  eq_iff client.id d,
                  eq_iff n.id m,
                  λ (p : client.id ≡ d) (q : n.id ≡ m).
                      ap (λ t. G.granted w.server t n.id) p ∙ ap (G.granted w.server d) q,
                )),
        ap (λ v. v.1.local)
            (bind_ok P G pressed free
              (caught_ok P G ((call P (grant client.id n.id) >>= say) start) fail (λ e v. refl))),
      )
