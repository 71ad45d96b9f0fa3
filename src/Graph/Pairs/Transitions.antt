-- ===== src/Graph/Pairs/Transitions.antt =====
-- Which transitions a reconcile starts.
use beauty_awg.Base.{
  ℕ, ◌≡◌, refl, ap, Bool, Option, none, some, [], ◌∷◌, arith, Text, ◌==◌, eq_iff, eq_refl,
  ne-eq-false, eq-cases, inl, inr, sym, Bool-cases, if◌then◌else◌,
}
use beauty_awg.Base.Sets.{Nodup}
use beauty_awg.Base.Dict.{Dict, keys, lookup, lookup-insert, lookup-cons, lookup_absent}
use beauty_awg.Graph.Pairs.{
  Shape, one_way, bus, Tx, TxKind, form, split, Anim, start_bus_tx, form_if, split_if, form_all,
  split_all, Pairs, track_pairs,
}

-- What starts for a pair that was in the one shape and is now in the other.
abbrev pub change : Option Shape → Option Shape → Option TxKind
change (some one_way) (some bus) = some form
change (some bus) (some one_way) = some split
change was now = none

-- A transition that is playing goes on; otherwise a change starts one, where motion is wanted.
abbrev pub tx_after : Bool → ℕ → Option TxKind → Option Tx → Option Tx
tx_after reduced now kind (some t) = some t
tx_after reduced now none none = none
tx_after reduced now (some k) none =
    if reduced then none else some (record { kind = k; start = now })

form_change : Option Shape → Option Shape → Option TxKind
form_change (some one_way) (some bus) = some form
form_change was now = none

split_change : Option Shape → Option Shape → Option TxKind
split_change (some bus) (some one_way) = some split
split_change was now = none

form_change-none : (was : Option Shape) → form_change was none ≡ none
unfolding form_change
form_change-none none = refl
form_change-none (some one_way) = refl
form_change-none (some bus) = refl

split_change-none : (current : Option Shape) → split_change none current ≡ none
unfolding split_change
split_change-none none = refl
split_change-none (some s) = refl

module _ (reduced : Bool) (now : ℕ) where
  tx_after-none : (t : Option Tx) → tx_after reduced now none t ≡ t
  tx_after-none none = refl
  tx_after-none (some t) = refl

  lookup-start :
      (id j : Text) (kind : TxKind) (a : Anim)
      → lookup j (start_bus_tx reduced now id kind a).tx
        ≡ (if id == j then tx_after reduced now (some kind) (lookup j a.tx) else lookup j a.tx)
  unfolding start_bus_tx
  lookup-start id j kind a = ground (
    arith,
    lookup-insert j id (record { kind = kind; start = now }) a.tx,
    eq_iff id j,
    λ (e : id ≡ j). ap (λ t. lookup t a.tx) e,
  )

  lookup-form_if :
      (id j : Text) (was : Option Shape) (shape : Shape) (a : Anim)
      → lookup j (form_if reduced now id was shape a).tx ≡ (
          if id == j
          then tx_after reduced now (form_change was (some shape)) (lookup j a.tx)
          else lookup j a.tx)
  unfolding form_if form_change
  lookup-form_if id j (some one_way) bus a = lookup-start id j form a
  lookup-form_if id j (some one_way) one_way a = ground arith
  lookup-form_if id j (some bus) shape a = ground arith
  lookup-form_if id j none shape a = ground arith

  lookup-form_all :
      (state current : Dict Shape) (j : Text) (a : Anim)
      → Nodup (keys current)
      → lookup j (form_all reduced now state current a).tx
        ≡ tx_after reduced now (form_change (lookup j state) (lookup j current)) (lookup j a.tx)
  unfolding form_all
  lookup-form_all state [] j a h =
      unfold lookup in rw (form_change-none (lookup j state)) (sym (tx_after-none (lookup j a.tx)))
  lookup-form_all state ((id, shape) ∷ rest) j a (fresh, h) =
      rw
        (
          lookup-form_all state rest j (form_if reduced now id (lookup id state) shape a) h,
          lookup-form_if id j (lookup id state) shape a,
          lookup-cons j id shape rest,
        )
        (elim (eq-cases id j) [
          | inl e ↦
              rw (← e, eq_refl id, lookup_absent id rest fresh, form_change-none (lookup id state))
                (tx_after-none _)
          | inr ne ↦ rw (ne-eq-false id j ne) refl
        ])

  lookup-split_if :
      (id j : Text) (was : Shape) (current : Option Shape) (a : Anim)
      → lookup j (split_if reduced now id was current a).tx ≡ (
          if id == j
          then tx_after reduced now (split_change (some was) current) (lookup j a.tx)
          else lookup j a.tx)
  unfolding split_if split_change
  lookup-split_if id j bus (some one_way) a = lookup-start id j split a
  lookup-split_if id j bus (some bus) a = ground arith
  lookup-split_if id j bus none a = ground arith
  lookup-split_if id j one_way current a = ground arith

  lookup-split_all :
      (current state : Dict Shape) (j : Text) (a : Anim)
      → Nodup (keys state)
      → lookup j (split_all reduced now current state a).tx
        ≡ tx_after reduced now (split_change (lookup j state) (lookup j current)) (lookup j a.tx)
  unfolding split_all
  lookup-split_all current [] j a h =
      unfold lookup in
      rw (split_change-none (lookup j current)) (sym (tx_after-none (lookup j a.tx)))
  lookup-split_all current ((id, was) ∷ rest) j a (fresh, h) =
      rw
        (
          lookup-split_all current rest j (split_if reduced now id was (lookup id current) a) h,
          lookup-split_if id j was (lookup id current) a,
          lookup-cons j id was rest,
        )
        (elim (eq-cases id j) [
          | inl e ↦
              rw
                (
                  ← e,
                  eq_refl id,
                  lookup_absent id rest fresh,
                  split_change-none (lookup id current),
                )
                (tx_after-none _)
          | inr ne ↦ rw (ne-eq-false id j ne) refl
        ])

  tx_after-change :
      (was current : Option Shape) (t : Option Tx)
      → tx_after reduced now
          (split_change was current)
          (tx_after reduced now (form_change was current) t)
        ≡ tx_after reduced now (change was current) t
  unfolding split_change form_change
  tx_after-change none none t = tx_after-none _
  tx_after-change none (some one_way) t = tx_after-none _
  tx_after-change none (some bus) t = tx_after-none _
  tx_after-change (some one_way) none t = tx_after-none _
  tx_after-change (some one_way) (some one_way) t = tx_after-none _
  tx_after-change (some one_way) (some bus) t = tx_after-none _
  tx_after-change (some bus) none t = tx_after-none _
  tx_after-change (some bus) (some one_way) t =
      ap (tx_after reduced now (some split)) (tx_after-none t)
  tx_after-change (some bus) (some bus) t = tx_after-none _

  -- The first reconcile adopts the pairs without a transition. A later one starts a fold exactly
  -- for a pair that turned from one way to mutual, and a collapse exactly for one that turned from
  -- mutual to one way: never for a pair that is new, gone or unchanged, never over a transition
  -- that is playing, and never where reduced motion is wanted.
  pub track_pairs-tx :
      (current : Dict Shape) (p : Pairs) (a : Anim) (j : Text)
      → Nodup (keys current)
      → Nodup (keys p.state)
      → lookup j (track_pairs reduced now current p a).1.tx ≡ (
          if p.init
          then tx_after reduced now (change (lookup j p.state) (lookup j current)) (lookup j a.tx)
          else lookup j a.tx)
  unfolding track_pairs
  track_pairs-tx current p a j h k = elim (Bool-cases p.init) [
    | inl later ↦
        rw
          (
            later,
            lookup-split_all current p.state j (form_all reduced now p.state current a) k,
            lookup-form_all p.state current j a h,
          )
          (tx_after-change (lookup j p.state) (lookup j current) (lookup j a.tx))
    | inr first ↦ rw first refl
  ]
