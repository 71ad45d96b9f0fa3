-- ===== src/Graph/Pairs/Ending.antt =====
-- Every transition ends: it has a timer, and the timer takes it off.
use beauty_awg.Base.{
  ℕ, suc, ◌+◌, Option-cases, Bool-cases, inl, inr, ◌≡◌, refl, Bool, true, false, Option, none, some,
  [], ◌∷◌, arith, Text, eq_refl, if◌then◌else◌,
}
use beauty_awg.Base.Sets
use beauty_awg.Base.Dict
use beauty_awg.Base.Dict.{Dict, keys, lookup, insert, erase}
use beauty_awg.Graph.Pairs.{
  Shape, one_way, bus, TxKind, form, split, Tx, Anim, duration, Pairs, start_bus_tx, end_bus_tx,
  form_if, split_if, form_all, split_all, track_pairs,
}

abbrev pub is_there : {A : Type 0} → Option A → Bool
is_there none = false
is_there (some a) = true

-- A transition is playing exactly where its timer is pending, and there is one of each for a pair.
pub record IsTimed (a : Anim) : Type 0 where
  pub timed : (id : Text) → is_there (lookup id a.tx) ≡ is_there (lookup id a.timers)
  pub once : Sets.Nodup (keys a.tx)
  pub one_timer : Sets.Nodup (keys a.timers)

-- A transition with its timer is put in.
put_in-IsTimed :
    (id : Text) (t : Tx) (fires : ℕ) (a : Anim)
    → IsTimed a
    → IsTimed (record a { tx = insert id t a.tx; timers = insert id fires a.timers })
put_in-IsTimed id t fires a h = record {
  timed = λ j.
      ground
        (arith, h.timed j, Dict.lookup-insert j id t a.tx, Dict.lookup-insert j id fires a.timers);
  once = Dict.insert-Nodup id t a.tx h.once;
  one_timer = Dict.insert-Nodup id fires a.timers h.one_timer;
}

start_bus_tx-IsTimed :
    (reduced : Bool) (now : ℕ) (id : Text) (kind : TxKind) (a : Anim)
    → IsTimed a
    → IsTimed (start_bus_tx reduced now id kind a)
unfolding start_bus_tx
start_bus_tx-IsTimed reduced now id kind a h = elim (Option-cases (lookup id a.tx)) [
  | inr (t, there) ↦ rw (there, start_bus_tx) h
  | inl free ↦ rw (free, start_bus_tx) (started reduced)
]
  where
    started :
        (r : Bool)
        → IsTimed (
            if r then a else record a {
              tx = insert id (record { kind = kind; start = now }) a.tx;
              timers = insert id (now + (duration kind + 40)) a.timers;
            })
    started true = h
    started false = put_in-IsTimed id (record { kind = kind; start = now }) _ a h

end_bus_tx-IsTimed : (id : Text) (a : Anim) → IsTimed a → IsTimed (end_bus_tx id a)
unfolding end_bus_tx
end_bus_tx-IsTimed id a h = record {
  timed = λ j. ground (
    arith,
    h.timed j,
    Dict.lookup-erase id j a.tx h.once,
    Dict.lookup-erase id j a.timers h.one_timer,
  );
  once = Dict.erase-Nodup id a.tx h.once;
  one_timer = Dict.erase-Nodup id a.timers h.one_timer;
}

form_if-IsTimed :
    (reduced : Bool) (now : ℕ) (id : Text) (was : Option Shape) (shape : Shape) (a : Anim)
    → IsTimed a
    → IsTimed (form_if reduced now id was shape a)
unfolding form_if
form_if-IsTimed reduced now id none shape a h = h
form_if-IsTimed reduced now id (some bus) shape a h = h
form_if-IsTimed reduced now id (some one_way) one_way a h = h
form_if-IsTimed reduced now id (some one_way) bus a h = start_bus_tx-IsTimed reduced now id form a h

split_if-IsTimed :
    (reduced : Bool) (now : ℕ) (id : Text) (was : Shape) (shape : Option Shape) (a : Anim)
    → IsTimed a
    → IsTimed (split_if reduced now id was shape a)
unfolding split_if
split_if-IsTimed reduced now id one_way shape a h = h
split_if-IsTimed reduced now id bus none a h = h
split_if-IsTimed reduced now id bus (some bus) a h = h
split_if-IsTimed reduced now id bus (some one_way) a h =
    start_bus_tx-IsTimed reduced now id split a h

form_all-IsTimed :
    (reduced : Bool) (now : ℕ) (state current : Dict Shape) (a : Anim)
    → IsTimed a
    → IsTimed (form_all reduced now state current a)
unfolding form_all
form_all-IsTimed reduced now state [] a h = h
form_all-IsTimed reduced now state ((id, shape) ∷ rest) a h =
    form_all-IsTimed reduced now state rest (form_if reduced now id (lookup id state) shape a)
      (form_if-IsTimed reduced now id (lookup id state) shape a h)

split_all-IsTimed :
    (reduced : Bool) (now : ℕ) (current state : Dict Shape) (a : Anim)
    → IsTimed a
    → IsTimed (split_all reduced now current state a)
unfolding split_all
split_all-IsTimed reduced now current [] a h = h
split_all-IsTimed reduced now current ((id, was) ∷ rest) a h =
    split_all-IsTimed reduced now current rest (split_if reduced now id was (lookup id current) a)
      (split_if-IsTimed reduced now id was (lookup id current) a h)

track_pairs-IsTimed :
    (reduced : Bool) (now : ℕ) (current : Dict Shape) (p : Pairs) (a : Anim)
    → IsTimed a
    → IsTimed (track_pairs reduced now current p a).1
unfolding track_pairs
track_pairs-IsTimed reduced now current p a h = elim (Bool-cases p.init) [
  | inl later ↦
      rw (later, track_pairs)
        (split_all-IsTimed reduced now current p.state (form_all reduced now p.state current a)
          (form_all-IsTimed reduced now p.state current a h))
  | inr first ↦ rw (first, track_pairs) h
]

-- The map's pairs with their transitions.
pub record Tracked : Type 0 where
  pub pairs : Pairs
  pub anim : Anim

-- A reconcile at any time with any links, or a timer that fires.
pub data Step : Tracked → Tracked → Type 0 where
  reconciles :
      (s : Tracked) (reduced : Bool) (now : ℕ) (current : Dict Shape)
      → Step s (record {
        pairs = (track_pairs reduced now current s.pairs s.anim).0;
        anim = (track_pairs reduced now current s.pairs s.anim).1;
      })
  fires : (s : Tracked) (id : Text) → Step s (record s { anim = end_bus_tx id s.anim })

pub data Reach (start : Tracked) : Tracked → Type 0 where
  here : Reach start start
  next : {s t : Tracked} → Reach start s → Step s t → Reach start t

abbrev pub at_first : Tracked
at_first = record {
  pairs = record { state = []; init = false };
  anim = record { tx = []; timers = []; tick = 0 };
}

Step-IsTimed : {s t : Tracked} → Step s t → IsTimed s.anim → IsTimed t.anim
Step-IsTimed (reconciles s reduced now current) h =
    track_pairs-IsTimed reduced now current s.pairs s.anim h
Step-IsTimed (fires s id) h = end_bus_tx-IsTimed id s.anim h

Reach-IsTimed : {s : Tracked} → Reach at_first s → IsTimed s.anim
unfolding lookup
Reach-IsTimed here = record { timed = λ id. refl; once = tt; one_timer = tt }
Reach-IsTimed (next r st) = Step-IsTimed st (Reach-IsTimed r)

-- No transition plays for ever: whatever reconciles and timers there were, in whatever order, a
-- transition is playing exactly where its timer is still pending, and when the timer fires the
-- transition is off and the map is drawn anew.
pub Reach-ends :
    {s : Tracked} (id : Text)
    → Reach at_first s
    → (is_there (lookup id s.anim.tx) ≡ is_there (lookup id s.anim.timers))
      × (lookup id (end_bus_tx id s.anim).tx ≡ none)
      × ((end_bus_tx id s.anim).tick ≡ suc s.anim.tick)
unfolding end_bus_tx
Reach-ends {s} id r =
    let h = Reach-IsTimed r in
    (h.timed id, rw (Dict.lookup-erase id id s.anim.tx h.once, eq_refl id), refl)
