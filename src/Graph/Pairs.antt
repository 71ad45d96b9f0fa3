-- ===== src/Graph/Pairs.antt =====
-- AccessGraph.tsx: buses that form and split. The shape of each pair of linked locations is kept
-- from one reconcile to the next, and a change of shape starts a transition.
pub mod Transitions
pub mod Ending
use beauty_awg.Base.{
  ℕ, ◌+◌, suc, Bool, true, false, ◌&&◌, not, Option, none, some, List, [], ◌∷◌, ◌++◌, Text, map,
  if◌then◌else◌,
}
use beauty_awg.Base.Sets
use beauty_awg.Base.Dict
use beauty_awg.Base.Dict.{Dict, lookup, insert, erase}
use beauty_awg.Api.{NodeLink}
use beauty_awg.Graph.{bus_edge_id}

pub data Shape : Type 0 where
  one_way bus : Shape

pub data TxKind : Type 0 where
  form split : TxKind

pub record Tx : Type 0 where
  pub kind : TxKind
  pub start : ℕ

abbrev pub form_ms : ℕ
form_ms = 760

abbrev pub split_ms : ℕ
split_ms = 680

-- `busTx`, `txTimers` (the time at which each fires) and `animTick`.
pub record Anim : Type 0 where
  pub tx : Dict Tx
  pub timers : Dict ℕ
  pub tick : ℕ

duration : TxKind → ℕ
duration form = form_ms
duration split = split_ms

-- `startBusTx`: `reduced` is the preference for reduced motion, `now` the clock.
unfoldable pub start_bus_tx : Bool → ℕ → Text → TxKind → Anim → Anim
unfolding duration
start_bus_tx reduced now bus_id kind a = elim (lookup bus_id a.tx) [
  | some t ↦ a
  | none ↦ if reduced then a else record a {
    tx = insert bus_id (record { kind = kind; start = now }) a.tx;
    timers = insert bus_id (now + (duration kind + 40)) a.timers;
  }
]

-- The timer of a transition fires.
unfoldable pub end_bus_tx : Text → Anim → Anim
end_bus_tx bus_id a = record {
  tx = erase bus_id a.tx;
  timers = erase bus_id a.timers;
  tick = suc a.tick;
}

-- `${src}>${dst}`
unfoldable pub link_key : Text → Text → Text
link_key src dst = src ++ b'>' ∷ dst

-- `both`
unfoldable pub link_keys : List NodeLink → List Text
unfolding link_key
link_keys links = Sets.to_set (map (λ l. link_key l.src l.dst) links)

-- The opposite link is there too.
unfoldable pub is_mutual : List Text → NodeLink → Bool
unfolding link_key
is_mutual both l = Sets.includes both (link_key l.dst l.src)

unfoldable pub is_live : (Text → Bool) → NodeLink → Bool
is_live alive l = alive l.src && alive l.dst

-- The loop that builds `pairNow`.
unfoldable pub pairs_from : (Text → Bool) → List Text → Dict Shape → List NodeLink → Dict Shape
pairs_from alive both now [] = now
pairs_from alive both now (l ∷ ls) =
    pairs_from alive both
      (if is_live alive l
        then insert (bus_edge_id l.src l.dst) (if is_mutual both l then bus else one_way) now
        else now)
      ls

unfoldable pub pair_now : (Text → Bool) → List NodeLink → Dict Shape
pair_now alive links = pairs_from alive (link_keys links) [] links

pub record Pairs : Type 0 where
  pub state : Dict Shape
  pub init : Bool

form_if : Bool → ℕ → Text → Option Shape → Shape → Anim → Anim
form_if reduced now id (some one_way) bus a = start_bus_tx reduced now id form a
form_if reduced now id was shape a = a

split_if : Bool → ℕ → Text → Shape → Option Shape → Anim → Anim
split_if reduced now id bus (some one_way) a = start_bus_tx reduced now id split a
split_if reduced now id was shape a = a

-- `for (const [busId, shape] of pairNow)`
unfoldable pub form_all : Bool → ℕ → Dict Shape → Dict Shape → Anim → Anim
unfolding form_if
form_all reduced now state [] a = a
form_all reduced now state ((id, shape) ∷ rest) a =
    form_all reduced now state rest (form_if reduced now id (lookup id state) shape a)

-- `for (const [busId, was] of pairState.current)`
unfoldable pub split_all : Bool → ℕ → Dict Shape → Dict Shape → Anim → Anim
unfolding split_if
split_all reduced now current [] a = a
split_all reduced now current ((id, was) ∷ rest) a =
    split_all reduced now current rest (split_if reduced now id was (lookup id current) a)

-- The part of the reconcile that starts transitions; the first one starts none.
unfoldable pub track_pairs : Bool → ℕ → Dict Shape → Pairs → Anim → Pairs × Anim
track_pairs reduced now current p a =
    if p.init
    then (
      record { state = current; init = true },
      split_all reduced now current p.state (form_all reduced now p.state current a),
    )
    else (record { state = current; init = true }, a)
