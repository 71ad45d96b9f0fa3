-- ===== src/Bus/Phase.antt =====
-- BusEdge.tsx: the timeline of a bus that forms or splits.
use beauty_awg.Base.{ℕ, Bool, if◌then◌else◌}
use beauty_awg.Number.{Number, lit, whole, ◌+◌, ◌-◌, ◌*◌, ◌/◌, ◌<?◌, ◌≤?◌, least, greatest}
use beauty_awg.Graph.Pairs.{TxKind, form, split}
use beauty_awg.Bus.Geometry.{smoothstep}

abbrev pub t_form : ℕ
t_form = 760

abbrev pub t_split : ℕ
t_split = 680

-- `BusTransition`
pub record Transition (N : Type 0) : Type 0 where
  pub kind : TxKind
  pub start : N

pub record Phase (N : Type 0) : Type 0 where
  pub m : N
  pub body2_op : N
  pub width : N
  pub bus_alpha : N
  pub done : Bool

abbrev pub length_of : TxKind → ℕ
length_of form = t_form
length_of split = t_split

module _ {N : Type 0} ⦃R : Number N⦄ where
  unfoldable pub smooth : N → N
  smooth e = smoothstep (if e <? whole 0 then whole 0 else if whole 1 <? e then whole 1 else e)

  -- `p` of `busPhase`
  unfoldable pub progress : Transition N → N → N
  progress t now = least (whole 1) (greatest (whole 0) ((now - t.start) / whole (length_of t.kind)))

  -- The two returns of `busPhase`, at the progress `p`.
  unfoldable pub phase_at : TxKind → N → N → Phase N
  unfolding smooth
  phase_at form p target =
      let thin = whole 2 in
      let collapse = smooth (p / lit 45 100) in
      let expand = smooth ((p - lit 4 10) / lit 6 10) in
      record {
        m = collapse;
        body2_op = whole 1 - collapse;
        width = thin + (target - thin) * expand;
        bus_alpha = expand;
        done = whole 1 ≤? p;
      }
  phase_at split p target =
      let thin = whole 2 in
      let shrink = smooth (p / lit 6 10) in
      let straighten = smooth ((p - lit 35 100) / lit 65 100) in
      record {
        m = whole 1 - straighten;
        body2_op = whole 0;
        width = target - (target - thin) * shrink;
        bus_alpha = whole 1 - shrink;
        done = whole 1 ≤? p;
      }

  -- `busPhase`
  unfoldable pub bus_phase : Transition N → N → N → Phase N
  unfolding progress phase_at
  bus_phase t now target = phase_at t.kind (progress t now) target
