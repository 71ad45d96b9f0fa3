-- ===== src/Toast.antt =====
-- web/app/lib/toast.ts: the toast bus. A subscriber is named by a number, and what it was last
-- handed is kept with it; the timers that are still to fire are named by their toasts.
pub mod Laws
mod Tests
use beauty_awg.Base.{
  ℕ, zero, suc, ◌+◌, Bool, not, List, [], ◌∷◌, ◌++◌, map, Text, codes, eqb, filter, if◌then◌else◌,
}
use beauty_awg.Api.Effects.{Kind, info, warn}

pub record Toast : Type 0 where
  pub id : ℕ
  pub msg : Text
  pub kind : Kind

pub record Listener : Type 0 where
  pub name : ℕ
  pub seen : List Toast

pub record Bus : Type 0 where
  pub seq : ℕ
  pub toasts : List Toast
  pub listeners : List Listener
  pub timers : List ℕ

unfoldable pub start : Bus
start = record { seq = 0; toasts = []; listeners = []; timers = [] }

-- `emit`: every listener is handed the list.
unfoldable pub emit : Bus → Bus
emit b = record b { listeners = map (λ l. record { name = l.name; seen = b.toasts }) b.listeners }

unfoldable pub toast : Text → Kind → Bus → Bus
unfolding emit
toast msg kind b =
    let t = suc b.seq in
    emit (record {
      seq = t;
      toasts = b.toasts ++ (record { id = t; msg = msg; kind = kind } ∷ []);
      listeners = b.listeners;
      timers = b.timers ++ (t ∷ []);
    })

-- The timer of a toast fires, six seconds after it.
unfoldable pub expire : ℕ → Bus → Bus
unfolding emit
expire t b = emit (record b {
  toasts = filter (λ x. not (eqb x.id t)) b.toasts;
  timers = filter (λ x. not (eqb x t)) b.timers;
})

unfoldable pub config_changed : Text → Bus → Bus
config_changed who b = toast (who ++ codes ": config changed — re-share it") warn b

-- `listeners.add(l)` and `l(toasts)`: one that is there already keeps its place.
listen : ℕ → List Toast → List Listener → List Listener
listen l ts [] = record { name = l; seen = ts } ∷ []
listen l ts (x ∷ xs) =
    if eqb x.name l then record { name = l; seen = ts } ∷ xs else x ∷ listen l ts xs

unfoldable pub subscribe : ℕ → Bus → Bus
unfolding listen
subscribe l b = record b { listeners = listen l b.toasts b.listeners }

-- What `subscribe` returns.
unfoldable pub unsubscribe : ℕ → Bus → Bus
unsubscribe l b = record b { listeners = filter (λ x. not (eqb x.name l)) b.listeners }
