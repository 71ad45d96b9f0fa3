-- ===== src/Toast/Laws.antt =====
-- Every run of the bus: ids, timers and what the listeners see.
use beauty_awg.Base.{
  ℕ, suc, ◌≤◌, ◌<◌, ◌≡◌, refl, ap, ◌∙◌, subst, Bool, not, List, [], ◌∷◌, ◌++◌, map, arith, Text,
  eqb, filter, All, All-append,
}
use beauty_awg.Api.Effects.{Kind}
use beauty_awg.Toast.{
  Toast, Listener, Bus, start, emit, toast, expire, subscribe, listen, unsubscribe,
}

-- What can happen to the bus, in any order.
pub data Step : Bus → Bus → Type 0 where
  fires_toast : (b : Bus) (msg : Text) (kind : Kind) → Step b (toast msg kind b)
  times_out : (b : Bus) (t : ℕ) → Step b (expire t b)
  joins : (b : Bus) (l : ℕ) → Step b (subscribe l b)
  leaves : (b : Bus) (l : ℕ) → Step b (unsubscribe l b)

pub data Reach (s : Bus) : Bus → Type 0 where
  here : Reach s s
  next : {t u : Bus} → Reach s t → Step t u → Reach s u

-- The toasts on screen are those whose timers are pending, in the same order; their ids grow and
-- none exceeds the counter.
abbrev pub ids : List Toast → List ℕ
ids [] = []
ids (t ∷ ts) = t.id ∷ ids ts

abbrev pub Increasing : ℕ → List ℕ → Type 0
Increasing low [] = Unit
Increasing low (x ∷ xs) = (low < x) × Increasing x xs

pub record IsValid (b : Bus) : Type 0 where
  pub timed : ids b.toasts ≡ b.timers
  pub ordered : Increasing 0 b.timers
  pub counted : All (λ t. t ≤ b.seq) b.timers
  pub current : All (λ l. l.seen ≡ b.toasts) b.listeners

-- Every listener was handed the list that is on screen.
abbrev pub Current : List Toast → List Listener → Type 0
Current ts ls = All (λ l. l.seen ≡ ts) ls

emit-Current :
    (ts : List Toast) (ls : List Listener)
    → Current ts (map (λ l. record { name = l.name; seen = ts }) ls)
emit-Current ts [] = tt
emit-Current ts (l ∷ ls) = (refl, emit-Current ts ls)

listen-Current :
    (l : ℕ) (ts : List Toast) (ls : List Listener) → Current ts ls → Current ts (listen l ts ls)
unfolding listen
listen-Current l ts [] h = (refl, tt)
listen-Current l ts (x ∷ xs) (p, h) = ground (arith, listen-Current l ts xs h)

filter-Current :
    (p : Listener → Bool) (ts : List Toast) (ls : List Listener)
    → Current ts ls
    → Current ts (filter p ls)
unfolding filter
filter-Current p ts [] h = tt
filter-Current p ts (l ∷ ls) (q, h) = ground (arith, filter-Current p ts ls h)

ids-append : (ts us : List Toast) → ids (ts ++ us) ≡ ids ts ++ ids us
ids-append [] us = refl
ids-append (t ∷ ts) us = ap (λ r. t.id ∷ r) (ids-append ts us)

ids-filter :
    (t : ℕ) (ts : List Toast)
    → ids (filter (λ x. not (eqb x.id t)) ts) ≡ filter (λ x. not (eqb x t)) (ids ts)
unfolding filter
ids-filter t [] = refl
ids-filter t (x ∷ ts) = ground (arith, ids-filter t ts)

Increasing-concat :
    (low n : ℕ) (xs : List ℕ)
    → low ≤ n
    → Increasing low xs
    → All (λ x. x ≤ n) xs
    → Increasing low (xs ++ (suc n ∷ []))
Increasing-concat low n [] le h k = (omega arith, tt)
Increasing-concat low n (x ∷ xs) le (p, h) (q, k) = (p, Increasing-concat x n xs q h k)

Increasing-mono : (low high : ℕ) (xs : List ℕ) → low ≤ high → Increasing high xs → Increasing low xs
Increasing-mono low high [] le h = tt
Increasing-mono low high (x ∷ xs) le (p, h) = (omega arith, h)

filter-Increasing :
    (p : ℕ → Bool) (low : ℕ) (xs : List ℕ) → Increasing low xs → Increasing low (filter p xs)
unfolding filter
filter-Increasing p low [] h = tt
filter-Increasing p low (x ∷ xs) (q, h) =
    ground (arith, filter-Increasing p x xs h, Increasing-mono low x (filter p xs))

All-le_mono : (n m : ℕ) (xs : List ℕ) → n ≤ m → All (λ x. x ≤ n) xs → All (λ x. x ≤ m) xs
All-le_mono n m [] le h = tt
All-le_mono n m (x ∷ xs) le (p, h) = (omega arith, All-le_mono n m xs le h)

filter-All-le :
    (p : ℕ → Bool) (n : ℕ) (xs : List ℕ) → All (λ x. x ≤ n) xs → All (λ x. x ≤ n) (filter p xs)
unfolding filter
filter-All-le p n [] h = tt
filter-All-le p n (x ∷ xs) (q, h) = ground (arith, filter-All-le p n xs h)

toast-IsValid : (b : Bus) (msg : Text) (kind : Kind) → IsValid b → IsValid (toast msg kind b)
unfolding toast emit
toast-IsValid b msg kind h = record {
  timed = ids-append b.toasts _ ∙ ap (λ l. l ++ (suc b.seq ∷ [])) h.timed;
  ordered = Increasing-concat 0 b.seq b.timers (omega arith) h.ordered h.counted;
  counted =
      All-append _ b.timers (suc b.seq ∷ [])
        (All-le_mono b.seq (suc b.seq) b.timers (omega arith) h.counted) (omega arith, tt);
  current = emit-Current _ b.listeners;
}

expire-IsValid : (b : Bus) (t : ℕ) → IsValid b → IsValid (expire t b)
unfolding expire emit
expire-IsValid b t h = record {
  timed = ids-filter t b.toasts ∙ ap (filter (λ x. not (eqb x t))) h.timed;
  ordered = filter-Increasing _ 0 b.timers h.ordered;
  counted = filter-All-le _ b.seq b.timers h.counted;
  current = emit-Current _ b.listeners;
}

Step-IsValid : {b c : Bus} → Step b c → IsValid b → IsValid c
unfolding subscribe unsubscribe
Step-IsValid (fires_toast b msg kind) h = toast-IsValid b msg kind h
Step-IsValid (times_out b t) h = expire-IsValid b t h
Step-IsValid (joins b l) h = record {
  timed = h.timed;
  ordered = h.ordered;
  counted = h.counted;
  current = listen-Current l b.toasts b.listeners h.current;
}
Step-IsValid (leaves b l) h = record {
  timed = h.timed;
  ordered = h.ordered;
  counted = h.counted;
  current = filter-Current _ b.toasts b.listeners h.current;
}

-- In every state that the bus can get into, whatever the order of toasts, timeouts, subscriptions
-- and cancellations: the toasts on screen are those whose timers are pending, their ids grow and
-- do not exceed the counter, and every listener was handed that very list.
pub Reach-IsValid : {b : Bus} → Reach start b → IsValid b
unfolding start
Reach-IsValid here = record { timed = refl; ordered = tt; counted = tt; current = tt }
Reach-IsValid (next r s) = Step-IsValid s (Reach-IsValid r)

-- The pending timers fire one after the other.
pub expire_all : List ℕ → Bus → Bus
expire_all [] b = b
expire_all (t ∷ ts) b = expire_all ts (expire t b)

expire_all-IsValid : (ts : List ℕ) (b : Bus) → IsValid b → IsValid (expire_all ts b)
unfolding expire_all
expire_all-IsValid [] b h = h
expire_all-IsValid (t ∷ ts) b h = expire_all-IsValid ts (expire t b) (expire-IsValid b t h)

abbrev without : List ℕ → List ℕ → List ℕ
without [] xs = xs
without (t ∷ ts) xs = without ts (filter (λ x. not (eqb x t)) xs)

expire_all-timers : (ts : List ℕ) (b : Bus) → (expire_all ts b).timers ≡ without ts b.timers
unfolding expire_all expire emit
expire_all-timers [] b = refl
expire_all-timers (t ∷ ts) b = expire_all-timers ts (expire t b)

filter_of_above :
    (t low : ℕ) (xs : List ℕ) → t ≤ low → Increasing low xs → filter (λ x. not (eqb x t)) xs ≡ xs
unfolding filter
filter_of_above t low [] le h = refl
filter_of_above t low (x ∷ xs) le (p, h) = ground (arith, filter_of_above t x xs)

Without_self : (low : ℕ) (xs : List ℕ) → Increasing low xs → without xs xs ≡ []
unfolding filter
Without_self low [] h = refl
Without_self low (x ∷ xs) (p, h) =
    let kept : filter (λ y. not (eqb y x)) (x ∷ xs) ≡ xs = ground (arith, filter_of_above x x xs) in
    ap (without xs) kept ∙ Without_self x xs h

ids-eq-nil : (ts : List Toast) → ids ts ≡ [] → ts ≡ []
ids-eq-nil [] h = refl
ids-eq-nil (t ∷ ts) h = cc

-- No toast stays: once the timers that are pending have fired, the screen is empty, and every
-- listener has been told so.
pub expire_all-toasts :
    (b : Bus)
    → Reach start b
    → ((expire_all b.timers b).toasts ≡ []) × Current [] (expire_all b.timers b).listeners
expire_all-toasts b r =
    let h = Reach-IsValid r in
    let k = expire_all-IsValid b.timers b h in
    let gone : (expire_all b.timers b).toasts ≡ [] =
      ids-eq-nil _ (k.timed ∙ (expire_all-timers b.timers b ∙ Without_self 0 b.timers h.ordered)) in
    (gone, subst (λ ts. Current ts (expire_all b.timers b).listeners) gone k.current)
