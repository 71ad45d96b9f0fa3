-- ===== src/Api/Effects.antt =====
-- How an asynchronous handler runs: it calls the backend, and what it does to the page is logged
-- in order.
use beauty_awg.Base.{Option, List, [], ◌∷◌, ◌++◌, Text, codes}
use beauty_awg.Errors.{Thrown, human_error}
use beauty_awg.Api.{Call, Answer, Result, ok, thrown, Panel}

-- `Toast["kind"]`
pub data Kind : Type 0 where
  info warn : Kind

-- What a handler does, in order.
pub data Event : Type 0 where
  -- A call that was answered, and one that threw.
  did : Call → Event
  failed : Call → Event
  toasted : Text → Kind → Event
  -- `onError(msg)`
  reported : Text → Event
  -- `onChanged()`, `onDone()` and `load()`: the page reads its data again.
  reloaded : Event
  -- An edge handed to React Flow before the backend answered.
  edge_added : Text → Event
  closed : Event
  -- `onDone(createdId)` of the wizard.
  finished : Option Text → Event
  -- `router.push(path)`
  moved_to : Text → Event

-- The backend's state, the state of the component that handles, and the log.
pub record World (S L : Type 0) : Type 0 where
  pub server : S
  pub local : L
  pub log : List Event

abbrev pub M : Type 0 → Type 0 → Type 0 → Type 0
M S L A = World S L → Result A × World S L

module _ {S L A : Type 0} where
  abbrev pub pure : A → M S L A
  pure a w = (ok a, w)

  abbrev pub throw : Thrown → M S L A
  throw e w = (thrown e, w)

module _ {S L A B : Type 0} where
  abbrev pub bind : Result A × World S L → (A → M S L B) → Result B × World S L
  bind (ok a, w) f = f a w
  bind (thrown e, w) f = (thrown e, w)

  infixl 5 ◌>>=◌
  abbrev pub ◌>>=◌ : M S L A → (A → M S L B) → M S L B
  ◌>>=◌ m f w = bind (m w) f

infixl 5 ◌>>◌
abbrev pub ◌>>◌ : {S L B : Type 0} → M S L (Unit {0}) → M S L B → M S L B
m >> k = m >>= λ _. k

module _ {S L : Type 0} where
  abbrev pub recovered : {A : Type 0} → Result A × World S L → A → Result A × World S L
  recovered (ok b, w) a = (ok b, w)
  recovered (thrown e, w) a = (ok a, w)

  abbrev pub catch_result :
      Result (Unit {0}) × World S L → (Thrown → M S L (Unit {0})) → Result (Unit {0}) × World S L
  catch_result (ok a, w) h = (ok a, w)
  catch_result (thrown e, w) h = h e w

  -- `m.catch(h)`, where the promise has a value.
  abbrev pub or_else : {A : Type 0} → M S L A → A → M S L A
  or_else m a w = recovered (m w) a

  -- `try { m } catch (e) { h }`
  abbrev pub attempt : M S L (Unit {0}) → (Thrown → M S L (Unit {0})) → M S L (Unit {0})
  attempt m h w = catch_result (m w) h

  abbrev pub note : Event → M S L (Unit {0})
  note e w = (ok tt, record w { log = w.log ++ (e ∷ []) })

  abbrev pub modify : (L → L) → M S L (Unit {0})
  modify f w = (ok tt, record w { local = f w.local })

  abbrev pub get : M S L L
  get w = (ok w.local, w)

  abbrev pub done : M S L (Unit {0})
  done = pure tt

abbrev pub outcome : {A : Type 0} → Call → Result A → Event
outcome c (ok a) = did c
outcome c (thrown e) = failed c

-- `await api.….`
abbrev pub call : {S L : Type 0} → Panel S → (c : Call) → M S L (Answer c)
call P c w =
    let (r, s) = P c w.server in (r, record w { server = s; log = w.log ++ (outcome c r ∷ []) })

-- `for (const x of xs) await f(x)`
unfoldable pub for_each : {S L A : Type 0} → List A → (A → M S L (Unit {0})) → M S L (Unit {0})
for_each [] f = done
for_each (x ∷ xs) f = f x >> for_each xs f

-- `await Promise.all([m, n])`: both calls are sent, and one that throws is thrown.
abbrev pub pair_results :
    {S L A B : Type 0} → Result A → Result B → World S L → Result (A × B) × World S L
pair_results (ok a) (ok b) w = (ok (a, b), w)
pair_results (thrown e) r w = (thrown e, w)
pair_results (ok a) (thrown e) w = (thrown e, w)

abbrev pub both : {S L A B : Type 0} → M S L A → M S L B → M S L (A × B)
both m n w = let (r, w1) = m w in let (q, w2) = n w1 in pair_results r q w2

-- `api.….catch(() => {})`
abbrev pub quietly : {S L A : Type 0} → M S L A → M S L (Unit {0})
quietly m w = (ok tt, (m w).1)

-- `configChanged(who)` of lib/toast.ts.
abbrev pub announce : {S L : Type 0} → Text → M S L (Unit {0})
announce who = note (toasted (who ++ codes ": config changed — re-share it") warn)

-- `onError(prefix + humanError(e))` and `onChanged()`.
abbrev pub report : {S L : Type 0} → Text → Thrown → M S L (Unit {0})
report prefix e = note (reported (prefix ++ human_error e))
