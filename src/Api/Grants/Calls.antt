-- ===== src/Api/Grants/Calls.antt =====
-- What sequences of calls leave of the grants.
use beauty_awg.Base.{
  ◌≡◌, refl, ◌∙◌, true, ◌&&◌, ◌||◌, not, List, [], ◌∷◌, ◌++◌, arith, Text, ◌==◌, All,
}
use beauty_awg.Base.Sets.{includes}
use beauty_awg.Errors.{Thrown}
use beauty_awg.Api.{Panel, Result, ok, thrown, Call, grant, revoke}
use beauty_awg.Api.Grants.{GrantStore, IsAside}
use beauty_awg.Api.Effects.{
  World, did, M, both, pair_results, catch_result, bind, for_each, call, attempt, ◌>>=◌,
}

module _ {S : Type 0} (P : Panel S) (G : GrantStore P) where
  -- A computation that leaves the grants as they are, however it ends.
  abbrev pub Keeps : {L A : Type 0} → M S L A → Type 0
  Keeps {L = L} m =
      (w : World S L) (d n : Text) → G.granted (m w).1.server d n ≡ G.granted w.server d n

  pub bind-Keeps :
      {L A B : Type 0} (r : Result A × World S L) (f : A → M S L B)
      → ((a : A) → Keeps (f a))
      → (d n : Text) → G.granted (bind r f).1.server d n ≡ G.granted r.1.server d n
  bind-Keeps (ok a, w) f k d n = k a w d n
  bind-Keeps (thrown e, w) f k d n = refl

  pub bind_ok :
      {L A B : Type 0} {a : A} (r : Result A × World S L) (f : A → M S L B)
      → r.0 ≡ ok a
      → bind r f ≡ f a r.1
  bind_ok r f h = rw h refl

  pub paired-Keeps :
      {L A B : Type 0} (r : Result A) (q : Result B) (w : World S L) (d n : Text)
      → G.granted (pair_results r q w).1.server d n ≡ G.granted w.server d n
  paired-Keeps (ok a) (ok b) w d n = refl
  paired-Keeps (ok a) (thrown e) w d n = refl
  paired-Keeps (thrown e) q w d n = refl

  pub caught_ok :
      {L : Type 0} (r : Result (Unit {0}) × World S L) (h : Thrown → M S L (Unit {0}))
      → ((e : Thrown) (w : World S L) → (h e w).0 ≡ ok tt)
      → (catch_result r h).0 ≡ ok tt
  caught_ok (ok a, w) h k = refl
  caught_ok (thrown e, w) h k = k e w

  pub caught-Keeps :
      {L : Type 0} (r : Result (Unit {0}) × World S L) (h : Thrown → M S L (Unit {0}))
      → ((e : Thrown) → Keeps (h e))
      → (d n : Text) → G.granted (catch_result r h).1.server d n ≡ G.granted r.1.server d n
  caught-Keeps (ok a, w) h k d n = refl
  caught-Keeps (thrown e, w) h k d n = k e w d n

  pub then-Keeps :
      {L A B : Type 0} (m : M S L A) (f : A → M S L B)
      → Keeps m
      → ((a : A) → Keeps (f a))
      → Keeps (m >>= f)
  then-Keeps m f h k w d n = bind-Keeps (m w) f k d n ∙ h w d n

  pub call-Keeps : (L : Type 0) (c : Call) → IsAside c → Keeps {L = L} (call P c)
  call-Keeps L c h w d n = G.granted-aside c w.server h d n

  -- The world after a call that is answered.
  abbrev pub answered : {L : Type 0} → World S L → Call → World S L
  answered w c = record w { server = (P c w.server).1; log = w.log ++ (did c ∷ []) }

  module _ (c : Text) where
    pub known_after :
        {s t : S} (nodes : List Text)
        → All (λ n. G.known s c n ≡ true) nodes
        → ((d n : Text) → G.known t d n ≡ G.known s d n)
        → All (λ n. G.known t c n ≡ true) nodes
    known_after [] h same = tt
    known_after (x ∷ xs) (k, h) same = (same c x ∙ k, known_after xs h same)

    pub for_each-grant :
        {L : Type 0} (nodes : List Text) (w : World S L)
        → All (λ n. G.known w.server c n ≡ true) nodes
        → ((for_each nodes (λ n. call P (grant c n)) w).0 ≡ ok tt)
          × ((d n : Text)
              → G.granted (for_each nodes (λ n. call P (grant c n)) w).1.server d n
                ≡ (G.granted w.server d n || c == d && includes nodes n))
          × ((d n : Text)
              → G.known (for_each nodes (λ n. call P (grant c n)) w).1.server d n
                ≡ G.known w.server d n)
    unfolding for_each includes
    for_each-grant [] w h = (refl, λ d n. ground arith, λ d n. refl)
    for_each-grant (x ∷ xs) w (k, h) =
        let after = answered w (grant c x) in
        let (good, held, same) =
          for_each-grant xs after (known_after xs h (G.known-grant c x w.server)) in
        rw (G.grant_ok c x w.server k) (
          good,
          λ d n. held d n ∙ ground (arith, G.granted-grant c x w.server k d n),
          λ d n. same d n ∙ G.known-grant c x w.server d n,
        )

    pub for_each-revoke :
        {L : Type 0} (nodes : List Text) (w : World S L)
        → All (λ n. G.known w.server c n ≡ true) nodes
        → ((for_each nodes (λ n. call P (revoke c n)) w).0 ≡ ok tt)
          × ((d n : Text)
              → G.granted (for_each nodes (λ n. call P (revoke c n)) w).1.server d n
                ≡ (G.granted w.server d n && not (c == d && includes nodes n)))
    unfolding for_each includes
    for_each-revoke [] w h = (refl, λ d n. ground arith)
    for_each-revoke (x ∷ xs) w (k, h) =
        let after = answered w (revoke c x) in
        let (good, held) =
          for_each-revoke xs after (known_after xs h (G.known-revoke c x w.server)) in
        rw (G.revoke_ok c x w.server k)
          (good, λ d n. held d n ∙ ground (arith, G.granted-revoke c x w.server k d n))

  pub for_each-Keeps :
      {L A : Type 0} (xs : List A) (f : A → M S L (Unit {0}))
      → ((a : A) → Keeps (f a))
      → Keeps (for_each xs f)
  unfolding for_each
  for_each-Keeps [] f h = λ w d n. refl
  for_each-Keeps (x ∷ xs) f h =
      then-Keeps (f x) (λ a. for_each xs f) (h x) (λ a. for_each-Keeps xs f h)

  pub both-Keeps :
      {L A B : Type 0} (m : M S L A) (k : M S L B) → Keeps m → Keeps k → Keeps (both m k)
  both-Keeps m k h i w d n =
      paired-Keeps (m w).0 (k (m w).1).0 (k (m w).1).1 d n ∙ (i (m w).1 d n ∙ h w d n)

  pub attempt-Keeps :
      {L : Type 0} (m : M S L (Unit {0})) (h : Thrown → M S L (Unit {0}))
      → Keeps m
      → ((e : Thrown) → Keeps (h e))
      → Keeps (attempt m h)
  attempt-Keeps m h i k w d n = caught-Keeps (m w) h k d n ∙ i w d n

  -- A `try` whose first part may change the grants.
  pub attempt-granted :
      {L : Type 0} (m : M S L (Unit {0})) (k : Unit {0} → M S L (Unit {0}))
      (h : Thrown → M S L (Unit {0})) (w : World S L)
      → ((a : Unit {0}) → Keeps (k a))
      → ((e : Thrown) → Keeps (h e))
      → (d n : Text) → G.granted (attempt (m >>= k) h w).1.server d n ≡ G.granted (m w).1.server d n
  attempt-granted m k h w i j d n = caught-Keeps (bind (m w) k) h j d n ∙ bind-Keeps (m w) k i d n

  -- The same for one location and several devices.
  module _ (node : Text) where
    pub known_members_after :
        {s t : S} (ms : List Text)
        → All (λ m. G.known s m node ≡ true) ms
        → ((d n : Text) → G.known t d n ≡ G.known s d n)
        → All (λ m. G.known t m node ≡ true) ms
    known_members_after [] h same = tt
    known_members_after (x ∷ xs) (k, h) same = (same x node ∙ k, known_members_after xs h same)

    pub for_each_member-grant :
        {L : Type 0} (ms : List Text) (w : World S L)
        → All (λ m. G.known w.server m node ≡ true) ms
        → ((for_each ms (λ m. call P (grant m node)) w).0 ≡ ok tt)
          × ((d n : Text)
              → G.granted (for_each ms (λ m. call P (grant m node)) w).1.server d n
                ≡ (G.granted w.server d n || includes ms d && node == n))
    unfolding for_each includes
    for_each_member-grant [] w h = (refl, λ d n. ground arith)
    for_each_member-grant (x ∷ xs) w (k, h) =
        let after = answered w (grant x node) in
        let (good, held) =
          for_each_member-grant xs after
            (known_members_after xs h (G.known-grant x node w.server)) in
        rw (G.grant_ok x node w.server k)
          (good, λ d n. held d n ∙ ground (arith, G.granted-grant x node w.server k d n))

    pub for_each_member-revoke :
        {L : Type 0} (ms : List Text) (w : World S L)
        → All (λ m. G.known w.server m node ≡ true) ms
        → ((for_each ms (λ m. call P (revoke m node)) w).0 ≡ ok tt)
          × ((d n : Text)
              → G.granted (for_each ms (λ m. call P (revoke m node)) w).1.server d n
                ≡ (G.granted w.server d n && not (includes ms d && node == n)))
    unfolding for_each includes
    for_each_member-revoke [] w h = (refl, λ d n. ground arith)
    for_each_member-revoke (x ∷ xs) w (k, h) =
        let after = answered w (revoke x node) in
        let (good, held) =
          for_each_member-revoke xs after
            (known_members_after xs h (G.known-revoke x node w.server)) in
        rw (G.revoke_ok x node w.server k)
          (good, λ d n. held d n ∙ ground (arith, G.granted-revoke x node w.server k d n))
