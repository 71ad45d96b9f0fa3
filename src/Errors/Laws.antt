-- ===== src/Errors/Laws.antt =====
-- What the sentences guarantee.
use beauty_awg.Base.{
  ℕ, ◌≡◌, ◌≢◌, ◌||◌, none, some, List, [], ◌∷◌, ◌++◌, arith, Text, codes, if◌then◌else◌, All,
  Option-cases, inl, inr, ◌or_text◌,
}
use beauty_awg.Errors.{
  Thrown, api_error, error, other, message, Match, matches, exit_advice, first_match,
  status_sentence, human_error, cleaned,
}
use beauty_awg.Errors.Patterns.{
  enclosed, quoted, search_for, match_at, after_phrase, until, includes_text,
}

first_match-ne-nil :
    (ms : List Match) (raw s : Text)
    → All (λ m. (t : Text) → m.say t ≢ []) ms
    → first_match ms raw ≡ some s
    → s ≢ []
unfolding first_match
first_match-ne-nil [] raw s h e = cc
first_match-ne-nil (m ∷ ms) raw s (here, later) e = elim (Option-cases (search_for m.test raw)) [
  | inl miss ↦ first_match-ne-nil ms raw s later (ground arith)
  | inr (t, hit) ↦ ground (arith, here t)
]

matches_say : All (λ m. (t : Text) → m.say t ≢ []) matches
unfolding matches codes exit_advice
matches_say = (
  λ t h. cc,
  (
    λ t h. cc,
    (
      λ t h. cc,
      (
        λ t h. cc,
        (
          λ t h. cc,
          (
            λ t h. cc,
            (
              λ t h. cc,
              (
                λ t h. cc,
                (
                  λ t h. cc,
                  (
                    λ t h. cc,
                    (
                      λ t h. cc,
                      (λ t h. cc, (λ t h. cc, (λ t h. cc, (λ t h. cc, (λ t h. cc, tt))))),
                    ),
                  ),
                ),
              ),
            ),
          ),
        ),
      ),
    ),
  ),
)

status_sentence-ne-nil : (e : Thrown) (s : Text) → status_sentence e ≡ some s → s ≢ []
unfolding status_sentence codes
status_sentence-ne-nil (api_error status text) s h = ground arith
status_sentence-ne-nil (error text) s h = cc
status_sentence-ne-nil (other text) s h = cc

or_text-ne-nil : (s t : Text) → t ≢ [] → (s or_text t) ≢ []
or_text-ne-nil [] t h = h
or_text-ne-nil (c ∷ s) t h = λ e. cc

last_resort-ne-nil :
    (raw : Text)
    → (if includes_text raw (codes "Failed to fetch") || includes_text raw (codes "NetworkError")
        then codes "Can't reach the panel. Check your connection and try again."
        else cleaned raw or_text codes "Something went wrong. Please try again.")
      ≢ []
unfolding codes
last_resort-ne-nil raw =
    ground (arith, or_text-ne-nil (cleaned raw) (codes "Something went wrong. Please try again."))

-- Whatever is thrown, an empty message included, the user is shown some text.
pub human_error-ne-nil : (e : Thrown) → human_error e ≢ []
unfolding human_error
human_error-ne-nil e = elim (Option-cases (first_match matches (message e))) [
  | inr (s, hit) ↦ ground (arith, first_match-ne-nil matches (message e) s matches_say hit)
  | inl miss ↦ elim (Option-cases (status_sentence e)) [
    | inr (s, hit) ↦ ground (arith, status_sentence-ne-nil e s hit)
    | inl unknown ↦ ground (arith, last_resort-ne-nil (message e))
  ]
]

-- The backend's refusal of a second exit, as `this device already sends all traffic through %q`
-- prints it for a name without quotes.
abbrev pub second_exit : Text → Text → Text
second_exit name rest =
    codes "this device already sends all traffic through \"" ++ name ++ b'"' ∷ rest

until-append :
    (name : Text) (stop : ℕ) (rest : Text)
    → All (λ c. c ≢ stop) name
    → until stop (name ++ stop ∷ rest) ≡ some name
unfolding until
until-append [] stop rest h = ground arith
until-append (c ∷ name) stop rest (ne, h) = ground (arith, until-append name stop rest h)

search_for-second_exit :
    (c : ℕ) (name rest : Text)
    → All (λ d. d ≢ b'"') (c ∷ name)
    → search_for
        (quoted (codes "already sends all traffic through \"") b'"')
        (second_exit (c ∷ name) rest)
      ≡ some (c ∷ name)
unfolding search_for match_at after_phrase codes
search_for-second_exit c name rest h = ground (arith, until-append (c ∷ name) b'"' rest h)

-- When the backend refuses a second internet exit, the advice names the location to turn off,
-- unless the name makes the refusal read like an overlap of subnets.
pub human_error-second_exit :
    (status c : ℕ) (name rest : Text)
    → All (λ d. d ≢ b'"') (c ∷ name)
    → search_for (enclosed (codes "subnets overlap (") b')') (second_exit (c ∷ name) rest) ≡ none
    → human_error (api_error status (second_exit (c ∷ name) rest)) ≡ exit_advice (c ∷ name)
unfolding human_error message first_match matches
human_error-second_exit status c name rest h no_overlap =
    ground (arith, search_for-second_exit c name rest h)
