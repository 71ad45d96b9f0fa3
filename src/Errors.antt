-- ===== src/Errors.antt =====
-- web/app/lib/errors.ts: plain sentences for what can be thrown.
pub mod Patterns
pub mod Laws
mod Tests
use beauty_awg.Base.{
  ℕ, zero, suc, ◌+◌, ◌≡◌, Bool, true, false, ◌||◌, ◌&&◌, Option, none, some, List, [], ◌∷◌, ◌++◌,
  Text, codes, eqb, leb, if◌then◌else◌, is_space, trim_start, trim, ◌or_text◌, ◌==◌, starts_with,
  String, drop,
}
use Patterns.{Pattern, phrase, enclosed, quoted, spanned, search_for, includes_text}

-- What a `catch` receives: an `ApiError` of lib/api.ts, another `Error`, or any other value, of
-- which only `String(e)` is read.
pub data Thrown : Type 0 where
  api_error : ℕ → Text → Thrown
  error : Text → Thrown
  other : Text → Thrown

unfoldable pub message : Thrown → Text
message (api_error status text) = text
message (error text) = text
message (other text) = text

-- An entry of `MATCHES`: its test, and its sentence for the captured group.
pub record Match : Type 0 where
  pub test : Pattern
  pub say : Text → Text

-- The advice for a device that already has an exit, which names that exit.
unfoldable pub exit_advice : Text → Text
exit_advice name =
    codes "This device already browses the internet through “"
    ++ name
    ++ codes "”. A device can use only one internet exit at a time — turn it off on “"
    ++ name
    ++ codes "” first, then switch it on here."

abbrev fixed : String → String → Match
fixed test text = record { test = phrase (codes test); say = λ _. codes text }

unfoldable pub matches : List Match
matches =
    record {
      test = enclosed (codes "subnets overlap (") b')';
      say = λ _.
          codes
            "These two locations use the same local network range, so traffic can't tell them apart. Change one router's range (for example from 192.168.1.x to 192.168.5.x) and try again.";
    }
    ∷ record {
      test = quoted (codes "already sends all traffic through \"") b'"';
      say = exit_advice;
    }
    ∷ fixed "internet-exit hub node cannot be part of a site-to-site link"
        "The internet exit can't be linked to another location."
    ∷ fixed "internet-exit hub node is already a full-tunnel exit"
        "The internet exit already sends all traffic — no extra setting needed."
    ∷ fixed "a node cannot link to itself" "A location can't link to itself."
    ∷ fixed "both nodes must exist and be active"
        "Both locations need to be approved and online before you can link them."
    ∷ fixed "both nodes must have at least one LAN subnet"
        "Both locations need a local network range set before you can link them."
    ∷ record {
      test = spanned (codes "pool ") (codes " exhausted");
      say = λ _. codes "No addresses left. Delete an unused device to free one up.";
    }
    ∷ fixed "node not found" "That location no longer exists. Refresh the page."
    ∷ fixed "grant does not exist" "That access was already removed. Refresh the page."
    ∷ fixed "name required" "Please enter a name."
    ∷ fixed "name, lan_iface and at least one subnet required"
        "Please fill in the name and the local network range."
    ∷ fixed "bad subnet" "That local network range isn't valid. Use a form like 192.168.1.0/24."
    ∷ fixed "bad dest"
        "That destination isn't valid. Use a range like 192.168.1.0/24, or a single machine written as 192.168.1.50/32."
    ∷ fixed "invalid credentials" "Wrong username or password."
    ∷ fixed "color must be empty or" "That color isn't valid."
    ∷ []

-- The loop over `MATCHES`: the first entry whose test hits.
unfoldable pub first_match : List Match → Text → Option Text
first_match [] raw = none
first_match (m ∷ ms) raw = elim (search_for m.test raw) [
  | some captured ↦ some (m.say captured)
  | none ↦ first_match ms raw
]

unfoldable pub status_sentence : Thrown → Option Text
status_sentence (api_error status text) =
    if eqb status 401
    then some (codes "Your session expired. Please sign in again.")
    else if eqb status 403
    then some (codes "You don't have permission to do that.")
    else if eqb status 404
    then some (codes "That item no longer exists. Refresh the page.")
    else if eqb status 409
    then some (codes "Something else changed this at the same time. Refresh and try again.")
    else if leb 500 status
    then some (codes "The server had a problem. Try again in a moment.")
    else none
status_sentence _ = none

is_word : ℕ → Bool
is_word c =
    (leb b'a' c && leb c b'z')
    || (leb b'A' c && leb c b'Z')
    || (leb b'0' c && leb c b'9')
    || eqb c b'_'

-- `/^\w*Error:/` from a place in the leading word: what follows the colon. The colon ends the
-- word, so the letters before it are the only place for "Error".
after_error : Text → Option Text
unfolding is_word
after_error [] = none
after_error (c ∷ s) =
    if starts_with (c ∷ s) (codes "Error:")
    then some (drop 6 (c ∷ s))
    else if is_word c
    then after_error s
    else none

-- `raw.replace(/^\w*Error:\s*/, "").trim()`
unfoldable pub cleaned : Text → Text
unfolding after_error
cleaned raw = trim (elim (after_error raw) [ none ↦ raw | some rest ↦ trim_start rest ])

unfoldable pub human_error : Thrown → Text
unfolding status_sentence
human_error e =
    let raw = message e in
    elim (first_match matches raw) [
      | some sentence ↦ sentence
      | none ↦ elim (status_sentence e) [
        | some sentence ↦ sentence
        | none ↦
            if includes_text raw (codes "Failed to fetch")
              || includes_text raw (codes "NetworkError")
            then codes "Can't reach the panel. Check your connection and try again."
            else cleaned raw or_text codes "Something went wrong. Please try again."
      ]
    ]
