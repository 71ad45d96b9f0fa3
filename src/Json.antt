-- ===== src/Json.antt =====
-- JSON values, as `JSON.parse` returns them and `JSON.stringify` takes them. Numbers are whole.
use beauty_awg.Base.{ℕ, zero, suc, ◌+◌, ◌/◌, ◌%◌, Bool, List, [], ◌∷◌, Text, ltb, if◌then◌else◌}
use beauty_awg.Base.Int.{ℤ}
use beauty_awg.Base.Dict.{Dict}

mutual
  pub data Json : Type 0 where
    null : Json
    bool : Bool → Json
    num : ℤ → Json
    str : Text → Json
    arr : Items → Json
    obj : Fields → Json

  pub data Items : Type 0 where
    nil : Items
    cons : Json → Items → Items

  pub data Fields : Type 0 where
    end : Fields
    field : Text → Json → Fields → Fields

abbrev pub items : Items → List Json
items nil = []
items (cons v vs) = v ∷ items vs

abbrev pub fields : Fields → Dict Json
fields end = []
fields (field k v fs) = (k, v) ∷ fields fs

abbrev pub of_items : List Json → Items
of_items [] = nil
of_items (v ∷ vs) = cons v (of_items vs)

abbrev pub of_fields : Dict Json → Fields
of_fields [] = end
of_fields ((k, v) ∷ d) = field k v (of_fields d)

-- The decimal digits of a number, with fuel for one digit at each round.
decimal_from : ℕ → ℕ → Text → Text
decimal_from zero n rest = rest
decimal_from (suc f) n rest =
    let digit = (48 + n % 10) ∷ rest in
    let more = decimal_from f (n / 10) digit in if ltb n 10 then digit else more

-- `String(n)`
unfoldable pub decimal : ℕ → Text
unfolding decimal_from
decimal n = decimal_from (suc n) n []

entries_from : ℕ → List Json → Dict Json
entries_from i [] = []
entries_from i (v ∷ vs) = (decimal i, v) ∷ entries_from (suc i) vs

-- `Object.entries(v)` at a value whose `typeof` is "object": an array has its indices for keys.
unfoldable pub entries : Json → Dict Json
unfolding entries_from
entries (arr vs) = entries_from 0 (items vs)
entries (obj fs) = fields fs
entries _ = []
