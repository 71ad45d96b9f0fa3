-- ===== src/Base/Words.antt =====
-- The operations of JavaScript on 32-bit patterns, each read as an unsigned number.
use Prim.Native.Nat.{ℕ, ◌*◌, ◌/◌, ◌%◌, ◌^◌}

abbrev pub word : ℕ
word = 2 ^ 32

-- `Math.imul`
abbrev pub imul : ℕ → ℕ → ℕ
imul a b = (a * b) % word

-- `>>>`
abbrev pub shr : ℕ → ℕ → ℕ
shr a k = a / 2 ^ k
