-- ===== src/Endianness.antt =====
-- core/endianness.c: loads and stores of 16, 32 and 64-bit words in little and big endian order.
-- A word is a number below 2 ^ w, a byte array the list of its bytes. A store gives the bytes that
-- it writes to `dest[0]`, `dest[1]`, …; a load is `none` where it would read behind the array.
pub mod RoundTrip
mod Tests
use libsdlog.Prelude.{ℕ, ◌*◌, ◌/◌, ◌%◌, ◌^◌, bit_or, List, [], ◌∷◌, Option, none, some}

-- The conversion to `unsigned char` that an assignment to `dest[i]` makes.
abbrev pub byte : ℕ → ℕ
byte v = v % 256

-- `x >> k` and `x << k`. The operands of `<<` are bytes in words that are wide enough.
abbrev pub shr : ℕ → ℕ → ℕ
shr x k = x / 2 ^ k

abbrev pub shl : ℕ → ℕ → ℕ
shl x k = x * 2 ^ k

infixl 60 ◌|||◌
abbrev pub ◌|||◌ : ℕ → ℕ → ℕ
a ||| b = bit_or a b

unfoldable pub load16_from_le : List ℕ → Option ℕ
load16_from_le (s0 ∷ s1 ∷ rest) = some (shl s0 0 ||| shl s1 8)
load16_from_le _ = none

unfoldable pub load32_from_le : List ℕ → Option ℕ
load32_from_le (s0 ∷ s1 ∷ s2 ∷ s3 ∷ rest) = some (shl s0 0 ||| shl s1 8 ||| shl s2 16 ||| shl s3 24)
load32_from_le _ = none

unfoldable pub load64_from_le : List ℕ → Option ℕ
load64_from_le (s0 ∷ s1 ∷ s2 ∷ s3 ∷ s4 ∷ s5 ∷ s6 ∷ s7 ∷ rest) = some (
    shl s0 0
    ||| shl s1 8
    ||| shl s2 16
    ||| shl s3 24
    ||| shl s4 32
    ||| shl s5 40
    ||| shl s6 48
    ||| shl s7 56)
load64_from_le _ = none

unfoldable pub load16_from_be : List ℕ → Option ℕ
load16_from_be (s0 ∷ s1 ∷ rest) = some (shl s0 8 ||| shl s1 0)
load16_from_be _ = none

unfoldable pub load32_from_be : List ℕ → Option ℕ
load32_from_be (s0 ∷ s1 ∷ s2 ∷ s3 ∷ rest) = some (shl s0 24 ||| shl s1 16 ||| shl s2 8 ||| shl s3 0)
load32_from_be _ = none

unfoldable pub load64_from_be : List ℕ → Option ℕ
load64_from_be (s0 ∷ s1 ∷ s2 ∷ s3 ∷ s4 ∷ s5 ∷ s6 ∷ s7 ∷ rest) = some (
    shl s0 56
    ||| shl s1 48
    ||| shl s2 40
    ||| shl s3 32
    ||| shl s4 24
    ||| shl s5 16
    ||| shl s6 8
    ||| shl s7 0)
load64_from_be _ = none

unfoldable pub store16_to_le : ℕ → List ℕ
store16_to_le val = byte (shr val 0) ∷ byte (shr val 8) ∷ []

unfoldable pub store32_to_le : ℕ → List ℕ
store32_to_le val = byte (shr val 0) ∷ byte (shr val 8) ∷ byte (shr val 16) ∷ byte (shr val 24) ∷ []

unfoldable pub store64_to_le : ℕ → List ℕ
store64_to_le val =
    byte (shr val 0)
    ∷ byte (shr val 8)
    ∷ byte (shr val 16)
    ∷ byte (shr val 24)
    ∷ byte (shr val 32)
    ∷ byte (shr val 40)
    ∷ byte (shr val 48)
    ∷ byte (shr val 56)
    ∷ []

unfoldable pub store16_to_be : ℕ → List ℕ
store16_to_be val = byte (shr val 8) ∷ byte (shr val 0) ∷ []

unfoldable pub store32_to_be : ℕ → List ℕ
store32_to_be val = byte (shr val 24) ∷ byte (shr val 16) ∷ byte (shr val 8) ∷ byte (shr val 0) ∷ []

unfoldable pub store64_to_be : ℕ → List ℕ
store64_to_be val =
    byte (shr val 56)
    ∷ byte (shr val 48)
    ∷ byte (shr val 40)
    ∷ byte (shr val 32)
    ∷ byte (shr val 24)
    ∷ byte (shr val 16)
    ∷ byte (shr val 8)
    ∷ byte (shr val 0)
    ∷ []
