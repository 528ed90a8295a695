-- ===== src/Endianness/RoundTrip.antt =====
-- Loading back what a store of endianness.c wrote.
use mathlib.Core.List.{reverse}
use libsdlog.Prelude.{ℕ, ◌+◌, ◌*◌, ◌%◌, ◌^◌, ◌<◌, ◌≡◌, refl, sym, ap, ◌∙◌, List, ◌++◌, some, arith}
use libsdlog.Prelude.Bits.{bit_or-disjoint, bit_or-disjoint_high}
use libsdlog.Endianness.{
  byte, shr, shl, ◌|||◌, load16_from_le, load32_from_le, load64_from_le, load16_from_be,
  load32_from_be, load64_from_be, store16_to_le, store32_to_le, store64_to_le, store16_to_be,
  store32_to_be, store64_to_be,
}

high : (k x b a : ℕ) → x ≡ b * 2 ^ k → a < 2 ^ k → x ||| a ≡ x + a
high k x b a e h = ap (λ t. t ||| a) e ∙ bit_or-disjoint_high k a b h ∙ ap (λ t. t + a) (sym e)

-- 2 bytes joined by `|`, the lowest first.
or16_le : (a b : ℕ) → a < 256 → shl a 0 ||| shl b 8 ≡ a * 2 ^ 0 + b * 2 ^ 8
or16_le a b pa = rw (bit_or-disjoint 8 (a * 2 ^ 0) b (omega arith))

-- 2 bytes joined by `|`, the highest first.
or16_be : (a b : ℕ) → b < 256 → shl a 8 ||| shl b 0 ≡ a * 2 ^ 8 + b * 2 ^ 0
or16_be a b pb = rw (high 8 (a * 2 ^ 8) (a * 2 ^ 0) (b * 2 ^ 0) (omega arith) (omega arith))

-- 4 bytes joined by `|`, the lowest first.
or32_le :
    (a b c d : ℕ)
    → a < 256
    → b < 256
    → c < 256
    → shl a 0 ||| shl b 8 ||| shl c 16 ||| shl d 24
      ≡ a * 2 ^ 0 + b * 2 ^ 8 + c * 2 ^ 16 + d * 2 ^ 24
or32_le a b c d pa pb pc = rw (
  bit_or-disjoint 8 (a * 2 ^ 0) b (omega arith),
  bit_or-disjoint 16 (a * 2 ^ 0 + b * 2 ^ 8) c (omega arith),
  bit_or-disjoint 24 (a * 2 ^ 0 + b * 2 ^ 8 + c * 2 ^ 16) d (omega arith),
)

-- 4 bytes joined by `|`, the highest first.
or32_be :
    (a b c d : ℕ)
    → b < 256
    → c < 256
    → d < 256
    → shl a 24 ||| shl b 16 ||| shl c 8 ||| shl d 0
      ≡ a * 2 ^ 24 + b * 2 ^ 16 + c * 2 ^ 8 + d * 2 ^ 0
or32_be a b c d pb pc pd = rw (
  high 24 (a * 2 ^ 24) (a * 2 ^ 0) (b * 2 ^ 16) (omega arith) (omega arith),
  high 16 (a * 2 ^ 24 + b * 2 ^ 16) (a * 2 ^ 8 + b * 2 ^ 0) (c * 2 ^ 8) (omega arith) (omega arith),
  high 8 (a * 2 ^ 24 + b * 2 ^ 16 + c * 2 ^ 8) (a * 2 ^ 16 + b * 2 ^ 8 + c * 2 ^ 0) (d * 2 ^ 0)
      (omega arith) (omega arith),
)

-- 8 bytes joined by `|`, the lowest first.
or64_le :
    (a b c d e f g h : ℕ)
    → a < 256
    → b < 256
    → c < 256
    → d < 256
    → e < 256
    → f < 256
    → g < 256
    → shl a 0
        ||| shl b 8
        ||| shl c 16
        ||| shl d 24
        ||| shl e 32
        ||| shl f 40
        ||| shl g 48
        ||| shl h 56
      ≡ a * 2 ^ 0
        + b * 2 ^ 8
        + c * 2 ^ 16
        + d * 2 ^ 24
        + e * 2 ^ 32
        + f * 2 ^ 40
        + g * 2 ^ 48
        + h * 2 ^ 56
or64_le a b c d e f g h pa pb pc pd pe pf pg = rw (
  bit_or-disjoint 8 (a * 2 ^ 0) b (omega arith),
  bit_or-disjoint 16 (a * 2 ^ 0 + b * 2 ^ 8) c (omega arith),
  bit_or-disjoint 24 (a * 2 ^ 0 + b * 2 ^ 8 + c * 2 ^ 16) d (omega arith),
  bit_or-disjoint 32 (a * 2 ^ 0 + b * 2 ^ 8 + c * 2 ^ 16 + d * 2 ^ 24) e (omega arith),
  bit_or-disjoint 40 (a * 2 ^ 0 + b * 2 ^ 8 + c * 2 ^ 16 + d * 2 ^ 24 + e * 2 ^ 32) f (omega arith),
  bit_or-disjoint 48 (a * 2 ^ 0 + b * 2 ^ 8 + c * 2 ^ 16 + d * 2 ^ 24 + e * 2 ^ 32 + f * 2 ^ 40) g
      (omega arith),
  bit_or-disjoint 56
      (a * 2 ^ 0 + b * 2 ^ 8 + c * 2 ^ 16 + d * 2 ^ 24 + e * 2 ^ 32 + f * 2 ^ 40 + g * 2 ^ 48) h
      (omega arith),
)

-- 8 bytes joined by `|`, the highest first.
or64_be :
    (a b c d e f g h : ℕ)
    → b < 256
    → c < 256
    → d < 256
    → e < 256
    → f < 256
    → g < 256
    → h < 256
    → shl a 56
        ||| shl b 48
        ||| shl c 40
        ||| shl d 32
        ||| shl e 24
        ||| shl f 16
        ||| shl g 8
        ||| shl h 0
      ≡ a * 2 ^ 56
        + b * 2 ^ 48
        + c * 2 ^ 40
        + d * 2 ^ 32
        + e * 2 ^ 24
        + f * 2 ^ 16
        + g * 2 ^ 8
        + h * 2 ^ 0
or64_be a b c d e f g h pb pc pd pe pf pg ph = rw (
  high 56 (a * 2 ^ 56) (a * 2 ^ 0) (b * 2 ^ 48) (omega arith) (omega arith),
  high 48 (a * 2 ^ 56 + b * 2 ^ 48) (a * 2 ^ 8 + b * 2 ^ 0) (c * 2 ^ 40) (omega arith)
      (omega arith),
  high 40 (a * 2 ^ 56 + b * 2 ^ 48 + c * 2 ^ 40) (a * 2 ^ 16 + b * 2 ^ 8 + c * 2 ^ 0) (d * 2 ^ 32)
      (omega arith) (omega arith),
  high 32 (a * 2 ^ 56 + b * 2 ^ 48 + c * 2 ^ 40 + d * 2 ^ 32)
      (a * 2 ^ 24 + b * 2 ^ 16 + c * 2 ^ 8 + d * 2 ^ 0) (e * 2 ^ 24) (omega arith) (omega arith),
  high 24 (a * 2 ^ 56 + b * 2 ^ 48 + c * 2 ^ 40 + d * 2 ^ 32 + e * 2 ^ 24)
      (a * 2 ^ 32 + b * 2 ^ 24 + c * 2 ^ 16 + d * 2 ^ 8 + e * 2 ^ 0) (f * 2 ^ 16) (omega arith)
      (omega arith),
  high 16 (a * 2 ^ 56 + b * 2 ^ 48 + c * 2 ^ 40 + d * 2 ^ 32 + e * 2 ^ 24 + f * 2 ^ 16)
      (a * 2 ^ 40 + b * 2 ^ 32 + c * 2 ^ 24 + d * 2 ^ 16 + e * 2 ^ 8 + f * 2 ^ 0) (g * 2 ^ 8)
      (omega arith) (omega arith),
  high 8 (a * 2 ^ 56 + b * 2 ^ 48 + c * 2 ^ 40 + d * 2 ^ 32 + e * 2 ^ 24 + f * 2 ^ 16 + g * 2 ^ 8)
      (a * 2 ^ 48 + b * 2 ^ 40 + c * 2 ^ 32 + d * 2 ^ 24 + e * 2 ^ 16 + f * 2 ^ 8 + g * 2 ^ 0)
      (h * 2 ^ 0) (omega arith) (omega arith),
)

load16-store_le :
    (v : ℕ) (rest : List ℕ) → load16_from_le (store16_to_le v ++ rest) ≡ some (v % 2 ^ 16)
unfolding load16_from_le store16_to_le
load16-store_le v rest =
    ap some (or16_le (byte (shr v 0)) (byte (shr v 8)) (omega arith) ∙ omega arith)

load32-store_le :
    (v : ℕ) (rest : List ℕ) → load32_from_le (store32_to_le v ++ rest) ≡ some (v % 2 ^ 32)
unfolding load32_from_le store32_to_le
load32-store_le v rest = ap some (
    or32_le (byte (shr v 0)) (byte (shr v 8)) (byte (shr v 16)) (byte (shr v 24)) (omega arith)
      (omega arith) (omega arith)
    ∙ omega arith)

load64-store_le :
    (v : ℕ) (rest : List ℕ) → load64_from_le (store64_to_le v ++ rest) ≡ some (v % 2 ^ 64)
unfolding load64_from_le store64_to_le
load64-store_le v rest = ap some (
    or64_le (byte (shr v 0)) (byte (shr v 8)) (byte (shr v 16)) (byte (shr v 24)) (byte (shr v 32))
      (byte (shr v 40)) (byte (shr v 48)) (byte (shr v 56)) (omega arith) (omega arith)
      (omega arith) (omega arith) (omega arith) (omega arith) (omega arith)
    ∙ omega arith)

load16-store_be :
    (v : ℕ) (rest : List ℕ) → load16_from_be (store16_to_be v ++ rest) ≡ some (v % 2 ^ 16)
unfolding load16_from_be store16_to_be
load16-store_be v rest =
    ap some (or16_be (byte (shr v 8)) (byte (shr v 0)) (omega arith) ∙ omega arith)

load32-store_be :
    (v : ℕ) (rest : List ℕ) → load32_from_be (store32_to_be v ++ rest) ≡ some (v % 2 ^ 32)
unfolding load32_from_be store32_to_be
load32-store_be v rest = ap some (
    or32_be (byte (shr v 24)) (byte (shr v 16)) (byte (shr v 8)) (byte (shr v 0)) (omega arith)
      (omega arith) (omega arith)
    ∙ omega arith)

load64-store_be :
    (v : ℕ) (rest : List ℕ) → load64_from_be (store64_to_be v ++ rest) ≡ some (v % 2 ^ 64)
unfolding load64_from_be store64_to_be
load64-store_be v rest = ap some (
    or64_be (byte (shr v 56)) (byte (shr v 48)) (byte (shr v 40)) (byte (shr v 32))
      (byte (shr v 24)) (byte (shr v 16)) (byte (shr v 8)) (byte (shr v 0)) (omega arith)
      (omega arith) (omega arith) (omega arith) (omega arith) (omega arith) (omega arith)
    ∙ omega arith)

pub load-store_le :
    (v : ℕ) (rest : List ℕ)
    → (load16_from_le (store16_to_le v ++ rest) ≡ some (v % 2 ^ 16))
      × (load32_from_le (store32_to_le v ++ rest) ≡ some (v % 2 ^ 32))
      × (load64_from_le (store64_to_le v ++ rest) ≡ some (v % 2 ^ 64))
load-store_le v rest = (load16-store_le v rest, load32-store_le v rest, load64-store_le v rest)

load-store_be :
    (v : ℕ) (rest : List ℕ)
    → (load16_from_be (store16_to_be v ++ rest) ≡ some (v % 2 ^ 16))
      × (load32_from_be (store32_to_be v ++ rest) ≡ some (v % 2 ^ 32))
      × (load64_from_be (store64_to_be v ++ rest) ≡ some (v % 2 ^ 64))
load-store_be v rest = (load16-store_be v rest, load32-store_be v rest, load64-store_be v rest)

-- A word of 16, 32 or 64 bits that is stored in little or in big endian order is loaded back whole by
-- the load of the same order and width, whatever stands behind its bytes.
pub load-store :
    (v : ℕ) (rest : List ℕ)
    → ((load16_from_le (store16_to_le v ++ rest) ≡ some (v % 2 ^ 16))
        × (load32_from_le (store32_to_le v ++ rest) ≡ some (v % 2 ^ 32))
        × (load64_from_le (store64_to_le v ++ rest) ≡ some (v % 2 ^ 64)))
      × ((load16_from_be (store16_to_be v ++ rest) ≡ some (v % 2 ^ 16))
          × (load32_from_be (store32_to_be v ++ rest) ≡ some (v % 2 ^ 32))
          × (load64_from_be (store64_to_be v ++ rest) ≡ some (v % 2 ^ 64)))
load-store v rest = (load-store_le v rest, load-store_be v rest)

-- The big endian stores write the bytes of the little endian ones in reverse.
pub store_be-reverse :
    (v : ℕ)
    → (store16_to_be v ≡ reverse (store16_to_le v))
      × (store32_to_be v ≡ reverse (store32_to_le v))
      × (store64_to_be v ≡ reverse (store64_to_le v))
unfolding store16_to_be store16_to_le store32_to_be store32_to_le store64_to_be store64_to_le
store_be-reverse v = (refl, refl, refl)
