-- ===== src/Endianness/Tests.antt =====
-- Runs of the loads and stores of core/endianness.c.
use libsdlog.Prelude.{◌%◌, ◌^◌, ◌≡◌, refl, some, none, [], ◌∷◌, ◌++◌}
use libsdlog.Endianness.{
  load16_from_le, load32_from_le, load64_from_le, load16_from_be, load32_from_be, load64_from_be,
  store16_to_le, store32_to_le, store64_to_le, store16_to_be, store32_to_be, store64_to_be,
}
use libsdlog.Endianness.RoundTrip.{load-store}

stored : store32_to_le 0x01020304 ≡ 4 ∷ 3 ∷ 2 ∷ 1 ∷ []
unfolding store32_to_le
stored = refl

loaded : load32_from_be (1 ∷ 2 ∷ 3 ∷ 4 ∷ 9 ∷ []) ≡ some 0x01020304
unfolding load32_from_be
loaded = refl

too_short : load16_from_le (1 ∷ []) ≡ none
unfolding load16_from_le
too_short = refl

load-store_example :
    ((load16_from_le (store16_to_le 0x12345678 ++ (7 ∷ [])) ≡ some (0x12345678 % 2 ^ 16))
      × (load32_from_le (store32_to_le 0x12345678 ++ (7 ∷ [])) ≡ some (0x12345678 % 2 ^ 32))
      × (load64_from_le (store64_to_le 0x12345678 ++ (7 ∷ [])) ≡ some (0x12345678 % 2 ^ 64)))
    × ((load16_from_be (store16_to_be 0x12345678 ++ (7 ∷ [])) ≡ some (0x12345678 % 2 ^ 16))
        × (load32_from_be (store32_to_be 0x12345678 ++ (7 ∷ [])) ≡ some (0x12345678 % 2 ^ 32))
        × (load64_from_be (store64_to_be 0x12345678 ++ (7 ∷ [])) ≡ some (0x12345678 % 2 ^ 64)))
load-store_example = load-store 0x12345678 (7 ∷ [])
