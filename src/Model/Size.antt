-- ===== src/Model/Size.antt =====
-- What the getters of core/model.c return for a format that satisfies the invariant.
use mathlib.Core.Path.{subst}
use libsdlog.Prelude.{
  ℕ, zero, suc, ◌+◌, ◌-◌, ◌*◌, ◌%◌, ◌^◌, ◌≤◌, ◌<◌, ◌≡◌, ◌≢◌, refl, ap, sym, ◌∙◌, Bool, some, List,
  [], ◌∷◌, ◌++◌, length, All, arith, take_all, replicate,
}
use libsdlog.Model.{
  Column, FormatState, get_size_of_column_type, c_string, message_format_get_type, sum_sizes,
  message_format_get_size, message_column_format_get_size,
}
use libsdlog.Model.AddColumn.{Holds}
use libsdlog.Model.StringLaws.{column_array-built}
use libsdlog.Model.Lifecycle.{type_array}

-- The sum of the sizes of the columns.
unfoldable pub total_size : List Column → ℕ
total_size [] = 0
total_size (c ∷ cs) = message_column_format_get_size c + total_size cs

column_size_le : (t : ℕ) → get_size_of_column_type t ≤ 64
unfolding get_size_of_column_type
column_size_le t = ground arith

pub total_size_le : (cs : List Column) → total_size cs ≤ 64 * length cs
unfolding total_size message_column_format_get_size
total_size_le [] = omega arith
total_size_le (c ∷ cs) = omega (arith, column_size_le c.type, total_size_le cs)

sum_sizes_lem :
    (r : ℕ) (cs : List Column) → r + total_size cs < 2 ^ 16 → sum_sizes r cs ≡ r + total_size cs
unfolding sum_sizes total_size message_column_format_get_size
sum_sizes_lem r [] h = omega arith
sum_sizes_lem r (c ∷ cs) h =
    let size = get_size_of_column_type c.type in
    omega (arith, sum_sizes_lem ((r + size) % 2 ^ 16) cs (omega arith))

-- The `uint16_t` sum of a valid format does not wrap: its size is the sum of those of its columns.
pub get_size-total_size :
    (grant : ℕ → ℕ → Bool) (id : ℕ) (type : List ℕ) (cols : List Column) (live : ℕ)
    (s : FormatState)
    → Holds grant id type cols live s
    → message_format_get_size s.format ≡ some (total_size cols)
unfolding message_format_get_size
get_size-total_size grant id type cols live s h =
    subst (λ f. message_format_get_size f ≡ some (total_size cols)) (sym h.form)
      (rw (column_array-built id type h.alloc cols) (
        ap some (
          sum_sizes_lem 0 cols (omega (arith, total_size_le cols, h.fits, h.grown)) ∙ omega arith)))

c_string_append :
    (xs : List ℕ) (n : ℕ) → All (λ x. x ≢ 0) xs → c_string (xs ++ replicate n 0 ++ 0 ∷ []) ≡ xs
unfolding c_string
c_string_append [] zero v = refl
c_string_append [] (suc n) v = refl
c_string_append (x ∷ xs) n v = ground (arith, c_string_append xs n v.1)

-- A format gives back the type that it was made with.
pub get_type-init :
    (grant : ℕ → ℕ → Bool) (id : ℕ) (type : List ℕ) (cols : List Column) (live : ℕ)
    (s : FormatState)
    → Holds grant id (type_array type) cols live s
    → length type ≤ 4
    → All (λ c. c ≢ 0) type
    → message_format_get_type s.format ≡ type
unfolding message_format_get_type
get_type-init grant id type cols live s h short nonzero =
    rw (ap (λ f. c_string f.type) h.form, take_all 4 type short)
      (c_string_append type (4 - length type) nonzero)
