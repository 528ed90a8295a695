-- ===== src/Encoder/Tests.antt =====
-- Runs of core/encoder.c on a format with a time and an altitude.
use libsdlog.Prelude.{All, ℕ, ◌≡◌, ◌≢◌, ◌+◌, ◌≤◌, refl, some, List, [], ◌∷◌, ◌++◌, arith, codes}
use libsdlog.Outcome.{ok, fail, fault, einval, unimplemented}
use libsdlog.Memory.{Block}
use libsdlog.Model.{Column, FormatState, message_column_format_get_size, get_size_of_column_type}
use libsdlog.Model.Size.{total_size}
use libsdlog.Model.AddColumn.{column, Holds}
use libsdlog.Model.Invariant.{IsValidColumn, built, at}
use libsdlog.Encoder.Typing.{type_of, check_call, ending, typed, mistyped, no_array, no_type}
use libsdlog.Encoder.Ending.{encode-check_call}
use libsdlog.Model.Lifecycle.{type_array}
use libsdlog.Model.Tests.{grants, heap, two_columns, two, two-Holds}
use libsdlog.Encoder.{
  Arg, int, int64, double, branch_of, encode_field, array_field, unknown_field,
  message_format_encode,
}
use libsdlog.Endianness.{store32_to_le, store64_to_le}
use libsdlog.Encoder.Fields.{field_bytes}
use libsdlog.Encoder.Record.{Encodes, done, field, state, encode-bytes, encode_overflow}
use libsdlog.Encoder.Decode.{decode_record, values_of, word, decode_record-encode}

-- The upper half of a pattern: enough for a double whose value is a power of two near one.
abbrev pub to_float : ℕ → ℕ
to_float d = 0x3F800000

abbrev pub args : List Arg
args = int64 258 ∷ double 0x3FF0000000000000 ∷ []

abbrev pub fields : List ℕ
fields = (2 ∷ 1 ∷ 0 ∷ 0 ∷ 0 ∷ 0 ∷ 0 ∷ 0 ∷ []) ++ ((0 ∷ 0 ∷ 0x80 ∷ 0x3F ∷ []) ++ [])

abbrev block : ℕ → Block ℕ
block n = record { size = n; items = [] }

pub args-Encodes : Encodes to_float two_columns args fields
unfolding field_bytes branch_of store32_to_le store64_to_le
args-Encodes =
    field {c = column (codes "t") b'Q' b's'} {a = int64 258}
      {bs = 2 ∷ 1 ∷ 0 ∷ 0 ∷ 0 ∷ 0 ∷ 0 ∷ 0 ∷ []} refl
      (field {c = column (codes "alt") b'f' b'm'} {a = double 0x3FF0000000000000}
        {bs = 0 ∷ 0 ∷ 0x80 ∷ 0x3F ∷ []} refl done)

encode-bytes_example :
    message_format_encode to_float two.format (block 256) (args ++ (int 9 ∷ []))
    ≡ (ok 15, state to_float (int 9 ∷ []) 256 (0xA3 ∷ 0x95 ∷ 5 ∷ fields))
unfolding total_size message_column_format_get_size get_size_of_column_type
encode-bytes_example =
    encode-bytes to_float grants 5 (type_array (codes "GPS")) two_columns 10 two two-Holds
      (block 256) (int 9 ∷ []) args-Encodes (omega arith)

encode_overflow_example :
    (message_format_encode to_float two.format (block 14) (args ++ [])).0 ≡ fault
unfolding total_size message_column_format_get_size get_size_of_column_type
encode_overflow_example =
    encode_overflow to_float grants 5 (type_array (codes "GPS")) two_columns 10 two two-Holds
      (block 14) [] args-Encodes (omega arith)

decode_record-encode_example :
    decode_record two_columns
      (message_format_encode to_float two.format (block 256) (args ++ [])).1.buf.items
    ≡ some (5, word 258 ∷ word 0x3F800000 ∷ [], [])
unfolding total_size message_column_format_get_size get_size_of_column_type values_of branch_of
decode_record-encode_example =
    decode_record-encode to_float grants 5 (type_array (codes "GPS")) two_columns 10 two two-Holds
      (block 256) [] args-Encodes (omega arith) (tt, (tt, tt))

-- Arrays are not implemented, and an unknown type is refused.
refusals :
    ((encode_field to_float array_field (state to_float args 256 [])).0 ≡ fail unimplemented)
    × ((encode_field to_float unknown_field (state to_float args 256 [])).0 ≡ fail einval)
unfolding encode_field
refusals = (refl, refl)

-- The two columns and an array behind them.
abbrev three_columns : List Column
three_columns = two_columns ++ column (codes "v") b'a' b'-' ∷ []

three-IsValid : All IsValidColumn three_columns
unfolding get_size_of_column_type
three-IsValid = (
  (λ e. absurd (omega (arith, e)), refl),
  ((λ e. absurd (omega (arith, e)), refl), ((λ e. absurd (omega (arith, e)), refl), tt)),
)

abbrev three : FormatState
three = at (built 6 (type_array (codes "ARR")) 4 three_columns) (heap 10)

three-Holds : Holds grants 6 (type_array (codes "ARR")) three_columns 10 three
three-Holds = record {
  alloc = 4;
  form = refl;
  fits = omega arith;
  grown = omega arith;
  valid = three-IsValid;
  blocks = refl;
  owned = omega arith;
  oracle = refl;
}

three_fits : 3 + total_size three_columns ≤ 256
unfolding total_size message_column_format_get_size get_size_of_column_type
three_fits = omega arith

-- The array ends the call.
encode-check_call_example :
    ((message_format_encode to_float three.format (block 256) args).0
      ≡ ending (check_call three_columns args) (3 + total_size three_columns))
    × (check_call three_columns args ≢ no_type)
encode-check_call_example =
    encode-check_call to_float grants 6 (type_array (codes "ARR")) three_columns 10 three
      (block 256) args three-Holds three_fits

verdicts :
    (check_call three_columns args ≡ no_array)
    × (check_call two_columns args ≡ typed)
    × (check_call three_columns (args ++ (int 9 ∷ [])) ≡ no_array)
    × (check_call two_columns (double 0x3FF0000000000000 ∷ args) ≡ mistyped)
unfolding check_call type_of
verdicts = (refl, refl, refl, refl)
