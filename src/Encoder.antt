-- ===== src/Encoder.antt =====
-- core/encoder.c: the encoding of a log record from a format and a list of variadic arguments.
pub mod Fields
pub mod Record
pub mod Decode
pub mod Ending
pub mod Errors
pub mod Tests
pub mod Typing
use libsdlog.Prelude.{ℕ, ◌%◌, ◌^◌, Option, none, some, List, [], ◌∷◌, length, ◌==◌, if◌then◌else◌}
use libsdlog.Outcome.{
  Outcome, ok, einval, unimplemented, Cmd, pure, throw, crash, deref, ◌>>=◌, ◌>>◌,
}
use libsdlog.Memory.{Block, append_to}
use libsdlog.Model.{Column, Format, is_one_of, strncpy, column_array}
use libsdlog.Endianness.{byte, store16_to_le, store32_to_le, store64_to_le}

-- A variadic argument after the default promotions. Integers and doubles are the bit patterns of
-- their 32 or 64 bits, strings the bytes before the terminator.
pub data Arg : Type 0 where
  int : ℕ → Arg
  int64 : ℕ → Arg
  double : ℕ → Arg
  string : List ℕ → Arg

-- The arguments that `va_arg` has not yet taken, and the buffer: `write_ptr` stands behind the bytes
-- that have been stored since the call began.
pub record EncodeState : Type 0 where
  pub args : List Arg
  pub buf : Block ℕ

-- `va_arg` of a type. An argument that is missing or of another type is undefined behaviour.
abbrev pub take_int : List Arg → Option (ℕ × List Arg)
take_int (int w ∷ args) = some (w, args)
take_int _ = none

abbrev pub take_int64 : List Arg → Option (ℕ × List Arg)
take_int64 (int64 w ∷ args) = some (w, args)
take_int64 _ = none

abbrev pub take_double : List Arg → Option (ℕ × List Arg)
take_double (double d ∷ args) = some (d, args)
take_double _ = none

abbrev pub take_string : List Arg → Option (List ℕ × List Arg)
take_string (string s ∷ args) = some (s, args)
take_string _ = none

abbrev pub va_arg : {A : Type 0} → (List Arg → Option (A × List Arg)) → Cmd EncodeState A
va_arg take s = elim (take s.args) [
  | none ↦ crash s
  | some (a, args) ↦ (ok a, record s { args = args })
]

-- Bytes written at `write_ptr`, which moves behind them.
abbrev pub put : List ℕ → Cmd EncodeState (Unit {0})
put bytes s = elim (append_to s.buf bytes) [
  | none ↦ crash s
  | some buf ↦ (ok tt, record s { buf = buf })
]

-- The branches of the `switch` over the type of a column; `text` with its `num_bytes`.
pub data Branch : Type 0 where
  int8_field int16_field int32_field int64_field float_field double_field : Branch
  text_field : ℕ → Branch
  array_field unknown_field : Branch

unfoldable pub branch_of : ℕ → Branch
branch_of type =
    if is_one_of type (b'b' ∷ b'B' ∷ b'M' ∷ [])
    then int8_field
    else if is_one_of type (b'c' ∷ b'C' ∷ b'h' ∷ b'H' ∷ [])
    then int16_field
    else if is_one_of type (b'e' ∷ b'E' ∷ b'L' ∷ b'i' ∷ b'I' ∷ [])
    then int32_field
    else if is_one_of type (b'q' ∷ b'Q' ∷ [])
    then int64_field
    else if is_one_of type (b'f' ∷ [])
    then float_field
    else if is_one_of type (b'd' ∷ [])
    then double_field
    else if is_one_of type (b'n' ∷ b'N' ∷ b'Z' ∷ [])
    then text_field (if type == b'Z' then 64 else if type == b'N' then 16 else 4)
    else if is_one_of type (b'a' ∷ [])
    then array_field
    else unknown_field

-- `to_float` is the conversion of a `double` to the nearest `float`, on bit patterns; the compiler
-- and the processor make it.
module _ (to_float : ℕ → ℕ) where
  -- One round of the loop. `strncpy` writes all of the `num_bytes` bytes that `memset` cleared.
  unfoldable pub encode_field : Branch → Cmd EncodeState (Unit {0})
  unfolding store16_to_le store32_to_le store64_to_le append_to
  encode_field int8_field = do w ← va_arg take_int; put (byte w ∷ [])
  encode_field int16_field = do w ← va_arg take_int; put (store16_to_le (w % 2 ^ 16))
  encode_field int32_field = do w ← va_arg take_int; put (store32_to_le w)
  encode_field int64_field = do w ← va_arg take_int64; put (store64_to_le w)
  encode_field float_field = do d ← va_arg take_double; put (store32_to_le (to_float d))
  encode_field double_field = do d ← va_arg take_double; put (store64_to_le d)
  encode_field (text_field num_bytes) = do s ← va_arg take_string; put (strncpy num_bytes s)
  encode_field array_field = throw unimplemented
  encode_field unknown_field = throw einval

  unfoldable pub encode_columns : List Column → Cmd EncodeState (Unit {0})
  unfolding branch_of encode_field
  encode_columns [] = pure tt
  encode_columns (column ∷ columns) = do
    encode_field (branch_of column.type)
    encode_columns columns

  -- The result is `*written`.
  unfoldable pub message_format_encode_va : Format → Cmd EncodeState ℕ
  unfolding column_array encode_columns append_to
  message_format_encode_va format = do
    put (0xA3 ∷ 0x95 ∷ format.id ∷ [])
    columns ← deref (column_array format)
    encode_columns columns
    λ s. (ok (length s.buf.items), s)

  -- The variadic front of `message_format_encode_va`: the block `buf` is written from its start.
  unfoldable pub message_format_encode : Format → Block ℕ → List Arg → Outcome ℕ × EncodeState
  unfolding message_format_encode_va
  message_format_encode format buf args =
      message_format_encode_va format
        (record { args = args; buf = record { size = buf.size; items = [] } })
