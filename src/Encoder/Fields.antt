-- ===== src/Encoder/Fields.antt =====
-- One field of a record: its bytes, as a plain function of the type of the column and the argument,
-- and that core/encoder.c writes them.
use libsdlog.Prelude.{
  ℕ, ◌+◌, ◌-◌, ◌%◌, ◌^◌, ◌≡◌, Option, none, some, List, [], ◌∷◌, ◌++◌, length, length-append,
  length-replicate, length-take, replicate, take, leb, if◌then◌else◌, arith,
}
use libsdlog.Outcome.{ok, fault}
use libsdlog.Memory.{Block}
use libsdlog.Model.{get_size_of_column_type, strncpy}
use libsdlog.Endianness.{store16_to_le, store32_to_le, store64_to_le}
use libsdlog.Encoder.{
  Arg, int, int64, double, string, Branch, int8_field, int16_field, int32_field, int64_field,
  float_field, double_field, text_field, array_field, unknown_field, branch_of, encode_field,
}

unfoldable pub branch_size : Branch → ℕ
branch_size int8_field = 1
branch_size int16_field = 2
branch_size int32_field = 4
branch_size int64_field = 8
branch_size float_field = 4
branch_size double_field = 8
branch_size (text_field n) = n
branch_size array_field = 64
branch_size unknown_field = 0

-- The encoder and `get_size_of_column_type` agree on the size of every type.
pub branch_of-size : (type : ℕ) → branch_size (branch_of type) ≡ get_size_of_column_type type
unfolding branch_of branch_size get_size_of_column_type
branch_of-size type = ground arith

pub length-strncpy : (n : ℕ) (s : List ℕ) → length (strncpy n s) ≡ n
length-strncpy n s = omega (
  arith,
  length-append (take n s) (replicate (n - length s) 0),
  length-take n s,
  length-replicate {A = ℕ} (n - length s) 0,
)

module _ (to_float : ℕ → ℕ) where
  -- `none` where the argument has not the type that the column asks for, or the column cannot be
  -- encoded.
  unfoldable pub field_bytes : Branch → Arg → Option (List ℕ)
  field_bytes int8_field (int w) = some (w % 256 ∷ [])
  field_bytes int16_field (int w) = some (store16_to_le (w % 2 ^ 16))
  field_bytes int32_field (int w) = some (store32_to_le w)
  field_bytes int64_field (int64 w) = some (store64_to_le w)
  field_bytes float_field (double d) = some (store32_to_le (to_float d))
  field_bytes double_field (double d) = some (store64_to_le d)
  field_bytes (text_field n) (string s) = some (strncpy n s)
  field_bytes _ _ = none

  pub length-field_bytes :
      (b : Branch) (a : Arg) (bs : List ℕ) → field_bytes b a ≡ some bs → length bs ≡ branch_size b
  unfolding field_bytes branch_size store16_to_le store32_to_le store64_to_le
  length-field_bytes int8_field (int w) bs h = ground arith
  length-field_bytes (text_field n) (string s) bs h = ground (arith, length-strncpy n s)
  length-field_bytes _ _ bs h = ground arith

  -- The bytes are written, and the argument is taken, if there is room for them; otherwise the
  -- encoder writes behind the end of its buffer.
  pub encode_field_lem :
      (b : Branch) (a : Arg) (args : List Arg) (buf : Block ℕ) (bs : List ℕ)
      → field_bytes b a ≡ some bs
      → encode_field to_float b (record { args = a ∷ args; buf = buf }) ≡ (
          if leb (length buf.items + length bs) buf.size
          then (ok tt, record { args = args; buf = record buf { items = buf.items ++ bs } })
          else (fault, record { args = args; buf = buf }))
  unfolding encode_field field_bytes
  encode_field_lem int8_field (int w) args buf bs h = ground arith
  encode_field_lem _ _ args buf bs h = ground arith
