-- ===== src/Encoder/Decode.antt =====
-- A reader of log records, written with the load functions of core/endianness.c, and that it gives
-- back the arguments that `sdlog_message_format_encode_va` was called with.
use libsdlog.Prelude.{
  ℕ, zero, suc, ◌+◌, ◌≤◌, ◌==◌, ◌&&◌, Bool, append-nil, ◌-◌, ◌%◌, ◌^◌, ◌≡◌, ◌≢◌, refl, ap, sym, ◌∙◌,
  Option, none, some, List, [], ◌∷◌, ◌++◌, append_assoc, length, length-append, take, drop,
  replicate, leb, if◌then◌else◌, arith, All, take-length_append, drop-length_append,
}
use libsdlog.Endianness.{
  load16_from_le, load32_from_le, load64_from_le, store16_to_le, store32_to_le, store64_to_le,
}
use libsdlog.Endianness.RoundTrip.{load-store_le}
use libsdlog.Memory.{Block}
use libsdlog.Model.{Column, FormatState, c_string, strncpy}
use libsdlog.Model.AddColumn.{Holds}
use libsdlog.Model.Size.{total_size}
use libsdlog.Encoder.{
  Arg, int, int64, double, string, Branch, int8_field, int16_field, int32_field, int64_field,
  float_field, double_field, text_field, array_field, unknown_field, branch_of,
  message_format_encode,
}
use libsdlog.Encoder.Fields.{field_bytes, length-strncpy}
use libsdlog.Encoder.Record.{Encodes, done, field, encode-bytes}

-- What a field holds.
pub data Value : Type 0 where
  word : ℕ → Value
  text : List ℕ → Value

abbrev pub word_and_rest : Option ℕ → List ℕ → Option (Value × List ℕ)
word_and_rest none rest = none
word_and_rest (some w) rest = some (word w, rest)

unfoldable pub decode_field : Branch → List ℕ → Option (Value × List ℕ)
decode_field int8_field [] = none
decode_field int8_field (b ∷ rest) = some (word b, rest)
decode_field int16_field bytes = word_and_rest (load16_from_le bytes) (drop 2 bytes)
decode_field int32_field bytes = word_and_rest (load32_from_le bytes) (drop 4 bytes)
decode_field int64_field bytes = word_and_rest (load64_from_le bytes) (drop 8 bytes)
decode_field float_field bytes = word_and_rest (load32_from_le bytes) (drop 4 bytes)
decode_field double_field bytes = word_and_rest (load64_from_le bytes) (drop 8 bytes)
decode_field (text_field n) bytes =
    if leb n (length bytes) then some (text (c_string (take n bytes)), drop n bytes) else none
decode_field array_field bytes = none
decode_field unknown_field bytes = none

unfoldable pub decode_columns : List Column → List ℕ → Option (List Value × List ℕ)
unfolding decode_field
decode_columns [] bytes = some ([], bytes)
decode_columns (c ∷ cs) bytes = elim (decode_field (branch_of c.type) bytes) [
  | none ↦ none
  | some (v, rest) ↦ elim (decode_columns cs rest) [
    | none ↦ none
    | some (vs, rest') ↦ some (v ∷ vs, rest')
  ]
]

module _ (to_float : ℕ → ℕ) where
  -- The value of an argument in its column: integers in the width of the column, doubles converted to
  -- that of the column, strings cut to the width of the column.
  unfoldable pub value_of : Branch → Arg → Value
  value_of int8_field (int w) = word (w % 2 ^ 8)
  value_of int16_field (int w) = word (w % 2 ^ 16)
  value_of int32_field (int w) = word (w % 2 ^ 32)
  value_of int64_field (int64 w) = word (w % 2 ^ 64)
  value_of float_field (double d) = word (to_float d % 2 ^ 32)
  value_of double_field (double d) = word (d % 2 ^ 64)
  value_of (text_field n) (string s) = text (take n s)
  value_of _ _ = word 0

  unfoldable pub values_of : List Column → List Arg → List Value
  unfolding value_of
  values_of (c ∷ cs) (a ∷ args) = value_of (branch_of c.type) a ∷ values_of cs args
  values_of _ _ = []

-- A C string has no zero byte.
abbrev pub IsArg : Arg → Type 0
IsArg (string s) = All (λ c. c ≢ 0) s
IsArg _ = Unit

c_string-zeros : (n : ℕ) → c_string (replicate n 0) ≡ []
unfolding c_string
c_string-zeros zero = refl
c_string-zeros (suc n) = refl

take-nil : (n : ℕ) → take {A = ℕ} n [] ≡ []
take-nil zero = refl
take-nil (suc n) = refl

c_string-strncpy : (n : ℕ) (s : List ℕ) → All (λ c. c ≢ 0) s → c_string (strncpy n s) ≡ take n s
unfolding c_string
c_string-strncpy n [] v = rw (take-nil n) (c_string-zeros (n - 0))
c_string-strncpy zero (x ∷ xs) v = c_string-zeros (0 - suc (length xs))
c_string-strncpy (suc n) (x ∷ xs) v = ground (arith, c_string-strncpy n xs v.1)

decode16 :
    (w : ℕ) (rest : List ℕ)
    → decode_field int16_field (store16_to_le w ++ rest) ≡ some (word (w % 2 ^ 16), rest)
unfolding decode_field store16_to_le
decode16 w rest = ap (λ o. word_and_rest o rest) (load-store_le w rest).0

decode32 :
    (w : ℕ) (rest : List ℕ)
    → decode_field int32_field (store32_to_le w ++ rest) ≡ some (word (w % 2 ^ 32), rest)
unfolding decode_field store32_to_le
decode32 w rest = ap (λ o. word_and_rest o rest) (load-store_le w rest).1

decode64 :
    (w : ℕ) (rest : List ℕ)
    → decode_field int64_field (store64_to_le w ++ rest) ≡ some (word (w % 2 ^ 64), rest)
unfolding decode_field store64_to_le
decode64 w rest = ap (λ o. word_and_rest o rest) (load-store_le w rest).2

decode_text :
    (n : ℕ) (s rest : List ℕ)
    → All (λ c. c ≢ 0) s
    → decode_field (text_field n) (strncpy n s ++ rest) ≡ some (text (take n s), rest)
unfolding decode_field
decode_text n s rest v =
    let bs = strncpy n s in
    let l = length-strncpy n s in
    ground (
      arith,
      length-append bs rest,
      l,
      c_string-strncpy n s v,
      ap (λ k. take k (bs ++ rest)) (sym l) ∙ take-length_append bs rest,
      ap (λ k. drop k (bs ++ rest)) (sym l) ∙ drop-length_append bs rest,
    )

module _ (to_float : ℕ → ℕ) where
  decode_field_lem :
      (b : Branch) (a : Arg) (bs rest : List ℕ)
      → field_bytes to_float b a ≡ some bs
      → IsArg a
      → decode_field b (bs ++ rest) ≡ some (value_of to_float b a, rest)
  unfolding field_bytes decode_field value_of
  decode_field_lem int8_field (int w) bs rest e v = ground arith
  decode_field_lem int16_field (int w) bs rest e v = ground (arith, decode16 (w % 2 ^ 16) rest)
  decode_field_lem int32_field (int w) bs rest e v = ground (arith, decode32 w rest)
  decode_field_lem int64_field (int64 w) bs rest e v = ground (arith, decode64 w rest)
  decode_field_lem float_field (double d) bs rest e v = ground (arith, decode32 (to_float d) rest)
  decode_field_lem double_field (double d) bs rest e v = ground (arith, decode64 d rest)
  decode_field_lem (text_field n) (string s) bs rest e v = ground (arith, decode_text n s rest v)
  decode_field_lem _ _ bs rest e v = cc

  -- Reading a record back gives, for each column, the value of its argument, and ends behind the last
  -- field.
  pub decode-encode :
      {cs : List Column} {args : List Arg} {bytes : List ℕ} (rest : List ℕ)
      → Encodes to_float cs args bytes
      → All IsArg args
      → decode_columns cs (bytes ++ rest) ≡ some (values_of to_float cs args, rest)
  unfolding decode_columns values_of
  decode-encode rest done v = refl
  decode-encode rest (field {c} {cs} {a} {args} {bs} {rest = more} e es) v = ground (
    arith,
    append_assoc bs more rest,
    decode_field_lem (branch_of c.type) a bs (more ++ rest) e v.0,
    decode-encode rest es v.1,
  )

-- The two sync bytes, the id and the fields of a record; the id and the values are given back with
-- what stands behind the record.
unfoldable pub decode_record : List Column → List ℕ → Option (ℕ × List Value × List ℕ)
unfolding decode_columns
decode_record cs (s0 ∷ s1 ∷ id ∷ bytes) = elim (decode_columns cs bytes) [
  | none ↦ none
  | some (vs, rest) ↦ if (s0 == 0xA3) && (s1 == 0x95) then some (id, vs, rest) else none
]
decode_record cs _ = none

pub decode_record_lem :
    (cs : List Column) (id : ℕ) (bytes : List ℕ) (vs : List Value) (rest : List ℕ)
    → decode_columns cs bytes ≡ some (vs, rest)
    → decode_record cs (0xA3 ∷ 0x95 ∷ id ∷ bytes) ≡ some (id, vs, rest)
unfolding decode_record
decode_record_lem cs id bytes vs rest h = ground (arith, h)

module _ (to_float : ℕ → ℕ) (grant : ℕ → ℕ → Bool) (id : ℕ) (type : List ℕ) (cols : List Column)
    (live : ℕ) (s : FormatState) (holds : Holds grant id type cols live s) (buf : Block ℕ)
    (more : List Arg) where
  -- A record that `sdlog_message_format_encode` wrote for a valid format, from arguments of the right
  -- types into a buffer that is large enough, reads back as the id of the format and, for each
  -- column, the value of its argument; the record ends where the encoder stopped.
  pub decode_record-encode :
      {args : List Arg} {bytes : List ℕ}
      → Encodes to_float cols args bytes
      → 3 + total_size cols ≤ buf.size
      → All IsArg args
      → decode_record cols (message_format_encode to_float s.format buf (args ++ more)).1.buf.items
        ≡ some (id, values_of to_float cols args, [])
  decode_record-encode {args} {bytes} es room v =
      rw (encode-bytes to_float grant id type cols live s holds buf more es room) (
        decode_record_lem cols id bytes (values_of to_float cols args) []
          (rw (sym (append-nil bytes)) (decode-encode to_float [] es v)))
