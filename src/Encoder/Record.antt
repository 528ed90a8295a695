-- ===== src/Encoder/Record.antt =====
-- A whole record: what `sdlog_message_format_encode_va` writes, and when it leaves its buffer.
use mathlib.Core.Path.{subst}
use libsdlog.Prelude.{
  ℕ, ◌+◌, ◌≤◌, ◌<◌, ◌≡◌, refl, ap, sym, Bool, some, List, [], ◌∷◌, ◌++◌, append-nil, append_assoc,
  length, length-append, arith,
}
use libsdlog.Outcome.{ok, fault}
use libsdlog.Memory.{Block}
use libsdlog.Model.{Column, FormatState, message_column_format_get_size}
use libsdlog.Model.AddColumn.{Holds}
use libsdlog.Model.StringLaws.{column_array-built, append_to_lem}
use libsdlog.Model.Size.{total_size}
use libsdlog.Encoder.{
  Arg, EncodeState, branch_of, encode_columns, message_format_encode_va, message_format_encode,
}
use libsdlog.Encoder.Fields.{branch_of-size, field_bytes, length-field_bytes, encode_field_lem}

module _ (to_float : ℕ → ℕ) where
  -- The arguments `args` are those that the columns ask for, and `bytes` is how they are encoded.
  pub data Encodes : List Column → List Arg → List ℕ → Type 0 where
    done : Encodes [] [] []
    field :
        {c : Column} {cs : List Column} {a : Arg} {args : List Arg} {bs rest : List ℕ}
        → field_bytes to_float (branch_of c.type) a ≡ some bs
        → Encodes cs args rest
        → Encodes (c ∷ cs) (a ∷ args) (bs ++ rest)

  pub length-Encodes :
      {cs : List Column} {args : List Arg} {bytes : List ℕ}
      → Encodes cs args bytes
      → length bytes ≡ total_size cs
  unfolding total_size message_column_format_get_size
  length-Encodes done = refl
  length-Encodes (field {c} {a} {bs} {rest} e es) = omega (
    arith,
    length-append bs rest,
    length-field_bytes to_float (branch_of c.type) a bs e,
    branch_of-size c.type,
    length-Encodes es,
  )

  abbrev pub state : List Arg → ℕ → List ℕ → EncodeState
  state args size items = record { args = args; buf = record { size = size; items = items } }

  encode_columns_lem :
      {cs : List Column} {args : List Arg} {bytes : List ℕ} (rest : List Arg) (size : ℕ)
      (items : List ℕ)
      → Encodes cs args bytes
      → length items + length bytes ≤ size
      → encode_columns to_float cs (state (args ++ rest) size items)
        ≡ (ok tt, state rest size (items ++ bytes))
  unfolding encode_columns
  encode_columns_lem rest size items done h =
      ap (λ xs. (ok tt, state rest size xs)) (sym (append-nil items))
  encode_columns_lem rest size items (field {c} {a} {args} {bs} {rest = more} e es) h =
      let l = length-append bs more in
      ground (
        arith,
        encode_field_lem to_float (branch_of c.type) a (args ++ rest)
            (record { size = size; items = items }) bs e,
        encode_columns_lem rest size (items ++ bs) es (omega (arith, l, length-append items bs)),
        append_assoc items bs more,
        l,
      )

  encode_columns_overflow :
      {cs : List Column} {args : List Arg} {bytes : List ℕ} (rest : List Arg) (size : ℕ)
      (items : List ℕ)
      → Encodes cs args bytes
      → length items ≤ size
      → size < length items + length bytes
      → (encode_columns to_float cs (state (args ++ rest) size items)).0 ≡ fault
  unfolding encode_columns
  encode_columns_overflow rest size items done r h = absurd (omega arith)
  encode_columns_overflow rest size items (field {c} {a} {args} {bs} {rest = more} e es) r h =
      ground (
        arith,
        encode_field_lem to_float (branch_of c.type) a (args ++ rest)
            (record { size = size; items = items }) bs e,
        encode_columns_overflow rest size (items ++ bs) es,
        length-append items bs,
        length-append bs more,
      )

  abbrev pub header : ℕ → List ℕ
  header id = 0xA3 ∷ 0x95 ∷ id ∷ []

  module _ (grant : ℕ → ℕ → Bool) (id : ℕ) (type : List ℕ) (cols : List Column) (live : ℕ)
      (s : FormatState) (holds : Holds grant id type cols live s) (buf : Block ℕ)
      (rest : List Arg) where
    -- With arguments of the right types and a buffer that is large enough the record is the two sync
    -- bytes, the id and the fields in the order of the columns. Its length, which is what the caller
    -- gets, is the size of the format and three bytes more; further arguments are not touched.
    pub encode-bytes :
        {args : List Arg} {bytes : List ℕ}
        → Encodes cols args bytes
        → 3 + total_size cols ≤ buf.size
        → message_format_encode to_float s.format buf (args ++ rest)
          ≡ (ok (3 + total_size cols), state rest buf.size (header id ++ bytes))
    unfolding message_format_encode message_format_encode_va
    encode-bytes {args} {bytes} es room =
        subst
          (λ f.
            message_format_encode to_float f buf (args ++ rest)
            ≡ (ok (3 + total_size cols), state rest buf.size (header id ++ bytes)))
          (sym holds.form)
          (ground (
            arith,
            length-Encodes es,
            append_to_lem (record { size = buf.size; items = [] }) (header id) (omega arith),
            column_array-built id type holds.alloc cols,
            encode_columns_lem rest buf.size (header id) es (omega (arith, length-Encodes es)),
          ))

    -- With a smaller buffer, the same call writes behind its end.
    pub encode_overflow :
        {args : List Arg} {bytes : List ℕ}
        → Encodes cols args bytes
        → buf.size < 3 + total_size cols
        → (message_format_encode to_float s.format buf (args ++ rest)).0 ≡ fault
    unfolding message_format_encode message_format_encode_va
    encode_overflow {args} {bytes} es small =
        subst (λ f. (message_format_encode to_float f buf (args ++ rest)).0 ≡ fault)
          (sym holds.form)
          (ground (
            arith,
            length-Encodes es,
            append_to_lem (record { size = buf.size; items = [] }) (header id),
            column_array-built id type holds.alloc cols,
            encode_columns_overflow rest buf.size (header id) es,
          ))
