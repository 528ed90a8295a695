-- ===== src/Encoder/Errors.antt =====
-- core/encoder.c: a record with a column that the encoder cannot write.
use mathlib.Core.Path.{subst}
use libsdlog.Prelude.{
  ℕ, ◌+◌, ◌≤◌, ◌≡◌, refl, ap, sym, Bool, List, [], ◌∷◌, ◌++◌, append-nil, append_assoc, length,
  length-append, arith,
}
use libsdlog.Outcome.{fail, unimplemented}
use libsdlog.Memory.{Block}
use libsdlog.Model.{Column, FormatState}
use libsdlog.Model.AddColumn.{Holds}
use libsdlog.Model.StringLaws.{column_array-built, append_to_lem}
use libsdlog.Model.Size.{total_size}
use libsdlog.Encoder.{
  Arg, EncodeState, branch_of, encode_field, encode_columns, message_format_encode_va,
  message_format_encode,
}
use libsdlog.Encoder.Fields.{encode_field_lem}
use libsdlog.Encoder.Record.{Encodes, done, field, length-Encodes, state, header}

module _ (to_float : ℕ → ℕ) where
  -- The first columns are encoded, and the loop goes on with the others.
  encode_columns-append :
      {cs : List Column} {args : List Arg} {bytes : List ℕ} (ds : List Column) (rest : List Arg)
      (size : ℕ) (items : List ℕ)
      → Encodes to_float cs args bytes
      → length items + length bytes ≤ size
      → encode_columns to_float (cs ++ ds) (state to_float (args ++ rest) size items)
        ≡ encode_columns to_float ds (state to_float rest size (items ++ bytes))
  unfolding encode_columns
  encode_columns-append ds rest size items done h =
      ap (λ xs. encode_columns to_float ds (state to_float rest size xs)) (sym (append-nil items))
  encode_columns-append ds rest size items (field {c} {a} {args} {bs} {rest = more} e es) h =
      let l = length-append bs more in
      ground (
        arith,
        encode_field_lem to_float (branch_of c.type) a (args ++ rest)
            (record { size = size; items = items }) bs e,
        encode_columns-append ds rest size (items ++ bs) es
            (omega (arith, l, length-append items bs)),
        append_assoc items bs more,
        l,
      )

  stops_at_array :
      (c : Column) (more : List Column) (s : EncodeState)
      → c.type ≡ b'a'
      → encode_columns to_float (c ∷ more) s ≡ (fail unimplemented, s)
  unfolding encode_columns branch_of encode_field
  stops_at_array c more s h = rw h refl

  -- A valid format with a column of the type 'a', and arguments for the columns before it: the encoder
  -- returns UNIMPLEMENTED. It has written the header and those columns, and gives no length.
  pub encode_array :
      (grant : ℕ → ℕ → Bool) (id : ℕ) (type : List ℕ) (cs : List Column) (c : Column)
      (more : List Column) (live : ℕ) (s : FormatState) (buf : Block ℕ) (rest : List Arg)
      {args : List Arg} {bytes : List ℕ}
      → Holds grant id type (cs ++ c ∷ more) live s
      → c.type ≡ b'a'
      → Encodes to_float cs args bytes
      → 3 + total_size cs ≤ buf.size
      → message_format_encode to_float s.format buf (args ++ rest)
        ≡ (fail unimplemented, state to_float rest buf.size (header to_float id ++ bytes))
  unfolding message_format_encode message_format_encode_va
  encode_array grant id type cs c more live s buf rest {args} {bytes} holds array es room =
      subst
        (λ f.
          message_format_encode to_float f buf (args ++ rest)
          ≡ (fail unimplemented, state to_float rest buf.size (header to_float id ++ bytes)))
        (sym holds.form)
        (ground (
          arith,
          length-Encodes to_float es,
          append_to_lem (record { size = buf.size; items = [] }) (header to_float id) (omega arith),
          column_array-built id type holds.alloc (cs ++ c ∷ more),
          encode_columns-append (c ∷ more) rest buf.size (header to_float id) es
              (omega (arith, length-Encodes to_float es)),
          stops_at_array c more (state to_float rest buf.size (header to_float id ++ bytes)) array,
        ))
