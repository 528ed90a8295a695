-- ===== src/Writer/ReadOne.antt =====
-- The reader of logs on a single record, of core/writer.c or of an FMT record that it writes.
use libsdlog.Prelude.{
  ℕ, zero, suc, ◌+◌, ◌%◌, ◌≤◌, ◌<◌, ◌≡◌, ◌≢◌, refl, ap, ◌∙◌, Bool, false, ◌==◌, Option, none, some,
  List, [], ◌∷◌, ◌++◌, map, length, length-append, take, All, codes, if◌then◌else◌, arith,
}
use libsdlog.Model.{Column}
use libsdlog.Model.Size.{total_size}
use libsdlog.Model.StringLaws.{join, name_of}
use libsdlog.Encoder.{branch_of}
use libsdlog.Encoder.Decode.{
  decode_field, Value, word, text, decode_columns, decode_record_lem, values_of, value_of,
  decode-encode, IsArg,
}
use libsdlog.Writer.Reader.{
  Message, Known, columns_of, columns_for, describe_known, learn, read_as, read_next, read_record,
  and_rest, read_records,
}
use libsdlog.Writer.Spec.{
  Entry, IsEntry, id_of, types_of, fmt_columns, fmt_fields, with_header, fmt_record, data_record,
  described_by, describe,
}
use libsdlog.Writer.Texts.{fmt-Encodes, types-IsText, entry_names-IsText}

-- The values of the FMT record of a call, and of its own record.
unfoldable pub fmt_message : Entry → Message
fmt_message n = (
  128,
  word (id_of n % 256)
      ∷ word ((total_size n.cols + 3) % 256)
      ∷ text (take 4 n.type)
      ∷ text (take 16 (types_of n.cols))
      ∷ text (take 64 (join (codes ",") (map name_of n.cols)))
      ∷ [],
)

module _ (to_float : ℕ → ℕ) where
  -- What a log says: the records in the order of the calls, and an FMT record where it is due.
  unfoldable pub messages : (ℕ → ℕ) → List Entry → List Message
  messages formats [] = []
  messages formats (n ∷ ns) =
      (if described_by formats n then [] else fmt_message n ∷ [])
      ++ ((id_of n, values_of to_float n.cols n.args) ∷ messages (describe formats n) ns)

-- A call that can be read back: the format is not NULL, it has not the id of FMT, and at most sixteen
-- columns, which is what an FMT record can tell; `types_at` says which columns the format at an address
-- has, so that it does not change from one call to the next.
pub record IsReadable (types_at : ℕ → List ℕ) (n : Entry) : Type 0 where
  pub there : n.ref.address ≢ 0
  pub byte : id_of n < 256
  pub not_fmt : (id_of n == 128) ≡ false
  pub few : length (types_of n.cols) ≤ 16
  pub constant : types_of n.cols ≡ types_at n.ref.address
  pub texts : All IsArg n.args

-- Only the types of the columns count.
decode_columns-types :
    (cols : List Column) → decode_columns (columns_of (types_of cols)) ≡ decode_columns cols
unfolding decode_columns
decode_columns-types [] = refl
decode_columns-types (c ∷ cs) =
    ap {B = List ℕ → Option (List Value × List ℕ)}
      (λ (f : List ℕ → Option (List Value × List ℕ)) bytes.
        elim (decode_field (branch_of c.type) bytes) [
          | none ↦ none
          | some (v, rest) ↦ elim (f rest) [ none ↦ none | some (vs, rest') ↦ some (v ∷ vs, rest') ]
        ])
      (decode_columns-types cs)

read_record_lem :
    (known : Known) (id : ℕ) (cols : List Column) (fields rest : List ℕ) (values : List Value)
    → columns_for known id ≡ some cols
    → decode_columns cols (fields ++ rest) ≡ some (values, rest)
    → read_record known (with_header id fields ++ rest) ≡ some (id, values, rest)
unfolding read_record
read_record_lem known id cols fields rest values c d =
    ap (λ o. read_as o (with_header id fields ++ rest)) c
    ∙ decode_record_lem cols id (fields ++ rest) values rest d

-- The record in front, and fuel for the rest.
abbrev ReadOne : (fuel : ℕ) → Known → (id : ℕ) → (fields rest : List ℕ) → List Value → Type 0
ReadOne fuel known id fields rest values =
    (fuel' : ℕ) × (length rest ≤ fuel')
    × (read_records fuel known (with_header id fields ++ rest)
        ≡ and_rest (id, values) (read_records fuel' (learn id values known) rest))

read_one :
    (fuel : ℕ) (known : Known) (id : ℕ) (cols : List Column) (fields rest : List ℕ)
    (values : List Value)
    → columns_for known id ≡ some cols
    → decode_columns cols (fields ++ rest) ≡ some (values, rest)
    → length (with_header id fields ++ rest) ≤ fuel
    → ReadOne fuel known id fields rest values
unfolding read_records
read_one zero known id cols fields rest values c d h = absurd (omega arith)
read_one (suc fuel) known id cols fields rest values c d h = (
  fuel,
  omega (arith, length-append fields rest),
  ap (λ o. read_next (λ known' rest'. read_records fuel known' rest') known o)
      (read_record_lem known id cols fields rest values c d),
)

module _ (to_float : ℕ → ℕ) where
  -- An FMT record.
  pub read_fmt :
      (fuel : ℕ) (known : Known) (n : Entry) (rest : List ℕ)
      → IsEntry to_float n
      → length (fmt_record n ++ rest) ≤ fuel
      → (fuel' : ℕ) × (length rest ≤ fuel')
        × (read_records fuel known (fmt_record n ++ rest)
            ≡ and_rest
                (fmt_message n)
                (read_records fuel' (learn 128 (fmt_message n).1 known) rest))
  unfolding fmt_record fmt_message values_of branch_of value_of
  read_fmt fuel known n rest v h =
      let names = join (codes ",") (map name_of n.cols) in
      read_one fuel known 128 (columns_of (types_of fmt_columns))
        (fmt_fields (id_of n) (total_size n.cols) n.type (types_of n.cols) names) rest
        (fmt_message n).1 refl
        (ap
            (λ f.
              f (fmt_fields (id_of n) (total_size n.cols) n.type (types_of n.cols) names ++ rest))
            (decode_columns-types fmt_columns)
          ∙ decode-encode to_float rest
              (fmt-Encodes to_float (id_of n) (total_size n.cols) n.type (types_of n.cols) names)
              (
                tt,
                (
                  tt,
                  (
                    v.type_text,
                    (types-IsText n.cols v.described.valid, (entry_names-IsText to_float n v, tt)),
                  ),
                ),
              ))
        h

  -- The record of a call whose format the reader knows.
  pub read_data :
      {types_at : ℕ → List ℕ} (fuel : ℕ) (known : Known) (n : Entry) (rest : List ℕ)
      → IsEntry to_float n
      → IsReadable types_at n
      → known (id_of n) ≡ some (columns_of (types_of n.cols))
      → length (data_record n ++ rest) ≤ fuel
      → (fuel' : ℕ) × (length rest ≤ fuel')
        × (read_records fuel known (data_record n ++ rest)
            ≡ and_rest (id_of n, values_of to_float n.cols n.args) (read_records fuel' known rest))
  unfolding data_record
  read_data fuel known n rest v r k h =
      let (fuel', enough, eq) =
        read_one fuel known (id_of n) (columns_of (types_of n.cols)) n.fields rest
          (values_of to_float n.cols n.args) (rw r.not_fmt k)
          (ap (λ f. f (n.fields ++ rest)) (decode_columns-types n.cols)
            ∙ decode-encode to_float rest v.encodes r.texts)
          h in
      (
        fuel',
        enough,
        eq
            ∙ ap
                (λ (b : Bool).
                  and_rest (id_of n, values_of to_float n.cols n.args)
                    (read_records fuel'
                      (if b then describe_known (values_of to_float n.cols n.args) known else known)
                      rest))
                r.not_fmt,
      )
