-- ===== src/Writer/Framing.antt =====
-- A log that core/writer.c makes can be cut into its records by the Type and Length fields of the FMT
-- records alone: a reader may skip the records that it does not understand.
use mathlib.Core.Path.{subst}
use libsdlog.Prelude.{
  map, codes, ℕ, zero, suc, ◌+◌, ◌%◌, ◌≤◌, ◌<◌, ◌≡◌, ◌≢◌, refl, ap, sym, ◌∙◌, Bool, true, false,
  ◌==◌, ◌&&◌, Option, none, some, List, [], ◌∷◌, ◌++◌, append_assoc, length, length-append, take,
  drop, take-length_append, drop-length_append, take_all, All, leb, le→leb, if◌then◌else◌, arith,
}
use libsdlog.Model.Size.{total_size}
use libsdlog.Model.{get_size_of_column_type, message_column_format_get_size}
use libsdlog.Model.StringLaws.{join, name_of}
use libsdlog.Writer.Texts.{fmt-Encodes}
use libsdlog.Encoder.Record.{length-Encodes}
use libsdlog.Outcome.{enomem, Ends}
use libsdlog.Outcome.Ends.{Ends-mono}
use libsdlog.Buffer.{OStreamContext}
use libsdlog.Buffer.Growing.{BoundedGrants}
use libsdlog.Writer.{WriterState}
use libsdlog.Writer.Agree.{Agrees, knows, known-Agrees, learned-Agrees}
use libsdlog.Writer.Buffered.{Shown, log_in_buffer, log_in_buffer-Shown}
use libsdlog.Writer.Session.{new_entries}
use libsdlog.Writer.Spec.{
  Entry, IsEntry, id_of, types_of, fmt_fields, fmt_record, data_record, with_header, described_by,
  describe, added, log,
}

-- The length of the records of each id, as far as it is known.
abbrev Lengths : Type 0
Lengths = ℕ → ℕ

-- The length of the record in front, by its id; that of an FMT record is 89.
unfoldable pub length_in_front : Lengths → List ℕ → ℕ
length_in_front lengths (s0 ∷ s1 ∷ id ∷ fields) = if id == 128 then 89 else lengths id
length_in_front lengths _ = 0

-- An FMT record gives the length of the records of one id.
abbrev noted : List ℕ → Lengths → Lengths
noted (type ∷ size ∷ fields) lengths i = if i == type then size else lengths i
noted _ lengths i = lengths i

unfoldable pub note_length : List ℕ → Lengths → Lengths
note_length (s0 ∷ s1 ∷ id ∷ fields) lengths = if id == 128 then noted fields lengths else lengths
note_length _ lengths = lengths

abbrev and_records : List ℕ → Option (List (List ℕ)) → Option (List (List ℕ))
and_records r none = none
and_records r (some rs) = some (r ∷ rs)

-- A round cuts one record off, which has a header at least.
unfoldable pub split_records : (fuel : ℕ) → Lengths → List ℕ → Option (List (List ℕ))
unfolding length_in_front note_length
split_records fuel lengths [] = some []
split_records zero lengths (b ∷ bytes) = none
split_records (suc fuel) lengths (b ∷ bytes) =
    let n = length_in_front lengths (b ∷ bytes) in
    let r = take n (b ∷ bytes) in
    let rest = split_records fuel (note_length r lengths) (drop n (b ∷ bytes)) in
    if leb 3 n && leb n (length (b ∷ bytes)) then and_records r rest else none

unfoldable pub split_log : List ℕ → Option (List (List ℕ))
unfolding split_records
split_log bytes = split_records (length bytes) (λ _. 0) bytes

-- The records of a log, each FMT record where it is due.
unfoldable pub records : (ℕ → ℕ) → List Entry → List (List ℕ)
records formats [] = []
records formats (n ∷ ns) =
    (if described_by formats n then [] else fmt_record n ∷ [])
    ++ (data_record n ∷ records (describe formats n) ns)

-- A call whose records can be skipped: the format is not NULL, it has not the id of FMT, the length of
-- its records is a byte, and `sizes_at` says which size the format at an address has.
pub record IsFramed (sizes_at : ℕ → ℕ) (n : Entry) : Type 0 where
  pub there : n.ref.address ≢ 0
  pub byte : id_of n < 256
  pub not_fmt : (id_of n == 128) ≡ false
  pub short : 3 + total_size n.cols < 256
  pub constant : total_size n.cols ≡ sizes_at n.ref.address

-- The record in front, and fuel for the rest.
split_one :
    (fuel : ℕ) (lengths : Lengths) (id : ℕ) (fields rest : List ℕ)
    → (if id == 128 then 89 else lengths id) ≡ length (with_header id fields)
    → length (with_header id fields ++ rest) ≤ fuel
    → (fuel' : ℕ) × (length rest ≤ fuel')
      × (split_records fuel lengths (with_header id fields ++ rest)
          ≡ and_records
              (with_header id fields)
              (split_records fuel' (note_length (with_header id fields) lengths) rest))
unfolding split_records length_in_front
split_one zero lengths id fields rest e h = absurd (omega arith)
split_one (suc fuel) lengths id fields rest e h =
    let r = with_header id fields in
    let sum : length (fields ++ rest) ≡ length fields + length rest = length-append fields rest in
    (
      fuel,
      omega (arith, sum),
      rw
          (
            e,
            le→leb 3 (length r) (omega arith),
            le→leb (length r) (length (r ++ rest)) (omega (arith, sum)),
            take-length_append r rest,
            drop-length_append r rest,
          )
          (ap (λ t. and_records r (split_records fuel (note_length t lengths) rest))
            (take-length_append r rest)),
    )

-- What a reader has learned of the sizes.
abbrev length_of : (ℕ → ℕ) → ℕ → ℕ
length_of sizes_at address = 3 + sizes_at address

-- A reader that knows the described formats cuts the rest.
abbrev Splits : (ℕ → ℕ) → (ℕ → ℕ) → List ℕ → List (List ℕ) → Type 0
Splits sizes_at formats bytes rs =
    (lengths : Lengths) (fuel : ℕ)
    → Agrees (length_of sizes_at) formats lengths
    → length bytes ≤ fuel
    → split_records fuel lengths bytes ≡ some rs

module _ (to_float : ℕ → ℕ) (sizes_at : ℕ → ℕ) where
  data-Splits :
      (formats : ℕ → ℕ) (n : Entry) (rest : List ℕ) (rs : List (List ℕ))
      → IsEntry to_float n
      → IsFramed sizes_at n
      → Splits sizes_at (describe formats n) rest rs
      → Splits sizes_at (describe formats n) (data_record n ++ rest) (data_record n ∷ rs)
  unfolding data_record note_length
  data-Splits formats n rest rs v f next lengths fuel k h =
      let size : lengths (id_of n) ≡ length (data_record n) = omega (
        arith,
        knows (length_of sizes_at) formats lengths n f.there k,
        f.constant,
        length-Encodes to_float v.encodes,
      ) in
      let (fuel', enough, eq) =
        split_one fuel lengths (id_of n) n.fields rest (rw f.not_fmt size) h in
      let same : note_length (data_record n) lengths ≡ lengths = rw f.not_fmt refl in
      eq
      ∙ ap (λ l. and_records (data_record n) (split_records fuel' l rest)) same
      ∙ ap (and_records (data_record n)) (next lengths fuel' k enough)

  -- The FMT record of a call tells the length of the record of the call.
  fmt-noted :
      (n : Entry) (lengths : Lengths) (i : ℕ)
      → IsFramed sizes_at n
      → note_length (fmt_record n) lengths i
        ≡ (if i == id_of n then length_of sizes_at n.ref.address else lengths i)
  unfolding fmt_record note_length
  fmt-noted n lengths i f =
      let byte : id_of n % 256 ≡ id_of n = omega (arith, f.byte) in
      let size : (total_size n.cols + 3) % 256 ≡ 3 + sizes_at n.ref.address =
        omega (arith, f.short, f.constant) in
      rw (byte, size) refl

  fmt-Splits :
      (formats : ℕ → ℕ) (n : Entry) (rest : List ℕ) (rs : List (List ℕ))
      → IsFramed sizes_at n
      → Splits sizes_at (describe formats n) rest rs
      → Splits sizes_at formats (fmt_record n ++ rest) (fmt_record n ∷ rs)
  unfolding fmt_record total_size message_column_format_get_size get_size_of_column_type
  fmt-Splits formats n rest rs f next lengths fuel k h =
      let names = join (codes ",") (map name_of n.cols) in
      let types = types_of n.cols in
      let size : length (fmt_fields (id_of n) (total_size n.cols) n.type types names) ≡ 86 =
        length-Encodes to_float
          (fmt-Encodes to_float (id_of n) (total_size n.cols) n.type types names) in
      let (fuel', enough, eq) =
        split_one fuel lengths 128 (fmt_fields (id_of n) (total_size n.cols) n.type types names)
          rest (omega (arith, size)) h in
      eq
      ∙ ap (and_records (fmt_record n)) (
          next (note_length (fmt_record n) lengths) fuel'
            (learned-Agrees (length_of sizes_at) formats lengths
              (note_length (fmt_record n) lengths) n (λ i. fmt-noted n lengths i f) k)
            enough)

  added-Splits :
      (b : Bool) (formats : ℕ → ℕ) (n : Entry) (rest : List ℕ) (rs : List (List ℕ))
      → described_by formats n ≡ b
      → IsEntry to_float n
      → IsFramed sizes_at n
      → Splits sizes_at (describe formats n) rest rs
      → Splits sizes_at formats
          (((if b then [] else fmt_record n) ++ data_record n) ++ rest)
          ((if b then [] else fmt_record n ∷ []) ++ (data_record n ∷ rs))
  added-Splits true formats n rest rs d v f next lengths fuel k h =
      data-Splits formats n rest rs v f next lengths fuel
        (known-Agrees (length_of sizes_at) formats lengths n d k) h
  added-Splits false formats n rest rs d v f next lengths fuel k h =
      subst (λ bs. Splits sizes_at formats bs (fmt_record n ∷ data_record n ∷ rs))
        (sym (append_assoc (fmt_record n) (data_record n) rest))
        (fmt-Splits formats n (data_record n ++ rest) (data_record n ∷ rs) f
          (data-Splits formats n rest rs v f next))
        lengths fuel k h

  log-Splits :
      (ns : List Entry) (formats : ℕ → ℕ)
      → All (IsFramed sizes_at) ns
      → All (IsEntry to_float) ns
      → Splits sizes_at formats (log formats ns) (records formats ns)
  unfolding log records split_records added
  log-Splits [] formats f v = λ lengths fuel k h. refl
  log-Splits (n ∷ ns) formats f v =
      added-Splits (described_by formats n) formats n (log (describe formats n) ns)
        (records (describe formats n) ns) refl v.0 f.0 (log-Splits ns (describe formats n) f.1 v.1)

  -- The log of a writer that starts with no format described.
  split_log-log :
      (ns : List Entry)
      → All (IsFramed sizes_at) ns
      → All (IsEntry to_float) ns
      → split_log (log (λ _. 0) ns) ≡ some (records (λ _. 0) ns)
  unfolding split_log
  split_log-log ns f v =
      log-Splits ns (λ _. 0) f v (λ _. 0) (length (log (λ _. 0) ns)) (λ i ne. absurd (ne refl))
        (omega arith)

  -- A client makes a buffer stream and a writer, writes entries that the writer can serve, ends the
  -- session, destroys the writer and asks for the buffer. On success a reader that looks at nothing
  -- but the ids of the records and the Type and Length fields of the FMT records cuts the bytes into
  -- exactly the records of the entries, in order, and the FMT records in front of those whose format
  -- was not the last one described under its id; ENOMEM is the only error. The format at an address
  -- keeps its size, is not NULL and has an id other than that of FMT, and its records are shorter than
  -- 256 bytes. The allocator gives no block of 2 ^ 63 bytes or more, and write_all has 256 rounds at
  -- least.
  pub log_in_buffer-split_log :
      (fuel : ℕ) (ns : List Entry) (s : WriterState OStreamContext)
      → 256 ≤ fuel
      → BoundedGrants s.out.mem
      → All (IsFramed sizes_at) ns
      → All (IsEntry to_float) ns
      → Ends
          (λ seen _. split_log (take seen.1 seen.0) ≡ some (records (λ _. 0) ns))
          (λ status _. status ≡ enomem)
          (log_in_buffer to_float fuel ns s)
  log_in_buffer-split_log fuel ns s enough b f v =
      let said : List ℕ × ℕ → Type 0 =
        λ seen. split_log (take seen.1 seen.0) ≡ some (records (λ _. 0) ns) in
      Ends-mono (λ seen s'. Shown (new_entries ns) s.out.mem.live seen s') (λ seen _. said seen)
        (λ status _. status ≡ enomem) (λ status _. status ≡ enomem)
        (log_in_buffer to_float fuel ns s) (log_in_buffer-Shown to_float fuel enough ns s b v)
        (λ seen s' k. subst said (sym k.shown) (
          ap split_log (take_all (length (new_entries ns)) (new_entries ns) (omega arith))
          ∙ split_log-log ns f v))
        (λ status s' e. e)
