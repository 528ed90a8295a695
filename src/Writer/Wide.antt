-- ===== src/Writer/Wide.antt =====
-- Formats with more columns than an FMT record tells of, for core/writer.c.
use libsdlog.Prelude.{
  some, take, map, length, ℕ, zero, suc, ◌≡◌, refl, List, [], ◌∷◌, ◌++◌, replicate, All, codes,
  arith, inr,
}
use libsdlog.Outcome.{enomem, Ends}
use libsdlog.Model.{Column, get_size_of_column_type, message_column_format_get_size}
use libsdlog.Model.AddColumn.{column}
use libsdlog.Model.Invariant.{IsValidColumn, built}
use libsdlog.Model.Lifecycle.{type_array}
use libsdlog.Model.Size.{total_size}
use libsdlog.Model.StringLaws.{join, name_of}
use libsdlog.Encoder.{Arg, int, double, branch_of}
use libsdlog.Encoder.Fields.{field_bytes}
use libsdlog.Encoder.Record.{Encodes, done, field}
use libsdlog.Encoder.Tests.{to_float}
use libsdlog.Endianness.{store32_to_le}
use libsdlog.Buffer.Tests as Buffers
use libsdlog.Writer.Alike.{Alike, log_in_buffer_alike}
use libsdlog.Writer.Buffered.{Shown, log_in_buffer}
use libsdlog.Writer.Framing.{IsFramed, split_log, records, log_in_buffer-split_log}
use libsdlog.Writer.Runs.{nothing}
use libsdlog.Writer.Samples.{sized}
use libsdlog.Writer.Session.{new_entries}
use libsdlog.Writer.Spec.{Entry, IsEntry, IsText, fmt_fields, fmt_record, data_record}

abbrev byte_column : Column
byte_column = column (codes "b") b'B' b'-'

-- Sixteen bytes, and a column that no FMT record tells of.
abbrev columns : ℕ → List Column
columns t = replicate 16 byte_column ++ column (codes "x") t b'-' ∷ []

abbrev last_bytes : List ℕ
last_bytes = 0 ∷ 0 ∷ 0x80 ∷ 0x3F ∷ []

abbrev wide : (t : ℕ) → Arg → Entry
wide t a = record {
  ref = record { address = 90; format = built 6 (type_array (codes "WIDE")) 32 (columns t) };
  args = replicate 16 (int 7) ++ a ∷ [];
  type = codes "WIDE";
  cols = columns t;
  fields = replicate 16 7 ++ last_bytes ++ [];
}

-- The same four bytes, of an integer and of a float.
abbrev integer : Entry
integer = wide b'i' (int 0x3F800000)

abbrev float : Entry
float = wide b'f' (double 0x3FF0000000000000)

sevens :
    (k : ℕ) {cs : List Column} {args : List Arg} {bytes : List ℕ}
    → Encodes to_float cs args bytes
    → Encodes to_float
        (replicate k byte_column ++ cs)
        (replicate k (int 7) ++ args)
        (replicate k 7 ++ bytes)
unfolding field_bytes branch_of
sevens zero es = es
sevens (suc k) es = field {c = byte_column} {a = int 7} {bs = 7 ∷ []} refl (sevens k es)

all_columns :
    (P : Column → Type 0) (k t : ℕ)
    → P byte_column
    → P (column (codes "x") t b'-')
    → All P (replicate k byte_column ++ column (codes "x") t b'-' ∷ [])
all_columns P zero t p q = (q, tt)
all_columns P (suc k) t p q = (p, all_columns P k t p q)

integer-IsEntry : IsEntry to_float integer
unfolding join total_size message_column_format_get_size get_size_of_column_type field_bytes
    branch_of store32_to_le
integer-IsEntry = record {
  described = record {
    alloc = 32;
    form = refl;
    fits = omega arith;
    grown = inr (omega arith, omega arith, omega arith);
    valid = all_columns IsValidColumn 16 b'i' (sized 0, refl) (sized 3, refl);
  };
  short = omega arith;
  type_text = (sized 86, (sized 72, (sized 67, (sized 68, tt))));
  some_column = omega arith;
  name_texts =
      all_columns (λ (c : Column). IsText (name_of c)) 16 b'i' (sized 97, tt) (sized 119, tt);
  names_fit = omega arith;
  record_fits = omega arith;
  encodes =
      sevens 16
        (field {c = column (codes "x") b'i' b'-'} {a = int 0x3F800000} {bs = last_bytes} refl done);
}

integer-float-Alike : Alike integer float
unfolding total_size message_column_format_get_size get_size_of_column_type join
integer-float-Alike = record {
  id = refl;
  address = refl;
  type = refl;
  size = refl;
  types = refl;
  names = refl;
  fields = refl;
}

log_in_buffer_alike_example :
    Ends
      (λ seen s. Shown (new_entries (float ∷ [])) 0 seen s)
      (λ status _. status ≡ enomem)
      (log_in_buffer to_float 256 (integer ∷ []) nothing)
log_in_buffer_alike_example =
    log_in_buffer_alike to_float 256 (integer ∷ []) (float ∷ []) nothing (omega arith)
      (Buffers.heap-BoundedGrants 0) (integer-IsEntry, tt) (integer-float-Alike, tt)

-- The records of such a format can be skipped all the same.
integer-IsFramed : IsFramed (λ address. 20) integer
unfolding total_size message_column_format_get_size get_size_of_column_type
integer-IsFramed = record {
  there = sized 89;
  byte = omega arith;
  not_fmt = refl;
  short = omega arith;
  constant = refl;
}

log_in_buffer-split_log_example :
    Ends
      (λ seen _. split_log (take seen.1 seen.0) ≡ some (records (λ _. 0) (integer ∷ integer ∷ [])))
      (λ status _. status ≡ enomem)
      (log_in_buffer to_float 256 (integer ∷ integer ∷ []) nothing)
log_in_buffer-split_log_example =
    log_in_buffer-split_log to_float (λ address. 20) 256 (integer ∷ integer ∷ []) nothing
      (omega arith) (Buffers.heap-BoundedGrants 0) (integer-IsFramed, (integer-IsFramed, tt))
      (integer-IsEntry, (integer-IsEntry, tt))

three_records : map length (records (λ _. 0) (integer ∷ integer ∷ [])) ≡ 89 ∷ 23 ∷ 23 ∷ []
unfolding records fmt_record data_record join total_size message_column_format_get_size
    get_size_of_column_type
three_records = refl

-- A record of 256 bytes fits the buffer of the writer, and its length does not fit a byte.
length_wraps : take 2 (fmt_fields 6 253 [] [] []) ≡ 6 ∷ 0 ∷ []
length_wraps = refl
