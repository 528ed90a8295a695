-- ===== src/Writer/Spec.antt =====
-- What core/writer.c is to put on its stream, as plain lists of bytes: a log is the records in the
-- order of the calls, each behind the FMT record of its format where the format at this address
-- has not been described under its id before.
use libsdlog.Prelude.{
  ℕ, ◌+◌, ◌%◌, ◌≤◌, ◌<◌, ◌≢◌, Bool, List, [], ◌∷◌, ◌++◌, map, length, All, codes, ◌==◌,
  if◌then◌else◌,
}
use libsdlog.Model.{Column, strncpy}
use libsdlog.Model.AddColumn.{column}
use libsdlog.Model.Described.{Described}
use libsdlog.Model.Lifecycle.{type_array}
use libsdlog.Model.Size.{total_size}
use libsdlog.Model.StringLaws.{join, name_of}
use libsdlog.Model.Strings.{size_mod}
use libsdlog.Encoder.{Arg}
use libsdlog.Encoder.Record.{Encodes}
use libsdlog.Writer.{FormatRef, set_address}

-- A call of `sdlog_writer_write`, with what its format is and how its arguments are encoded.
pub record Entry : Type 0 where
  pub ref : FormatRef
  pub args : List Arg
  pub type : List ℕ
  pub cols : List Column
  pub fields : List ℕ

abbrev pub id_of : Entry → ℕ
id_of n = n.ref.format.id

-- The columns of the FMT format.
abbrev pub fmt_columns : List Column
fmt_columns =
    column (codes "Type") b'B' b'-'
    ∷ column (codes "Length") b'B' b'-'
    ∷ column (codes "Name") b'n' b'-'
    ∷ column (codes "Format") b'N' b'-'
    ∷ column (codes "Columns") b'Z' b'-'
    ∷ []

abbrev pub types_of : List Column → List ℕ
types_of cols = map (λ (c : Column). c.type) cols

-- Type, Length, Name, Format and Columns.
abbrev pub fmt_fields : (id size : ℕ) (type types names : List ℕ) → List ℕ
fmt_fields id size type types names =
    (id % 256 ∷ [])
    ++ (((size + 3) % 256 ∷ [])
        ++ (strncpy 4 type ++ (strncpy 16 types ++ (strncpy 64 names ++ []))))

abbrev pub with_header : ℕ → List ℕ → List ℕ
with_header id fields = 0xA3 ∷ 0x95 ∷ id ∷ fields

unfoldable pub fmt_record : Entry → List ℕ
fmt_record n = with_header 128 (
    fmt_fields (id_of n) (total_size n.cols) n.type (types_of n.cols)
      (join (codes ",") (map name_of n.cols)))

unfoldable pub data_record : Entry → List ℕ
data_record n = with_header (id_of n) n.fields

-- The formats that are described: an address for each id.
abbrev pub described_by : (ℕ → ℕ) → Entry → Bool
described_by formats n = formats (id_of n) == n.ref.address

abbrev pub describe : (ℕ → ℕ) → Entry → (ℕ → ℕ)
describe formats n = set_address formats (id_of n) n.ref.address

-- What one call adds to the log.
unfoldable pub added : (ℕ → ℕ) → Entry → List ℕ
added formats n = (if described_by formats n then [] else fmt_record n) ++ data_record n

unfoldable pub log : (ℕ → ℕ) → List Entry → List ℕ
unfolding added
log formats [] = []
log formats (n ∷ ns) = added formats n ++ log (describe formats n) ns

abbrev pub IsText : List ℕ → Type 0
IsText s = All (λ c. c ≢ 0) s

-- A call that the writer can serve: the format is a valid one with some column, the arguments are
-- those that it asks for, the texts have no zero byte, and the record fits the buffer of the writer.
pub record IsEntry (to_float : ℕ → ℕ) (n : Entry) : Type 0 where
  pub described : Described (id_of n) (type_array n.type) n.cols n.ref.format
  pub short : length n.type ≤ 4
  pub type_text : IsText n.type
  pub some_column : 0 < length n.cols
  pub name_texts : All (λ (c : Column). IsText (name_of c)) n.cols
  pub names_fit : length (join (codes ",") (map name_of n.cols)) + 1 < size_mod
  pub record_fits : 3 + total_size n.cols ≤ 256
  pub encodes : Encodes to_float n.cols n.args n.fields
