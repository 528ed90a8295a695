-- ===== src/Writer/Reader.antt =====
-- A reader of whole logs that knows nothing but the FMT format: it learns the columns of all other
-- formats from the FMT records that it meets. It does not look at core/writer.c.
use libsdlog.Prelude.{
  ℕ, zero, suc, ◌==◌, Option, none, some, List, [], ◌∷◌, map, length, codes, if◌then◌else◌,
}
use libsdlog.Model.{Column}
use libsdlog.Model.AddColumn.{column}
use libsdlog.Encoder.Decode.{Value, word, text, decode_record}

-- A record: its id and its values.
abbrev pub Message : Type 0
Message = ℕ × List Value

-- The columns that a string of types stands for; their names are not read.
abbrev pub columns_of : List ℕ → List Column
columns_of types = map (λ t. column [] t 0) types

-- The columns of the formats that were described so far.
abbrev pub Known : Type 0
Known = ℕ → Option (List Column)

abbrev pub columns_for : Known → ℕ → Option (List Column)
columns_for known id = if id == 128 then some (columns_of (codes "BBnNZ")) else known id

-- The values of an FMT record: Type, Length, Name, Format and Columns.
unfoldable pub describe_known : List Value → Known → Known
describe_known (word i ∷ word size ∷ text type ∷ text types ∷ text names ∷ []) known j =
    if j == i then some (columns_of types) else known j
describe_known _ known j = known j

abbrev pub learn : ℕ → List Value → Known → Known
learn id values known = if id == 128 then describe_known values known else known

abbrev pub read_as : Option (List Column) → List ℕ → Option (ℕ × List Value × List ℕ)
read_as none bytes = none
read_as (some cols) bytes = decode_record cols bytes

unfoldable pub read_record : Known → List ℕ → Option (ℕ × List Value × List ℕ)
read_record known (s0 ∷ s1 ∷ id ∷ fields) = read_as (columns_for known id) (s0 ∷ s1 ∷ id ∷ fields)
read_record known _ = none

abbrev pub and_rest : Message → Option (List Message) → Option (List Message)
and_rest m none = none
and_rest m (some ms) = some (m ∷ ms)

-- What stands behind a record, for a reader that has learned from it.
abbrev pub read_next :
    (Known → List ℕ → Option (List Message))
    → Known
    → Option (ℕ × List Value × List ℕ)
    → Option (List Message)
read_next read known none = none
read_next read known (some (id, values, rest)) =
    and_rest (id, values) (read (learn id values known) rest)

-- A round reads one record.
unfoldable pub read_records : (fuel : ℕ) → Known → List ℕ → Option (List Message)
read_records fuel known [] = some []
read_records zero known (b ∷ bytes) = none
read_records (suc fuel) known (b ∷ bytes) =
    read_next (λ known' rest. read_records fuel known' rest) known (read_record known (b ∷ bytes))

unfoldable pub read_log : List ℕ → Option (List Message)
unfolding read_records
read_log bytes = read_records (length bytes) (λ _. none) bytes
