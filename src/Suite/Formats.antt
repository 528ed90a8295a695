-- ===== src/Suite/Formats.antt =====
-- test/test_message_format.c: formats that the tests make, and what they see of them.
use libsdlog.Prelude.{ℕ, ◌≡◌, ◌+◌, refl, none, some, [], ◌∷◌, codes}
use libsdlog.Outcome.{ok, fail, einval, unimplemented, Cmd, pure, and_then, ◌>>=◌, ◌>>◌}
use libsdlog.Memory.{empty_block, sdlog_realloc}
use libsdlog.Model.{
  Format, FormatState, zero_format, id_fmt, get_format, message_format_init, message_format_destroy,
  message_format_get_id, message_format_get_type, message_format_get_column_count,
  message_format_get_column, message_format_get_size,
}
use libsdlog.Model.AddColumn.{column}
use libsdlog.Model.Extend.{message_format_add_column, message_format_add_columns}
use libsdlog.Model.Strings.{message_format_get_column_names, message_format_get_format_string}
use libsdlog.Model.Invariant.{at}
use libsdlog.Model.Tests.{heap}
use libsdlog.Encoder.{int, string, message_format_encode}

abbrev start : FormatState
start = at zero_format (heap 0)

-- `test_create_empty_message_format`
empty : Cmd FormatState Format
unfolding message_format_init message_format_destroy
empty = do
  message_format_init id_fmt (codes "FMT")
  format ← get_format
  message_format_destroy
  pure format

empty_run :
    (format : Format) × ((empty start).0 ≡ ok format)
    × (message_format_get_id format ≡ id_fmt)
    × (message_format_get_type format ≡ codes "FMT")
    × (message_format_get_column_count format ≡ 0)
    × (message_format_get_size format ≡ some 0)
    × ((empty start).1.mem.live ≡ 0)
unfolding empty message_format_get_id message_format_get_type message_format_get_column_count
    message_format_get_size
empty_run = (_, refl, refl, refl, refl, refl, refl)

-- `test_create_message_format_with_columns`
with_columns : Cmd FormatState Format
unfolding sdlog_realloc message_format_init message_format_add_column
with_columns = do
  message_format_init id_fmt (codes "FMT")
  message_format_add_column (codes "Type") b'B' b'-'
  message_format_add_column (codes "Length") b'B' b'-'
  message_format_add_column (codes "Name") b'n' b'-'
  message_format_add_column (codes "Format") b'N' b'-'
  message_format_add_column (codes "Columns") b'Z' b'-'
  get_format

-- `test_create_message_format_with_columns_convenience`
with_columns_convenience : Cmd FormatState Format
unfolding sdlog_realloc message_format_init message_format_add_columns
with_columns_convenience = do
  message_format_init id_fmt (codes "FMT")
  message_format_add_columns (codes "Type,Length,Name,Format,Columns") (codes "BBnNZ")
      (codes "-----")
  get_format

-- `check_fmt_column`
abbrev IsFmt : Format → Type 0
IsFmt format =
    (message_format_get_id format ≡ id_fmt)
    × (message_format_get_type format ≡ codes "FMT")
    × (message_format_get_column_count format ≡ 5)
    × (message_format_get_column format 0 ≡ some (some (column (codes "Type") b'B' b'-')))
    × (message_format_get_column format 2 ≡ some (some (column (codes "Name") b'n' b'-')))
    × (message_format_get_column format 5 ≡ some none)
    × ((message_format_get_format_string format (heap 8)).0 ≡ ok (some (codes "BBnNZ\0")))
    × ((message_format_get_column_names format (codes ", ") (heap 8)).0
        ≡ ok (some (codes "Type, Length, Name, Format, Columns\0")))
    × (message_format_get_size format ≡ some 86)

columns_run :
    ((format : Format) × ((with_columns start).0 ≡ ok format) × IsFmt format)
    × ((format : Format) × ((with_columns_convenience start).0 ≡ ok format) × IsFmt format)
unfolding with_columns with_columns_convenience message_format_get_id message_format_get_type
    message_format_get_column_count message_format_get_column message_format_get_format_string
    message_format_get_column_names message_format_get_size
columns_run = (
  (_, refl, (refl, refl, refl, refl, refl, refl, refl, refl, refl)),
  (_, refl, (refl, refl, refl, refl, refl, refl, refl, refl, refl)),
)

-- `test_invalid_message_format_type` and `test_invalid_message_column_type`
invalid_run :
    ((message_format_init 127 (codes "FOOBAR") start).0 ≡ fail einval)
    × (((message_format_init id_fmt (codes "FMT")
            >> message_format_add_column (codes "Type") b'@' b'-')
          start).0
        ≡ fail einval)
unfolding message_format_init message_format_add_column
invalid_run = (refl, refl)

-- `test_message_encoding`: the size of the format and three bytes more are written.
encoding : Cmd FormatState ℕ
unfolding with_columns message_format_encode
encoding = do
  format ← with_columns
  λ s.
      and_then
        (
          (message_format_encode (λ d. d) format (empty_block 256)
              (int 42
                ∷ int 8
                ∷ string (codes "FOO")
                ∷ string (codes "Id")
                ∷ string (codes "B")
                ∷ [])).0,
          s,
        )
        pure

encoding_run : (encoding start).0 ≡ ok (86 + 3)
unfolding encoding
encoding_run = refl

-- `test_message_encoding_invalid_format_code`
array_code : Cmd FormatState ℕ
unfolding sdlog_realloc message_format_init message_format_add_column message_format_encode
array_code = do
  message_format_init id_fmt (codes "FMT")
  message_format_add_column (codes "Type") b'a' b'-'
  format ← get_format
  λ s. and_then ((message_format_encode (λ d. d) format (empty_block 256) (int 42 ∷ [])).0, s) pure

array_code_run : (array_code start).0 ≡ fail unimplemented
unfolding array_code
array_code_run = refl
