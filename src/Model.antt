-- ===== src/Model.antt =====
-- include/sdlog/model.h and core/model.c, the first half: columns and message formats.
-- C strings are the lists of their bytes before the terminator. A format that a function changes is
-- part of the state of the command, together with the heap.
pub mod Tests
pub mod Access
pub mod AddColumn
pub mod AddColumns
pub mod ColumnLoop
pub mod Names
pub mod Described
pub mod Extend
pub mod Invariant
pub mod Lifecycle
pub mod Size
pub mod Strings
pub mod StringLaws
use mathlib.Core.Option
use libsdlog.Prelude.{
  ℕ, zero, suc, ◌+◌, ◌-◌, ◌*◌, ◌%◌, ◌^◌, Bool, true, false, ◌&&◌, ◌||◌, Option, none, some, List,
  [], ◌∷◌, ◌++◌, length, take, drop, replicate, get_elem?, ltb, leb, ◌==◌, if◌then◌else◌, is_some,
}
use libsdlog.Outcome.{
  Outcome, ok, fail, fault, out_of_fuel, enomem, einval, elimit, Cmd, pure, throw, crash, deref,
  and_then, ◌>>=◌, ◌>>◌, finally, check_oom, assert,
}
use libsdlog.Memory.{
  Mem, Block, empty_block, append_to, store_at, items_of, sdlog_malloc, sdlog_free, sdlog_realloc,
}

-- `sdlog_message_column_format_t`; a name of `none` is NULL.
pub record Column : Type 0 where
  pub type : ℕ
  pub unit : ℕ
  pub name : Option (List ℕ)

-- `sdlog_message_format_t`: `type` is the whole array of five bytes.
pub record Format : Type 0 where
  pub id : ℕ
  pub type : List ℕ
  pub num_columns : ℕ
  pub num_alloc_columns : ℕ
  pub columns : Option (Block Column)

pub record FormatState : Type 0 where
  pub format : Format
  pub mem : Mem

abbrev pub max_message_length : ℕ
max_message_length = 256

abbrev pub max_message_type_length : ℕ
max_message_type_length = 4

abbrev pub num_message_formats : ℕ
num_message_formats = 256

abbrev pub id_fmt : ℕ
id_fmt = 128

abbrev pub uint8_max : ℕ
uint8_max = 255

-- `sizeof(sdlog_message_column_format_t)` where pointers have 64 bits
abbrev pub column_size : ℕ
column_size = 16

-- `strncpy(dest, s, n)` for a string `s`: the bytes written to `dest`.
abbrev pub strncpy : ℕ → List ℕ → List ℕ
strncpy n s = take n s ++ replicate (n - length s) 0

-- The string at the start of an array.
unfoldable pub c_string : List ℕ → List ℕ
c_string [] = []
c_string (c ∷ cs) = if c == 0 then [] else c ∷ c_string cs

abbrev pub is_one_of : ℕ → List ℕ → Bool
is_one_of c [] = false
is_one_of c (x ∷ xs) = (c == x) || is_one_of c xs

unfoldable pub get_size_of_column_type : ℕ → ℕ
get_size_of_column_type type =
    if is_one_of type (b'b' ∷ b'B' ∷ b'M' ∷ [])
    then 1
    else if is_one_of type (b'c' ∷ b'C' ∷ b'h' ∷ b'H' ∷ [])
    then 2
    else if is_one_of type (b'e' ∷ b'E' ∷ b'f' ∷ b'i' ∷ b'I' ∷ b'L' ∷ b'n' ∷ [])
    then 4
    else if is_one_of type (b'd' ∷ b'q' ∷ b'Q' ∷ [])
    then 8
    else if is_one_of type (b'N' ∷ [])
    then 16
    else if is_one_of type (b'a' ∷ b'Z' ∷ [])
    then 64
    else 0

-- The column is written only when its name has been allocated.
unfoldable pub message_column_format_init : List ℕ → ℕ → ℕ → Cmd Mem Column
unfolding sdlog_malloc
message_column_format_init name type unit = do
  granted ← sdlog_malloc (length name + 1)
  check_oom granted
  pure (record { type = type; unit = unit; name = some name })

unfoldable pub message_column_format_destroy : Column → Cmd Mem Column
unfolding sdlog_free
message_column_format_destroy format = do
  sdlog_free format.name
  pure (record { type = 0; unit = 0; name = none })

unfoldable pub message_column_format_get_size : Column → ℕ
message_column_format_get_size format = get_size_of_column_type format.type

-- A command of the heap, in the state of a format.
abbrev pub in_mem : {A : Type 0} → Cmd Mem A → Cmd FormatState A
in_mem m s = let (r, mem) = m s.mem in (r, record s { mem = mem })

abbrev pub get_format : Cmd FormatState Format
get_format s = (ok s.format, s)

abbrev pub set_format : Format → Cmd FormatState (Unit {0})
set_format f s = (ok tt, record s { format = f })

-- What `memset(format, 0, ...)` leaves.
abbrev pub zero_format : Format
zero_format = record {
  id = 0;
  type = 0 ∷ 0 ∷ 0 ∷ 0 ∷ 0 ∷ [];
  num_columns = 0;
  num_alloc_columns = 0;
  columns = none;
}

unfoldable pub message_format_init : ℕ → List ℕ → Cmd FormatState (Unit {0})
unfolding sdlog_malloc
message_format_init id type = if ltb max_message_type_length (length type) then throw einval else do
  set_format zero_format
  granted ← in_mem (sdlog_malloc (4 * column_size))
  check_oom granted
  set_format (record {
    id = id;
    type = strncpy max_message_type_length type ++ 0 ∷ [];
    num_columns = 0;
    num_alloc_columns = 4;
    columns = some (empty_block 4);
  })

-- The columns that a loop over `columns[0]`, …, `columns[num_columns - 1]` meets; `none` if one of
-- them was never written.
unfoldable pub column_array : Format → Option (List Column)
column_array format =
    let cs = items_of format.columns in
    if leb format.num_columns (length cs) then some (take format.num_columns cs) else none

unfoldable pub destroy_columns : List Column → Cmd Mem (Unit {0})
unfolding message_column_format_destroy
destroy_columns [] = pure tt
destroy_columns (c ∷ cs) = do message_column_format_destroy c; destroy_columns cs

unfoldable pub message_format_destroy : Cmd FormatState (Unit {0})
unfolding column_array destroy_columns sdlog_free
message_format_destroy = do
  format ← get_format
  if is_some format.columns
      then (do
        columns ← deref (column_array format)
        in_mem (destroy_columns columns)
        in_mem (sdlog_free format.columns))
      else pure tt
  set_format zero_format

unfoldable pub message_format_get_id : Format → ℕ
message_format_get_id format = format.id

-- The string that the returned pointer shows.
unfoldable pub message_format_get_type : Format → List ℕ
unfolding c_string
message_format_get_type format = c_string format.type

unfoldable pub message_format_get_column_count : Format → ℕ
message_format_get_column_count format = format.num_columns

-- A result of `none` is a read of an element that was never written, `some none` is NULL.
unfoldable pub message_format_get_column : Format → ℕ → Option (Option Column)
message_format_get_column format index =
    if ltb index format.num_columns
    then Option.map some (get_elem? (items_of format.columns) index)
    else some none

-- `uint16_t result` after the rest of the loop.
unfoldable pub sum_sizes : ℕ → List Column → ℕ
unfolding message_column_format_get_size
sum_sizes result [] = result
sum_sizes result (c ∷ cs) = sum_sizes ((result + message_column_format_get_size c) % 2 ^ 16) cs

-- `none` as for `column_array`.
unfoldable pub message_format_get_size : Format → Option ℕ
unfolding column_array sum_sizes
message_format_get_size format = Option.map (sum_sizes 0) (column_array format)
