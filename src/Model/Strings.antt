-- ===== src/Model/Strings.antt =====
-- core/model.c: `sdlog_message_format_get_column_names` and `sdlog_message_format_get_format_string`.
-- A string that they return is given with its terminator, as the items of its block; `none` is NULL.
use libsdlog.Prelude.{
  ℕ, ◌+◌, ◌-◌, ◌*◌, ◌%◌, ◌^◌, Bool, true, false, Option, none, some, List, [], ◌∷◌, length,
  if◌then◌else◌,
}
use libsdlog.Outcome.{Cmd, pure, check_oom_null, deref, ◌>>=◌}
use libsdlog.Memory.{Mem, Block, empty_block, append_to, sdlog_malloc}
use libsdlog.Model.{Column, Format, column_array, message_format_get_column_count}

-- `size_t` arithmetic
abbrev pub size_mod : ℕ
size_mod = 2 ^ 64

-- `bytes_needed` after the rest of the first loop; `strlen(NULL)` is `none`.
unfoldable pub sum_lengths : ℕ → List Column → Option ℕ
sum_lengths bytes [] = some bytes
sum_lengths bytes (c ∷ cs) = elim c.name [
  | none ↦ none
  | some name ↦ sum_lengths ((bytes + length name) % size_mod) cs
]

unfoldable pub name_bytes_needed : ℕ → ℕ → ℕ → ℕ
name_bytes_needed name_bytes sep_length num_columns =
    (name_bytes + sep_length * ((num_columns + size_mod - 1) % size_mod) + 1) % size_mod

-- One name behind what `write_ptr` has passed, with the separator in front of all but the first.
unfoldable pub write_name : (is_first : Bool) → List ℕ → Column → Block ℕ → Option (Block ℕ)
unfolding append_to
write_name is_first sep c b = elim c.name [
  | none ↦ none
  | some name ↦ elim (if is_first then some b else append_to b sep) [
    | none ↦ none
    | some b' ↦ append_to b' name
  ]
]

unfoldable pub write_names : (is_first : Bool) → List ℕ → List Column → Block ℕ → Option (Block ℕ)
unfolding write_name
write_names is_first sep [] b = some b
write_names is_first sep (c ∷ cs) b = elim (write_name is_first sep c b) [
  | none ↦ none
  | some b' ↦ write_names false sep cs b'
]

unfoldable pub message_format_get_column_names : Format → List ℕ → Cmd Mem (Option (List ℕ))
unfolding column_array sum_lengths name_bytes_needed write_names append_to sdlog_malloc
message_format_get_column_names format sep = do
  columns ← deref (column_array format)
  name_bytes ← deref (sum_lengths 0 columns)
  let size = name_bytes_needed name_bytes (length sep) (message_format_get_column_count format)
  granted ← sdlog_malloc size
  check_oom_null granted (do
    written ← deref (write_names true sep columns (empty_block size))
    result ← deref (append_to written (0 ∷ []))
    pure (some result.items))

-- `result[i] = columns[i].type` for each column
unfoldable pub write_types : List Column → Block ℕ → Option (Block ℕ)
unfolding append_to
write_types [] b = some b
write_types (c ∷ cs) b = elim (append_to b (c.type ∷ [])) [
  | none ↦ none
  | some b' ↦ write_types cs b'
]

unfoldable pub message_format_get_format_string : Format → Cmd Mem (Option (List ℕ))
unfolding column_array write_types append_to sdlog_malloc
message_format_get_format_string format = do
  columns ← deref (column_array format)
  let size = message_format_get_column_count format + 1
  granted ← sdlog_malloc size
  check_oom_null granted (do
    written ← deref (write_types columns (empty_block size))
    result ← deref (append_to written (0 ∷ []))
    pure (some result.items))
