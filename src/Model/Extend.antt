-- ===== src/Model/Extend.antt =====
-- core/model.c: `sdlog_message_format_add_column` and `sdlog_message_format_add_columns`.
use libsdlog.Prelude.{
  ℕ, ◌+◌, ◌-◌, ◌*◌, ◌%◌, Bool, true, false, ◌||◌, some, List, [], ◌∷◌, length, ltb, ◌==◌,
  if◌then◌else◌, is_some,
}
use libsdlog.Outcome.{
  einval, elimit, Cmd, pure, throw, deref, ◌>>=◌, ◌>>◌, finally, check_oom, assert,
}
use libsdlog.Memory.{store_at, sdlog_malloc, sdlog_free, sdlog_realloc}
use libsdlog.Model.{
  FormatState, uint8_max, column_size, get_size_of_column_type, in_mem, get_format, set_format,
  message_column_format_init, message_format_get_column_count,
}

-- The next number of allocated columns, in the `uint16_t` that the code computes it in.
unfoldable pub next_alloc : ℕ → ℕ
next_alloc n = if ltb n 32 then n * 2 else n + 16

-- The part that makes room for one more column.
unfoldable pub reserve_column : Cmd FormatState (Unit {0})
unfolding next_alloc
reserve_column = do
  format ← get_format
  if format.num_columns == format.num_alloc_columns
      then (do
        let old_size = format.num_alloc_columns
        let new_size = next_alloc old_size
        if ltb uint8_max new_size then throw elimit else do
          new_columns ← in_mem (sdlog_realloc format.columns column_size old_size new_size)
          check_oom (is_some new_columns)
          set_format (record format { columns = new_columns; num_alloc_columns = new_size }))
      else pure tt

-- The part that fills in `columns[num_columns]`.
unfoldable pub append_column : List ℕ → ℕ → ℕ → Cmd FormatState (Unit {0})
unfolding message_column_format_init store_at
append_column name type unit = do
  format ← get_format
  assert (ltb format.num_columns format.num_alloc_columns)
  column ← in_mem (message_column_format_init name type unit)
  block ← deref format.columns
  columns ← deref (store_at block format.num_columns column)
  set_format
      (record format { columns = some columns; num_columns = (format.num_columns + 1) % 256 })

unfoldable pub message_format_add_column : List ℕ → ℕ → ℕ → Cmd FormatState (Unit {0})
unfolding message_format_get_column_count get_size_of_column_type reserve_column append_column
message_format_add_column name type unit = do
  format ← get_format
  if message_format_get_column_count format == uint8_max
      then throw elimit
      else if get_size_of_column_type type == 0
      then throw einval
      else (do reserve_column; append_column name type unit)

-- The name that starts at `name_ptr`, and what is left of the string at its end, `name_end`.
unfoldable pub first_name : List ℕ → List ℕ
first_name [] = []
first_name (c ∷ cs) = if c == b',' then [] else c ∷ first_name cs

unfoldable pub name_end : List ℕ → List ℕ
name_end [] = []
name_end (c ∷ cs) = if c == b',' then c ∷ cs else name_end cs

-- `p + 1`, where `*p` is not the terminator
abbrev pub advance : List ℕ → List ℕ
advance [] = []
advance (_ ∷ cs) = cs

abbrev pub is_empty : List ℕ → Bool
is_empty [] = true
is_empty (_ ∷ _) = false

-- `*unit_ptr ? *unit_ptr : '-'`
abbrev pub unit_or_dash : List ℕ → ℕ
unit_or_dash [] = b'-'
unit_or_dash (u ∷ _) = u

-- The loop over the types; `num_columns` is the number of those that are left.
unfoldable pub add_columns_loop :
    List ℕ → (reached_end_of_names : Bool) → (names units : List ℕ) → Cmd FormatState (Unit {0})
unfolding message_format_add_column first_name name_end
add_columns_loop [] reached names units = pure tt
add_columns_loop (type ∷ types) reached names units =
    let end = name_end names in
    let reached' = reached || is_empty end in
    let names' = if reached' then end else advance end in
    let rest = add_columns_loop types reached' names' (advance units) in
    message_format_add_column (first_name names) type (unit_or_dash units) >> rest

unfoldable pub message_format_add_columns :
    (names types units : List ℕ) → Cmd FormatState (Unit {0})
unfolding message_format_get_column_count add_columns_loop sdlog_malloc sdlog_free
message_format_add_columns names types units = do
  format ← get_format
  let max_available = uint8_max - message_format_get_column_count format
  if ltb max_available (length types) then throw elimit else do
    granted ← in_mem (sdlog_malloc (length names + 1))
    check_oom granted
    finally (add_columns_loop types false names units) (in_mem (sdlog_free (some names)))
