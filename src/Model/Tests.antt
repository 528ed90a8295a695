-- ===== src/Model/Tests.antt =====
-- Runs of core/model.c and core/memory.c, and a format that the library has made.
use libsdlog.Prelude.{
  ℕ, ◌≡◌, ◌≤◌, All, refl, Bool, some, List, [], ◌∷◌, ◌++◌, length, leb, arith, codes,
}
use libsdlog.Outcome.{ok, fault, Ends, ◌>>◌}
use libsdlog.Memory.{Mem, Block, system, sdlog_realloc}
use libsdlog.Memory.Laws.{spend, sdlog_realloc_lem}
use libsdlog.Model.{
  Column, FormatState, zero_format, get_size_of_column_type, message_format_init,
  message_format_get_size,
}
use libsdlog.Model.Extend.{message_format_add_column, message_format_add_columns}
use libsdlog.Model.Invariant.{IsValidColumn, built, at}
use libsdlog.Model.AddColumn.{column, Holds, ColumnAdded, ColumnRefused, add_column-Holds}
use libsdlog.Model.Access.{Appended, Unchanged, add_column-get_column}
use libsdlog.Model.AddColumns.{all_columns, ColumnsRefused, add_columns-Holds}
use libsdlog.Model.Strings.{message_format_get_column_names, message_format_get_format_string}
use libsdlog.Model.StringLaws.{
  join, each_behind, get_column_names-join, get_column_names_of_empty, get_format_string_lem,
}
use libsdlog.Model.Lifecycle.{
  type_array, InitRefused, init-Holds, format_life, format_life-balanced,
}
use libsdlog.Model.Size.{total_size, get_size-total_size}

-- An allocator that gives blocks of up to 1000 bytes.
abbrev pub grants : ℕ → ℕ → Bool
grants n k = leb k 1000

abbrev pub heap : ℕ → Mem
heap live = record { build = system; grant = grants; calls = 0; live = live }

abbrev fresh : FormatState
fresh = at zero_format (heap 7)

-- The columns "t" of microseconds and "alt" of metres.
abbrev pub two_columns : List Column
two_columns = column (codes "t") b'Q' b's' ∷ column (codes "alt") b'f' b'm' ∷ []

two-IsValid : All IsValidColumn two_columns
unfolding get_size_of_column_type
two-IsValid = ((λ e. absurd (omega (arith, e)), refl), ((λ e. absurd (omega (arith, e)), refl), tt))

abbrev pub two : FormatState
two = at (built 5 (type_array (codes "GPS")) 4 two_columns) (heap 10)

pub two-Holds : Holds grants 5 (type_array (codes "GPS")) two_columns 10 two
two-Holds = record {
  alloc = 4;
  form = refl;
  fits = omega arith;
  grown = omega arith;
  valid = two-IsValid;
  blocks = refl;
  owned = omega arith;
  oracle = refl;
}

-- The run that makes it.
made :
    (message_format_init 5 (codes "GPS")
        >> message_format_add_columns (codes "t,alt") (codes "Qf") (codes "sm"))
      fresh
    ≡ (ok tt, at two.format (record (heap 10) { calls = 4 }))
unfolding message_format_init message_format_add_columns
made = refl

add_columns-Holds_example :
    Ends
      (λ _ s.
        Holds grants 5
          (type_array (codes "GPS"))
          (two_columns ++ all_columns (codes "x,y") (codes "hhb") (codes "m"))
          13
          s)
      (ColumnsRefused grants 5
        (type_array (codes "GPS"))
        two_columns
        10
        (codes "x,y")
        (codes "hhb")
        (codes "m"))
      (message_format_add_columns (codes "x,y") (codes "hhb") (codes "m") two)
add_columns-Holds_example =
    add_columns-Holds grants 5 (type_array (codes "GPS")) two_columns 10 (codes "x,y") (codes "hhb")
      (codes "m") two two-Holds

add_column-Holds_example :
    Ends
      (λ _ s.
        ColumnAdded grants 5 (type_array (codes "GPS")) two_columns 10 (codes "x") b'h' b'm' s)
      (ColumnRefused grants 5 (type_array (codes "GPS")) two_columns 10 (codes "x") b'h' b'm')
      (message_format_add_column (codes "x") b'h' b'm' two)
add_column-Holds_example =
    add_column-Holds grants 5 (type_array (codes "GPS")) two_columns 10 (codes "x") b'h' b'm' two
      two-Holds

format_life-balanced_example :
    Ends
      (λ _ s. s.mem.live ≡ 7)
      (λ _ s. s.mem.live ≡ 7)
      (format_life 5 (codes "GPS") (codes "t,alt") (codes "Qf?") (codes "sm") fresh)
format_life-balanced_example =
    format_life-balanced 5 (codes "GPS") (codes "t,alt") (codes "Qf?") (codes "sm") fresh

init-Holds_example :
    Ends
      (λ _ s. Holds grants 5 (type_array (codes "GPS")) [] 8 s × (length (codes "GPS") ≤ 4))
      (InitRefused 5 (codes "GPS") fresh)
      (message_format_init 5 (codes "GPS") fresh)
init-Holds_example = init-Holds 5 (codes "GPS") fresh

add_column-get_column_example :
    Ends
      (λ _ s. Appended (column (codes "x") b'h' b'm') two.format s.format)
      (λ _ s. Unchanged two.format s.format)
      (message_format_add_column (codes "x") b'h' b'm' two)
add_column-get_column_example =
    add_column-get_column grants 5 (type_array (codes "GPS")) two_columns 10 two two-Holds
      (codes "x") b'h' b'm'

get_column_names-join_example :
    message_format_get_column_names two.format (codes ",") (heap 10)
    ≡ (ok (some (codes "t,alt" ++ 0 ∷ [])), spend (heap 10) 11)
unfolding join each_behind
get_column_names-join_example =
    get_column_names-join 5 (type_array (codes "GPS")) 4 (column (codes "t") b'Q' b's')
      (column (codes "alt") b'f' b'm' ∷ []) (codes ",") (heap 10) two-Holds.valid (omega arith)
      (omega arith)

get_format_string_lem_example :
    message_format_get_format_string two.format (heap 10)
    ≡ (ok (some (codes "Qf" ++ 0 ∷ [])), spend (heap 10) 11)
get_format_string_lem_example =
    get_format_string_lem 5 (type_array (codes "GPS")) 4 two_columns (heap 10)

get_column_names_of_empty_example :
    message_format_get_column_names (built 5 (type_array (codes "GPS")) 4 []) (codes ",") (heap 8)
    ≡ (fault, spend (heap 8) 9)
get_column_names_of_empty_example =
    get_column_names_of_empty 5 (type_array (codes "GPS")) 4 b',' (heap 8)

get_size-total_size_example : message_format_get_size two.format ≡ some (total_size two_columns)
get_size-total_size_example =
    get_size-total_size grants 5 (type_array (codes "GPS")) two_columns 10 two two-Holds

abbrev bytes_block : Block ℕ
bytes_block = record { size = 16; items = 1 ∷ 2 ∷ 3 ∷ [] }

sdlog_realloc_lem_example :
    sdlog_realloc (some bytes_block) 1 16 32 (heap 2)
    ≡ (ok (some (record { size = 32; items = 1 ∷ 2 ∷ 3 ∷ [] })), spend (heap 2) 2)
sdlog_realloc_lem_example =
    sdlog_realloc_lem (heap 2) bytes_block 1 16 32 (omega arith) (omega arith) (omega arith)
