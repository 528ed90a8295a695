-- ===== src/Model/Invariant.antt =====
-- The invariant of a message format, and what the two halves of
-- `sdlog_message_format_add_column` do to a format that satisfies it.
use libsdlog.Prelude.{
  ℕ, ◌+◌, ◌*◌, ◌%◌, ◌≤◌, ◌<◌, ◌≡◌, ◌≢◌, ◌⊎◌, true, some, List, [], ◌∷◌, ◌++◌, length, ◌==◌,
  if◌then◌else◌, is_some, arith, take_all, drop_all, length-append,
}
use libsdlog.Outcome.{ok, fail, elimit, enomem}
use libsdlog.Memory.{Mem}
use libsdlog.Memory.Laws.{sdlog_realloc_lem, spend}
use libsdlog.Model.{Column, Format, FormatState, column_size, get_size_of_column_type}
use libsdlog.Model.Extend.{reserve_column, append_column, next_alloc}

-- The numbers of allocated columns that occur: 4, 8, 16, and the multiples of 16 up to 240.
abbrev pub IsAlloc : ℕ → Type 0
IsAlloc n = ((n ≡ 4) ⊎ (n ≡ 8)) ⊎ ((n % 16 ≡ 0) × (16 ≤ n) × (n ≤ 240))

abbrev pub IsValidColumn : Column → Type 0
IsValidColumn c = (get_size_of_column_type c.type ≢ 0) × (is_some c.name ≡ true)

-- A format with room for `alloc` columns, the first of which are `cols`.
abbrev pub built : ℕ → List ℕ → ℕ → List Column → Format
built id type alloc cols = record {
  id = id;
  type = type;
  num_columns = length cols;
  num_alloc_columns = alloc;
  columns = some (record { size = alloc; items = cols });
}

abbrev pub at : Format → Mem → FormatState
at f m = record { format = f; mem = m }

module _ (id : ℕ) (type : List ℕ) (alloc : ℕ) (cols : List Column) (m : Mem) where
  -- `reserve_column` on such a format: it finds room, or makes it, or the limit is reached, or there
  -- is no memory.
  pub reserve_column_lem :
      length cols ≤ alloc
      → IsAlloc alloc
      → 0 < m.live
      → reserve_column (at (built id type alloc cols) m) ≡ (
          if length cols == alloc
          then (if alloc == 240
              then (fail elimit, at (built id type alloc cols) m)
              else (if m.grant m.calls (next_alloc alloc * column_size)
                  then (ok tt, at (built id type (next_alloc alloc) cols) (spend m m.live))
                  else (fail enomem, at (built id type alloc cols) (spend m m.live))))
          else (ok tt, at (built id type alloc cols) m))
  unfolding reserve_column
  reserve_column_lem fits grown live = ground (
    arith,
    sdlog_realloc_lem m (record { size = alloc; items = cols }) column_size alloc (next_alloc alloc)
        fits,
  )

  pub append_column_lem :
      (name : List ℕ) (t u : ℕ)
      → length cols < alloc
      → alloc ≤ 240
      → append_column name t u (at (built id type alloc cols) m) ≡ (
          if m.grant m.calls (length name + 1)
          then (
            ok tt,
            at
                (built id type alloc (cols ++ record { type = t; unit = u; name = some name } ∷ []))
                (spend m (m.live + 1)),
          )
          else (fail enomem, at (built id type alloc cols) (spend m m.live)))
  unfolding append_column
  append_column_lem name t u room small = ground (
    arith,
    take_all (length cols) cols (omega arith),
    length-append cols (record { type = t; unit = u; name = some name } ∷ []),
    drop_all (length cols + 1) cols (omega arith),
  )
