-- ===== src/Model/AddColumns.antt =====
-- `sdlog_message_format_add_columns` on a format that satisfies the invariant.
use libsdlog.Prelude.{
  ℕ, ◌≤◌, ◌+◌, ◌-◌, ◌<◌, ◌≡◌, refl, ap, sym, ◌∙◌, Bool, false, some, List, [], ◌++◌, append-nil,
  length, get_elem?, take, ltb, arith, Bool-cases, inl, inr, length-append, length-take,
  get_elem?-some, ltb→lt,
}
use libsdlog.Outcome.{Status, elimit, enomem, Ends}
use libsdlog.Outcome.Ends.{Ends-then_clean}
use libsdlog.Memory.{Mem, sdlog_malloc, sdlog_free}
use libsdlog.Memory.Laws.{spend}
use libsdlog.Model.{Column, FormatState, in_mem, message_format_get_column_count}
use libsdlog.Model.Extend.{add_columns_loop, message_format_add_columns}
use libsdlog.Model.AddColumn.{Refused, Holds, AddError}
use libsdlog.Model.Names.{split, described, length-described}
use libsdlog.Model.ColumnLoop.{Holds-cast, Stopped, loop-Holds}

-- Why the columns were not all added: there are more types than a `uint8_t` has room for, there is
-- no memory for the copy of the names, or the type of index `count` could not be added.
pub data ColumnsError (grant : ℕ → ℕ → Bool) (cols : List Column) (types : List ℕ)
    (added : List Column) (count : ℕ) (e : Status) : Type 0 where
  too_many :
      count ≡ 0
      → e ≡ elimit
      → 255 < length cols + length types
      → ColumnsError grant cols types added count e
  no_copy : count ≡ 0 → e ≡ enomem → Refused grant → ColumnsError grant cols types added count e
  at_column :
      (t : ℕ)
      → get_elem? types count ≡ some t
      → AddError grant t (cols ++ take count added) e
      → ColumnsError grant cols types added count e

-- The columns that the three texts describe.
abbrev pub all_columns : (names types units : List ℕ) → List Column
all_columns names types units = described types (split names) units

module _ (grant : ℕ → ℕ → Bool) (id : ℕ) (type : List ℕ) (cols : List Column) (live : ℕ)
    (names types units : List ℕ) where
  pub record ColumnsRefused (e : Status) (s : FormatState) : Type 0 where
    pub count : ℕ
    pub partial : count ≤ length types
    pub holds :
        Holds grant id type (cols ++ take count (all_columns names types units)) (live + count) s
    pub reason : ColumnsError grant cols types (all_columns names types units) count e

  abbrev freed : FormatState → FormatState
  freed s = record s { mem = record s.mem { live = s.mem.live - 1 } }

  freed-Holds :
      (cs : List Column) (n : ℕ) (s : FormatState)
      → length cs < n
      → Holds grant id type cs (n + 1) s
      → Holds grant id type cs n (freed s)
  freed-Holds cs n s h g = record {
    alloc = g.alloc;
    form = g.form;
    fits = g.fits;
    grown = g.grown;
    valid = g.valid;
    blocks = omega arith;
    owned = h;
    oracle = g.oracle;
  }

  at_start :
      (s : FormatState)
      → Holds grant id type cols live s
      → Holds grant id type (cols ++ []) (live + 0) s
  at_start s h = Holds-cast grant id type s (sym (append-nil cols)) (omega arith) h

  -- The heap changes under the format.
  with_mem :
      (s : FormatState)
      → Holds grant id type cols live s
      → (m : Mem) (n : ℕ) → m.live ≡ n
      → length cols < n
      → m.grant ≡ grant
      → Holds grant id type cols n (record s { mem = m })
  with_mem s h m n b o g = record {
    alloc = h.alloc;
    form = h.form;
    fits = h.fits;
    grown = h.grown;
    valid = h.valid;
    blocks = b;
    owned = o;
    oracle = g;
  }

  abbrev copied : FormatState → FormatState
  copied s = record s { mem = spend s.mem (s.mem.live + 1) }

  refusal :
      (s : FormatState)
      → Holds grant id type cols live s
      → s.mem.grant s.mem.calls (length names + 1) ≡ false
      → Refused grant
  refusal s h e =
      (s.mem.calls, length names + 1, ap (λ g. g s.mem.calls (length names + 1)) (sym h.oracle) ∙ e)

  Stopped-ColumnsRefused :
      length cols < live
      → (e : Status) (s : FormatState)
      → Stopped grant id type cols (live + 1) types (all_columns names types units) e s
      → ColumnsRefused e (freed s)
  Stopped-ColumnsRefused o e s g = record {
    count = g.count;
    partial = get_elem?-some g.count types g.at_count;
    holds =
        freed-Holds (cols ++ take g.count (all_columns names types units)) (live + g.count) s
          (omega (
            arith,
            length-append cols (take g.count (all_columns names types units)),
            length-take g.count (all_columns names types units),
          ))
          (Holds-cast grant id type s refl (omega arith) g.holds);
    reason = at_column g.type_at g.at_count g.reason;
  }

  -- `sdlog_message_format_add_columns` on a valid format either appends the columns that its three
  -- texts describe, all of them, or returns an error and has appended those before the one that
  -- could not be added. Either way the format is valid, one block is allocated for each new column,
  -- and the copy of the names has been freed.
  pub add_columns-Holds :
      (s : FormatState)
      → Holds grant id type cols live s
      → Ends
          (λ _ s'.
            Holds grant id type (cols ++ (all_columns names types units)) (live + length types) s')
          ColumnsRefused
          (message_format_add_columns names types units s)
  unfolding message_format_add_columns message_format_get_column_count sdlog_malloc sdlog_free
  add_columns-Holds s h = elim (Bool-cases (ltb (255 - s.format.num_columns) (length types))) [
    | inl full ↦ rw full (record {
      count = 0;
      partial = omega arith;
      holds = at_start s h;
      reason =
          too_many refl refl
            (omega (arith, counted, ltb→lt (255 - s.format.num_columns) (length types) full));
    })
    | inr room ↦ rw room (elim (Bool-cases (s.mem.grant s.mem.calls (length names + 1))) [
      | inr refused ↦ rw refused (record {
        count = 0;
        partial = omega arith;
        holds =
            at_start (record s { mem = spend s.mem s.mem.live })
              (with_mem s h (spend s.mem s.mem.live) live h.blocks h.owned h.oracle);
        reason = no_copy refl refl (refusal s h refused);
      })
      | inl granted ↦ rw granted (
          Ends-then_clean
            (λ _ s'.
              Holds grant id type (cols ++ (all_columns names types units))
                (live + 1 + length types) s')
            (λ _ s'.
              Holds grant id type (cols ++ (all_columns names types units)) (live + length types)
                s')
            (Stopped grant id type cols (live + 1) types (all_columns names types units))
            ColumnsRefused (add_columns_loop types false names units (copied s))
            (in_mem (sdlog_free (some names)))
            (loop-Holds grant id type types cols (live + 1) false names units (copied s) tt (
              with_mem s h (spend s.mem (s.mem.live + 1)) (live + 1) (omega (arith, h.blocks))
                (omega (arith, h.owned)) h.oracle))
            (λ _ s' g. (
              freed s',
              refl,
              freed-Holds (cols ++ (all_columns names types units)) (live + length types) s'
                  (omega (
                    arith,
                    h.owned,
                    all_length,
                    length-append cols (all_columns names types units),
                  ))
                  (Holds-cast grant id type s' refl (omega arith) g),
            ))
            (λ e s' g. (freed s', refl, Stopped-ColumnsRefused h.owned e s' g)))
    ])
  ]
    where
      counted : s.format.num_columns ≡ length cols
      counted = ap (λ f. f.num_columns) h.form

      all_length : length (all_columns names types units) ≡ length types
      all_length = length-described types (split names) units
