-- ===== src/Model/AddColumn.antt =====
-- `sdlog_message_format_add_column` on a format that satisfies the invariant.
use mathlib.Core.Path.{subst}
use libsdlog.Prelude.{
  ℕ, ◌+◌, ◌*◌, ◌≤◌, ◌<◌, ◌≡◌, ◌≢◌, inl, inr, Bool, false, some, List, [], ◌∷◌, ◌++◌, length, All,
  All-append, ◌==◌, arith, Bool-cases, refl, ap, sym, ◌∙◌, length-append,
}
use libsdlog.Outcome.{Status, einval, elimit, enomem, Ends, and_then}
use libsdlog.Outcome.Ends.{Ends-and_then, Ends-mono}
use libsdlog.Memory.{Mem}
use libsdlog.Memory.Laws.{spend}
use libsdlog.Model.{
  Column, FormatState, column_size, get_size_of_column_type, message_format_get_column_count,
  uint8_max,
}
use libsdlog.Model.Extend.{reserve_column, append_column, next_alloc, message_format_add_column}
use libsdlog.Model.Invariant.{
  IsAlloc, IsValidColumn, built, at, reserve_column_lem, append_column_lem,
}

abbrev pub column : List ℕ → ℕ → ℕ → Column
column name t u = record { type = t; unit = u; name = some name }

-- A refusal of the allocator.
abbrev pub Refused : (ℕ → ℕ → Bool) → Type 0
Refused grant = (n : ℕ) × (k : ℕ) × (grant n k ≡ false)

-- The format of the state is valid and has the columns `cols`, and `live` blocks are allocated, the
-- array of the columns and their names among them.
pub record Holds (grant : ℕ → ℕ → Bool) (id : ℕ) (type : List ℕ) (cols : List Column) (live : ℕ)
    (s : FormatState) : Type 0 where
  pub alloc : ℕ
  pub form : s.format ≡ built id type alloc cols
  pub fits : length cols ≤ alloc
  pub grown : IsAlloc alloc
  pub valid : All IsValidColumn cols
  pub blocks : s.mem.live ≡ live
  pub owned : length cols < live
  pub oracle : s.mem.grant ≡ grant

-- Why a column of type `t` is not added to `cols`.
pub data AddError (grant : ℕ → ℕ → Bool) (t : ℕ) (cols : List Column) : Status → Type 0 where
  bad_type : get_size_of_column_type t ≡ 0 → AddError grant t cols einval
  full : get_size_of_column_type t ≢ 0 → length cols ≡ 240 → AddError grant t cols elimit
  no_memory : get_size_of_column_type t ≢ 0 → Refused grant → AddError grant t cols enomem

IsAlloc-next_alloc : (n : ℕ) → IsAlloc n → n ≢ 240 → IsAlloc (next_alloc n)
unfolding next_alloc
IsAlloc-next_alloc n h ne = ground arith

next_alloc-lt : (n : ℕ) → IsAlloc n → n < next_alloc n
unfolding next_alloc
next_alloc-lt n h = ground arith

module _ (grant : ℕ → ℕ → Bool) (id : ℕ) (type : List ℕ) (cols : List Column) (live : ℕ)
    (name : List ℕ) (t u : ℕ) (known : get_size_of_column_type t ≢ 0) where
  -- The state between the two halves: there is room.
  record HasRoom (s : FormatState) : Type 0 where
    holds : Holds grant id type cols live s
    room : length cols < holds.alloc

  record Added (s : FormatState) : Type 0 where
    holds : Holds grant id type (cols ++ column name t u ∷ []) (live + 1) s
    room : length cols < 240

  record NotAdded (e : Status) (s : FormatState) : Type 0 where
    holds : Holds grant id type cols live s
    reason : AddError grant t cols e

  module _ (alloc : ℕ) (m : Mem) (fits : length cols ≤ alloc) (grown : IsAlloc alloc)
      (valid : All IsValidColumn cols) (blocks : m.live ≡ live) (owned : length cols < live)
      (oracle : m.grant ≡ grant) where
    reserve-HasRoom :
        Ends (λ _ s. HasRoom s) NotAdded (reserve_column (at (built id type alloc cols) m))
    reserve-HasRoom =
        rw (reserve_column_lem id type alloc cols m fits grown (omega arith))
          (elim (Bool-cases (length cols == alloc)) [
            | inr roomy ↦
                rw roomy
                  (record { holds = holds_at alloc m fits grown refl oracle; room = ground arith })
            | inl tight ↦ rw tight (elim (Bool-cases (alloc == 240)) [
              | inl top ↦ rw top (record {
                holds = holds_at alloc m fits grown refl oracle;
                reason = full known (ground arith);
              })
              | inr below ↦
                  rw below (elim (Bool-cases (m.grant m.calls (next_alloc alloc * column_size))) [
                    | inl granted ↦ rw granted (record {
                      holds =
                          holds_at (next_alloc alloc) (spend m m.live)
                            (omega (arith, next_alloc-lt alloc grown))
                            (IsAlloc-next_alloc alloc grown (ground arith)) refl oracle;
                      room = omega (arith, next_alloc-lt alloc grown);
                    })
                    | inr refused ↦ rw refused (record {
                      holds = holds_at alloc (spend m m.live) fits grown refl oracle;
                      reason = no_memory known (
                        m.calls,
                        next_alloc alloc * column_size,
                        ap (λ g. g m.calls (next_alloc alloc * column_size)) (sym oracle) ∙ refused,
                      );
                    })
                  ])
            ])
          ])
      where
        holds_at :
            (a : ℕ) (m' : Mem)
            → length cols ≤ a
            → IsAlloc a
            → m'.live ≡ m.live
            → m'.grant ≡ grant
            → Holds grant id type cols live (at (built id type a cols) m')
        holds_at a m' f g l o = record {
          alloc = a;
          form = refl;
          fits = f;
          grown = g;
          valid = valid;
          blocks = l ∙ blocks;
          owned = owned;
          oracle = o;
        }

  append-Added :
      (s : FormatState) → HasRoom s → Ends (λ _ s'. Added s') NotAdded (append_column name t u s)
  append-Added s r =
      subst (λ f. Ends (λ _ s'. Added s') NotAdded (append_column name t u (at f s.mem))) (sym form)
        (rw (append_column_lem id type alloc cols s.mem name t u r.room (omega arith))
          (elim (Bool-cases (s.mem.grant s.mem.calls (length name + 1))) [
            | inl granted ↦ rw granted (record {
              holds = record {
                alloc = alloc;
                form = refl;
                fits = omega (arith, more, r.room);
                grown = grown;
                valid =
                    All-append IsValidColumn cols (column name t u ∷ []) valid ((known, refl), tt);
                blocks = ap (λ n. n + 1) blocks;
                owned = omega (arith, more);
                oracle = oracle;
              };
              room = omega (arith, r.room);
            })
            | inr refused ↦ rw refused (record {
              holds = record {
                alloc = alloc;
                form = refl;
                fits = fits;
                grown = grown;
                valid = valid;
                blocks = blocks;
                owned = owned;
                oracle = oracle;
              };
              reason = no_memory known (
                s.mem.calls,
                length name + 1,
                ap (λ g. g s.mem.calls (length name + 1)) (sym oracle) ∙ refused,
              );
            })
          ]))
    where
      open r.holds use {alloc, form, fits, grown, valid, blocks, owned, oracle}

      more : length (cols ++ column name t u ∷ []) ≡ length cols + 1
      more = length-append cols (column name t u ∷ [])

  reserve-Room :
      (s : FormatState)
      → Holds grant id type cols live s
      → Ends (λ _ s'. HasRoom s') NotAdded (reserve_column s)
  reserve-Room s h =
      subst (λ f. Ends (λ _ s'. HasRoom s') NotAdded (reserve_column (at f s.mem))) (sym h.form)
        (reserve-HasRoom h.alloc s.mem h.fits h.grown h.valid h.blocks h.owned h.oracle)

  both_halves :
      (s : FormatState)
      → Holds grant id type cols live s
      → Ends (λ _ s'. Added s') NotAdded (and_then (reserve_column s) (λ _. append_column name t u))
  both_halves s h =
      Ends-and_then (λ _ s'. HasRoom s') NotAdded (λ _ s'. Added s') NotAdded (reserve_column s)
        (λ _. append_column name t u) (reserve-Room s h) (λ _ s' r. append-Added s' r) (λ e s' r. r)

module _ (grant : ℕ → ℕ → Bool) (id : ℕ) (type : List ℕ) (cols : List Column) (live : ℕ)
    (name : List ℕ) (t u : ℕ) where
  -- What `add_column` leaves behind.
  pub record ColumnAdded (s : FormatState) : Type 0 where
    pub holds : Holds grant id type (cols ++ column name t u ∷ []) (live + 1) s
    pub known : get_size_of_column_type t ≢ 0
    pub room : length cols < 240

  pub record ColumnRefused (e : Status) (s : FormatState) : Type 0 where
    pub holds : Holds grant id type cols live s
    pub reason : AddError grant t cols e

  -- Adding a column to a valid format keeps it valid on every branch. On success exactly that column
  -- is appended and one block more is allocated; this happens only for a known type and below 240
  -- columns. On an error, which is EINVAL for an unknown type, ELIMIT at 240 columns and ENOMEM
  -- where the allocator refuses, the columns and the number of allocated blocks are as before.
  pub add_column-Holds :
      (s : FormatState)
      → Holds grant id type cols live s
      → Ends (λ _ s'. ColumnAdded s') ColumnRefused (message_format_add_column name t u s)
  unfolding message_format_add_column message_format_get_column_count
  add_column-Holds s h = rw below_limit (elim (Bool-cases (get_size_of_column_type t == 0)) [
    | inl unknown ↦ rw unknown (record { holds = h; reason = bad_type (ground arith) })
    | inr ok_type ↦ rw ok_type (
        let known : get_size_of_column_type t ≢ 0 = ground arith in
        Ends-mono (λ _ s'. Added grant id type cols live name t u known s') (λ _ s'. ColumnAdded s')
          (NotAdded grant id type cols live name t u known) ColumnRefused
          (and_then (reserve_column s) (λ _. append_column name t u))
          (both_halves grant id type cols live name t u known s h)
          (λ _ s' a. record { holds = a.holds; known = known; room = a.room })
          (λ e s' a. record { holds = a.holds; reason = a.reason }))
  ])
    where
      below_limit : (message_format_get_column_count s.format == uint8_max) ≡ false
      below_limit = ground (arith, ap (λ f. f.num_columns) h.form)
