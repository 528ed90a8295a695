-- ===== src/Model/Access.antt =====
-- The accessors of core/model.c on a format that satisfies the invariant.
use mathlib.Core.Path.{subst}
use libsdlog.Prelude.{
  ℕ, ◌+◌, ◌<◌, ◌≡◌, inl, inr, refl, ap, sym, ◌∙◌, Bool, Bool-cases, none, some, List, [], ◌∷◌, ◌++◌,
  length, ltb, ltb→lt, get_elem?, get_elem?-beyond, get_elem?-within, get_elem?-last,
  get_elem?-earlier, arith, length-append,
}
use libsdlog.Outcome.{Ends}
use libsdlog.Outcome.Ends.{Ends-mono}
use libsdlog.Model.{
  Column, Format, FormatState, message_format_get_column, message_format_get_column_count,
}
use libsdlog.Model.Extend.{message_format_add_column}
use libsdlog.Model.AddColumn.{column, Holds, ColumnAdded, ColumnRefused, add_column-Holds}

-- `sdlog_message_format_get_column` on a valid format: the column of that index, NULL behind the last
-- one, and never an element that was not written.
pub get_column_lem :
    (grant : ℕ → ℕ → Bool) (id : ℕ) (type : List ℕ) (cols : List Column) (live : ℕ)
    (s : FormatState)
    → Holds grant id type cols live s
    → (i : ℕ) → message_format_get_column s.format i ≡ some (get_elem? cols i)
unfolding message_format_get_column
get_column_lem grant id type cols live s h i =
    subst (λ f. message_format_get_column f i ≡ some (get_elem? cols i)) (sym h.form)
      (elim (Bool-cases (ltb i (length cols))) [
        | inl within ↦
            let (x, found) = get_elem?-within cols i (ltb→lt i (length cols) within) in
            rw (within, found) refl
        | inr beyond ↦ rw (beyond, get_elem?-beyond cols i (ground arith)) refl
      ])

-- A column has been added to a format of `count` columns, as the accessors show it.
pub record Appended (c : Column) (f f' : Format) : Type 0 where
  pub count : message_format_get_column_count f' ≡ message_format_get_column_count f + 1
  pub last : message_format_get_column f' (message_format_get_column_count f) ≡ some (some c)
  pub earlier :
      (i : ℕ)
      → i < message_format_get_column_count f
      → message_format_get_column f' i ≡ message_format_get_column f i
  pub beyond :
      (i : ℕ) → message_format_get_column_count f < i → message_format_get_column f' i ≡ some none

-- The accessors do not tell the two formats apart.
pub record Unchanged (f f' : Format) : Type 0 where
  pub count : message_format_get_column_count f' ≡ message_format_get_column_count f
  pub columns : (i : ℕ) → message_format_get_column f' i ≡ message_format_get_column f i

module _ (grant : ℕ → ℕ → Bool) (id : ℕ) (type : List ℕ) (cols : List Column) (live : ℕ)
    (s : FormatState) (h : Holds grant id type cols live s) where
  count_lem :
      (cs : List Column) (n : ℕ) (s' : FormatState)
      → Holds grant id type cs n s'
      → message_format_get_column_count s'.format ≡ length cs
  unfolding message_format_get_column_count
  count_lem cs n s' h' = ap (λ f. f.num_columns) h'.form

  Holds-Unchanged :
      (s' : FormatState) → Holds grant id type cols live s' → Unchanged s.format s'.format
  Holds-Unchanged s' h' = record {
    count = count_lem cols live s' h' ∙ sym (count_lem cols live s h);
    columns = λ i.
        get_column_lem grant id type cols live s' h' i
        ∙ sym (get_column_lem grant id type cols live s h i);
  }

  Holds-Appended :
      (c : Column) (s' : FormatState)
      → Holds grant id type (cols ++ c ∷ []) (live + 1) s'
      → Appended c s.format s'.format
  Holds-Appended c s' h' =
      let old = count_lem cols live s h in
      let new = get_column_lem grant id type (cols ++ c ∷ []) (live + 1) s' h' in
      record {
        count =
            omega (
              arith,
              old,
              count_lem (cols ++ c ∷ []) (live + 1) s' h',
              length-append cols (c ∷ []),
            );
        last = rw old (new (length cols) ∙ ap some (get_elem?-last cols c));
        earlier = λ i lt.
            new i
            ∙ (ap some (get_elem?-earlier cols (c ∷ []) i (omega (arith, old)))
                ∙ sym (get_column_lem grant id type cols live s h i));
        beyond = λ i lt.
            new i
            ∙ ap some (
                get_elem?-beyond (cols ++ c ∷ []) i
                  (omega (arith, old, length-append cols (c ∷ []))));
      }

  -- What the accessors show after `sdlog_message_format_add_column` on a valid format. On success
  -- `get_column_count` is one more, `get_column` gives the new column at the old count, the same
  -- columns as before at the smaller indices, and NULL at the larger ones. On an error
  -- `get_column_count` and `get_column`, at every index, answer as before.
  pub add_column-get_column :
      (name : List ℕ) (t u : ℕ)
      → Ends
          (λ _ s'. Appended (column name t u) s.format s'.format)
          (λ _ s'. Unchanged s.format s'.format)
          (message_format_add_column name t u s)
  add_column-get_column name t u =
      Ends-mono (λ _ s'. ColumnAdded grant id type cols live name t u s')
        (λ _ s'. Appended (column name t u) s.format s'.format)
        (ColumnRefused grant id type cols live name t u) (λ _ s'. Unchanged s.format s'.format)
        (message_format_add_column name t u s)
        (add_column-Holds grant id type cols live name t u s h)
        (λ _ s' a. Holds-Appended (column name t u) s' a.holds)
        (λ e s' r. Holds-Unchanged s' r.holds)
