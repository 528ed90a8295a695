-- ===== src/Model/ColumnLoop.antt =====
-- The loop of `sdlog_message_format_add_columns` on a format that satisfies the invariant.
use mathlib.Core.Path.{subst}
use libsdlog.Prelude.{
  ℕ, suc, ◌+◌, ◌≡◌, refl, sym, Bool, ◌||◌, some, List, [], ◌∷◌, ◌++◌, append-nil, append_assoc,
  length, get_elem?, take, if◌then◌else◌, arith,
}
use libsdlog.Outcome.{Outcome, Status, Ends}
use libsdlog.Outcome.Ends.{Ends-and_then, Ends-mono}
use libsdlog.Model.{Column, FormatState}
use libsdlog.Model.Extend.{
  first_name, name_end, advance, is_empty, unit_or_dash, message_format_add_column,
  add_columns_loop,
}
use libsdlog.Model.AddColumn.{column, Holds, AddError, ColumnAdded, ColumnRefused, add_column-Holds}
use libsdlog.Model.Names.{described, names_left, WellPlaced, names_step}

module _ (grant : ℕ → ℕ → Bool) (id : ℕ) (type : List ℕ) where
  pub Holds-cast :
      {cols cols' : List Column} {live live' : ℕ} (s : FormatState)
      → cols ≡ cols'
      → live ≡ live'
      → Holds grant id type cols live s
      → Holds grant id type cols' live' s
  Holds-cast {cols} {live'} s e f h =
      subst (λ cs. Holds grant id type cs live' s) e (subst (λ n. Holds grant id type cols n s) f h)

  -- The loop stopped at the type of index `count`.
  pub record Stopped (cols : List Column) (live : ℕ) (types : List ℕ) (added : List Column)
      (e : Status) (s : FormatState) : Type 0 where
    pub count : ℕ
    pub type_at : ℕ
    pub at_count : get_elem? types count ≡ some type_at
    pub holds : Holds grant id type (cols ++ take count added) (live + count) s
    pub reason : AddError grant type_at (cols ++ take count added) e

  -- One column more in front of what the rest of the loop does.
  later-Holds :
      (cols : List Column) (live : ℕ) (c : Column) (types : List ℕ) (added : List Column) (t : ℕ)
      (r : Outcome (Unit {0}) × FormatState)
      → Ends
          (λ _ s'. Holds grant id type ((cols ++ c ∷ []) ++ added) (live + 1 + length types) s')
          (Stopped (cols ++ c ∷ []) (live + 1) types added)
          r
      → Ends
          (λ _ s'. Holds grant id type (cols ++ c ∷ added) (live + suc (length types)) s')
          (Stopped cols live (t ∷ types) (c ∷ added))
          r
  later-Holds cols live c types added t r h =
      Ends-mono
        (λ _ s'. Holds grant id type ((cols ++ c ∷ []) ++ added) (live + 1 + length types) s')
        (λ _ s'. Holds grant id type (cols ++ c ∷ added) (live + suc (length types)) s')
        (Stopped (cols ++ c ∷ []) (live + 1) types added)
        (Stopped cols live (t ∷ types) (c ∷ added)) r h
        (λ _ s' g. Holds-cast s' (append_assoc cols (c ∷ []) added) (omega arith) g)
        (λ e s' g. record {
          count = suc g.count;
          type_at = g.type_at;
          at_count = g.at_count;
          holds =
              Holds-cast s' (append_assoc cols (c ∷ []) (take g.count added)) (omega arith) g.holds;
          reason =
              subst (λ cs. AddError grant g.type_at cs e)
                (append_assoc cols (c ∷ []) (take g.count added)) g.reason;
        })

  first_refused :
      (cols : List Column) (live : ℕ) (name : List ℕ) (t u : ℕ) (types : List ℕ)
      (added : List Column) (e : Status) (s : FormatState)
      → ColumnRefused grant id type cols live name t u e s
      → Stopped cols live (t ∷ types) added e s
  first_refused cols live name t u types added e s r = record {
    count = 0;
    type_at = t;
    at_count = refl;
    holds = Holds-cast s (sym (append-nil cols)) (omega arith) r.holds;
    reason = subst (λ cs. AddError grant t cs e) (sym (append-nil cols)) r.reason;
  }

  pub loop-Holds :
      (types : List ℕ) (cols : List Column) (live : ℕ) (reached : Bool) (names units : List ℕ)
      (s : FormatState)
      → WellPlaced reached names
      → Holds grant id type cols live s
      → let added = described types (names_left reached names) units in
        Ends
          (λ _ s'. Holds grant id type (cols ++ added) (live + length types) s')
          (Stopped cols live types added)
          (add_columns_loop types reached names units s)
  unfolding add_columns_loop described
  loop-Holds [] cols live reached names units s w h =
      Holds-cast s (sym (append-nil cols)) (omega arith) h
  loop-Holds (t ∷ types) cols live reached names units s w h =
      let name = first_name names in
      let u = unit_or_dash units in
      let end = name_end names in
      let reached' = reached || is_empty end in
      let names' = if reached' then end else advance end in
      let (first, left, placed) = names_step reached names w in
      let added = described types (names_left reached' names') (advance units) in
      rw (← first, ← left)
        (Ends-and_then (λ _ s'. ColumnAdded grant id type cols live name t u s')
          (ColumnRefused grant id type cols live name t u)
          (λ _ s'.
            Holds grant id type (cols ++ column name t u ∷ added) (live + suc (length types)) s')
          (Stopped cols live (t ∷ types) (column name t u ∷ added))
          (message_format_add_column name t u s)
          (λ _. add_columns_loop types reached' names' (advance units))
          (add_column-Holds grant id type cols live name t u s h)
          (λ _ s' a.
            later-Holds cols live (column name t u) types added t
              (add_columns_loop types reached' names' (advance units) s')
              (loop-Holds types (cols ++ column name t u ∷ []) (live + 1) reached' names'
                (advance units) s' placed a.holds))
          (λ e s' r. first_refused cols live name t u types (column name t u ∷ added) e s' r))
