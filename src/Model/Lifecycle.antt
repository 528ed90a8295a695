-- ===== src/Model/Lifecycle.antt =====
-- Formats from `sdlog_message_format_init` to `sdlog_message_format_destroy`, and their size.
use mathlib.Core.Path.{subst}
use libsdlog.Prelude.{
  ℕ, ◌+◌, ◌-◌, ◌≤◌, ◌<◌, ◌≡◌, ◌⊎◌, inl, inr, Bool-cases, ltb→lt, refl, ap, sym, Bool, List, [], ◌∷◌,
  ◌++◌, length, All, arith, ltb, take, length-take_le,
}
use libsdlog.Outcome.{ok, Cmd, Status, einval, enomem, Ends, finally, ◌>>◌}
use libsdlog.Outcome.Ends.{Ends-and_then, Ends-then_clean}
use libsdlog.Memory.{Mem}
use libsdlog.Model.{
  Column, FormatState, strncpy, message_format_init, message_format_destroy, zero_format,
  destroy_columns,
}
use libsdlog.Model.Extend.{message_format_add_columns}
use libsdlog.Model.Invariant.{at, IsValidColumn}
use libsdlog.Model.AddColumn.{Holds, Refused}
use libsdlog.Model.AddColumns.{add_columns-Holds, ColumnsRefused, all_columns}
use libsdlog.Model.Names.{split, length-described}
use libsdlog.Model.StringLaws.{column_array-built}

-- The array `type` of a format that was made for the text `text`.
abbrev pub type_array : List ℕ → List ℕ
type_array text = strncpy 4 text ++ 0 ∷ []

-- Nothing is left of the format, and `live` blocks are allocated.
pub record Gone (live : ℕ) (s : FormatState) : Type 0 where
  pub format : s.format ≡ zero_format
  pub blocks : s.mem.live ≡ live

destroy_columns_lem :
    (cs : List Column) (m : Mem)
    → All IsValidColumn cs
    → destroy_columns cs m ≡ (ok tt, record m { live = m.live - length cs })
unfolding destroy_columns
destroy_columns_lem [] m v = ap (λ n. (ok tt, record m { live = n })) (omega arith)
destroy_columns_lem (c ∷ cs) m v =
    ground (arith, destroy_columns_lem cs (record m { live = m.live - 1 }) v.1)

-- Destroying a valid format frees all of its blocks: the array and the name of each column.
pub destroy-Holds :
    (grant : ℕ → ℕ → Bool) (id : ℕ) (type : List ℕ) (cols : List Column) (live : ℕ)
    (s : FormatState)
    → Holds grant id type cols live s
    → message_format_destroy s
      ≡ (ok tt, at zero_format (record s.mem { live = live - length cols - 1 }))
unfolding message_format_destroy
destroy-Holds grant id type cols live s h =
    subst
      (λ f.
        message_format_destroy (at f s.mem)
        ≡ (ok tt, at zero_format (record s.mem { live = live - length cols - 1 })))
      (sym h.form)
      (ground (
        arith,
        column_array-built id type h.alloc cols,
        destroy_columns_lem cols s.mem h.valid,
        h.blocks,
      ))

-- An error of `sdlog_message_format_init`: EINVAL for a type that is too long, with nothing changed,
-- or ENOMEM.
abbrev pub InitRefused : (id : ℕ) (type : List ℕ) (s : FormatState) → Status → FormatState → Type 0
InitRefused id type s e s' =
    (s'.mem.live ≡ s.mem.live)
    × (s'.mem.grant ≡ s.mem.grant)
    × (((e ≡ einval) × (4 < length type) × (s' ≡ s))
        ⊎ ((e ≡ enomem) × (length type ≤ 4) × Refused s.mem.grant))

-- `sdlog_message_format_init` accepts a type of at most four characters and makes a valid format
-- without columns, in one new block; on an error no block is left.
pub init-Holds :
    (id : ℕ) (type : List ℕ) (s : FormatState)
    → Ends
        (λ _ s'. Holds s.mem.grant id (type_array type) [] (s.mem.live + 1) s' × (length type ≤ 4))
        (InitRefused id type s)
        (message_format_init id type s)
unfolding message_format_init
init-Holds id type s = elim (Bool-cases (ltb 4 (length type))) [
  | inl long ↦ rw long (refl, refl, inl (refl, ltb→lt 4 (length type) long, refl))
  | inr short ↦ rw short (elim (Bool-cases (s.mem.grant s.mem.calls 64)) [
    | inl granted ↦ rw granted (
      record {
        alloc = 4;
        form = refl;
        fits = omega arith;
        grown = omega arith;
        valid = tt;
        blocks = refl;
        owned = omega arith;
        oracle = refl;
      },
      ground arith,
    )
    | inr refused ↦ rw refused (refl, refl, inr (refl, ground arith, (s.mem.calls, 64, refused)))
  ])
]

abbrev end_state : (cols : List Column) (live : ℕ) → FormatState → FormatState
end_state cols live s = at zero_format (record s.mem { live = live - length cols - 1 })

destroyed :
    (grant : ℕ → ℕ → Bool) (id : ℕ) (type : List ℕ) (cols : List Column) (count n : ℕ)
    (s : FormatState)
    → length cols ≡ count
    → Holds grant id type cols (n + 1 + count) s
    → (s' : FormatState) × (message_format_destroy s ≡ (ok tt, s')) × (s'.mem.live ≡ n)
destroyed grant id type cols count n s l h = (
  end_state cols (n + 1 + count) s,
  destroy-Holds grant id type cols (n + 1 + count) s h,
  omega arith,
)

-- The life of a format: made, given its columns, and destroyed whether or not all were added.
pub format_life : (id : ℕ) (type names types units : List ℕ) → Cmd FormatState (Unit {0})
format_life id type names types units =
    message_format_init id type
    >> finally (message_format_add_columns names types units) message_format_destroy

-- No format leaks memory, whatever its texts are and whichever requests the allocator refuses: after
-- init, add_columns and destroy as many blocks are allocated as before, and nothing faults.
pub format_life-balanced :
    (id : ℕ) (type names types units : List ℕ) (s : FormatState)
    → Ends
        (λ _ s'. s'.mem.live ≡ s.mem.live)
        (λ _ s'. s'.mem.live ≡ s.mem.live)
        (format_life id type names types units s)
unfolding format_life
format_life-balanced id type names types units s =
    let array = type_array type in
    let g = s.mem.grant in
    let n = s.mem.live in
    let added = all_columns names types units in
    Ends-and_then (λ _ s'. Holds g id array [] (n + 1) s' × (length type ≤ 4))
      (InitRefused id type s) (λ _ s'. s'.mem.live ≡ n) (λ _ s'. s'.mem.live ≡ n)
      (message_format_init id type s)
      (λ _. finally (message_format_add_columns names types units) message_format_destroy)
      (init-Holds id type s)
      (λ _ s' h.
        Ends-then_clean (λ _ s''. Holds g id array added (n + 1 + length types) s'')
          (λ _ s''. s''.mem.live ≡ n) (ColumnsRefused g id array [] (n + 1) names types units)
          (λ _ s''. s''.mem.live ≡ n) (message_format_add_columns names types units s')
          message_format_destroy (add_columns-Holds g id array [] (n + 1) names types units s' h.0)
          (λ _ s'' k.
            destroyed g id array added (length types) n s''
              (length-described types (split names) units) k)
          (λ e s'' k.
            destroyed g id array (take k.count added) k.count n s''
              (length-take_le k.count added
                (omega (arith, k.partial, length-described types (split names) units)))
              k.holds))
      (λ e s' h. h.0)
