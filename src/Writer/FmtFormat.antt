-- ===== src/Writer/FmtFormat.antt =====
-- core/writer.c: the format that `sdlog_writer_init` makes for FMT records.
use libsdlog.Prelude.{
  ℕ, zero, suc, length-take, ◌+◌, ◌≡◌, inl, inr, refl, ap, Bool, true, false, Bool-cases, ◌<◌, some,
  List, [], length, codes, arith, get_elem?,
}
use libsdlog.Outcome.{Status, enomem, Ends, Cmd, ◌>>◌}
use libsdlog.Outcome.Ends.{Ends-mono}
use libsdlog.Memory.{Mem}
use libsdlog.Model.{FormatState, zero_format, id_fmt, message_format_init, get_size_of_column_type}
use libsdlog.Model.Extend.{message_format_add_columns}
use libsdlog.Model.Invariant.{at}
use libsdlog.Model.AddColumn.{Refused, Holds, bad_type, full, no_memory}
use libsdlog.Model.AddColumns.{
  all_columns, add_columns-Holds, ColumnsRefused, ColumnsError, too_many, no_copy, at_column,
}
use libsdlog.Model.Names.{described, split}
use libsdlog.Model.Lifecycle.{type_array, init-Holds}
use libsdlog.Writer.Spec.{fmt_columns}

-- `sdlog_message_format_init` and `sdlog_message_format_add_columns` for the FMT format.
abbrev pub make_fmt : Cmd FormatState (Unit {0})
make_fmt =
    message_format_init id_fmt (codes "FMT")
    >> message_format_add_columns (codes "Type,Length,Name,Format,Columns") (codes "BBnNZ")
        (codes "-----")

fmt_added :
    all_columns (codes "Type,Length,Name,Format,Columns") (codes "BBnNZ") (codes "-----")
    ≡ fmt_columns
unfolding described split
fmt_added = refl

-- The blocks that are left of a format that is not made: none if the array of its columns was
-- refused, otherwise that array and the names of the columns before the one that was refused.
pub data FmtLeft (m : Mem) (left : ℕ) : Type 0 where
  no_array : m.grant m.calls 64 ≡ false → left ≡ 0 → FmtLeft m left
  array : (count : ℕ) → m.grant m.calls 64 ≡ true → count < 5 → left ≡ 1 + count → FmtLeft m left

-- The FMT format is refused for no other reason than memory.
abbrev pub FmtRefused : Mem → Status → FormatState → Type 0
FmtRefused m e s =
    (e ≡ enomem)
    × Refused m.grant
    × (s.mem.grant ≡ m.grant)
    × ((left : ℕ) × FmtLeft m left × (s.mem.live ≡ m.live + left))

sixth : (n : ℕ) → n + 6 ≡ n + 1 + 5
sixth n = omega arith

fmt_types_known :
    (k t : ℕ) → get_elem? (codes "BBnNZ") k ≡ some t → get_size_of_column_type t ≡ 0 → ⊥
unfolding get_size_of_column_type
fmt_types_known zero t h z = ground arith
fmt_types_known (suc zero) t h z = ground arith
fmt_types_known (suc (suc zero)) t h z = ground arith
fmt_types_known (suc (suc (suc zero))) t h z = ground arith
fmt_types_known (suc (suc (suc (suc zero)))) t h z = ground arith
fmt_types_known (suc (suc (suc (suc (suc k))))) t h z = cc

abbrev names : List ℕ
names = codes "Type,Length,Name,Format,Columns"

abbrev types : List ℕ
types = codes "BBnNZ"

abbrev units : List ℕ
units = codes "-----"

short_of_five : (k t : ℕ) → get_elem? types k ≡ some t → k < 5
short_of_five zero t h = omega arith
short_of_five (suc zero) t h = omega arith
short_of_five (suc (suc zero)) t h = omega arith
short_of_five (suc (suc (suc zero))) t h = omega arith
short_of_five (suc (suc (suc (suc zero)))) t h = omega arith
short_of_five (suc (suc (suc (suc (suc k))))) t h = cc

only_memory :
    (grant : ℕ → ℕ → Bool) (count : ℕ) (e : Status)
    → ColumnsError grant [] types (all_columns names types units) count e
    → (e ≡ enomem) × Refused grant × (count < 5)
only_memory grant count e (too_many z is_limit many) = absurd (omega arith)
only_memory grant count e (no_copy z is_memory r) = (is_memory, r, omega arith)
only_memory grant count _ (at_column t is_t (bad_type z)) = absurd (fmt_types_known count t is_t z)
only_memory grant count _ (at_column t is_t (full ne is_full)) =
    absurd (omega (arith, length-take count (all_columns names types units), ap length fmt_added))
only_memory grant count _ (at_column t is_t (no_memory ne r)) =
    (refl, r, short_of_five count t is_t)

pub make_fmt-Holds :
    (m : Mem)
    → Ends
        (λ _ s. Holds m.grant 128 (type_array (codes "FMT")) fmt_columns (m.live + 6) s)
        (FmtRefused m)
        (make_fmt (at zero_format m))
unfolding message_format_init
make_fmt-Holds m =
    let array_type = type_array (codes "FMT") in
    let g = m.grant in
    elim (Bool-cases (m.grant m.calls 64)) [
      | inr refused ↦
          rw refused (refl, (m.calls, 64, refused), refl, (0, no_array refused refl, omega arith))
      | inl granted ↦
          let made = rw granted at (init-Holds 128 (codes "FMT") (at zero_format m)) in
          rw granted (
            Ends-mono
              (λ _ s'. Holds g 128 array_type (all_columns names types units) (m.live + 1 + 5) s')
              (λ _ s'. Holds g 128 array_type fmt_columns (m.live + 6) s')
              (ColumnsRefused g 128 array_type [] (m.live + 1) names types units) (FmtRefused m) _
              (add_columns-Holds g 128 array_type [] (m.live + 1) names types units _ made.0)
              (λ _ s' h'. rw (← fmt_added, sixth m.live) h')
              (λ e s' k.
                let why = only_memory g k.count e k.reason in
                (
                  why.0,
                  why.1,
                  k.holds.oracle,
                  (1 + k.count, array k.count granted why.2 refl, omega (arith, k.holds.blocks)),
                )))
    ]
