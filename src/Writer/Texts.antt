-- ===== src/Writer/Texts.antt =====
-- core/writer.c: the arguments of an FMT record, from what core/model.c makes of a format.
use libsdlog.Prelude.{
  ℕ, ◌+◌, ◌%◌, ◌≤◌, ◌<◌, ◌≡◌, ◌≢◌, refl, ap, none, some, List, [], ◌∷◌, ◌++◌, map, length, All,
  All-append, codes, if◌then◌else◌, arith,
}
use libsdlog.Outcome.{ok}
use libsdlog.Memory.{Mem}
use libsdlog.Memory.Laws.{spend}
use libsdlog.Model.{
  Column, c_string, get_size_of_column_type, message_column_format_get_size,
  message_format_get_size, message_format_get_type,
}
use libsdlog.Model.Invariant.{IsValidColumn, built, at}
use libsdlog.Model.Described.{Described-some, some_mem}
use libsdlog.Model.Lifecycle.{type_array}
use libsdlog.Model.Size.{total_size, get_size-total_size, get_type-init}
use libsdlog.Model.StringLaws.{
  join, each_behind, name_of, get_column_names-join, get_format_string_lem,
}
use libsdlog.Model.Strings.{
  size_mod, message_format_get_column_names, message_format_get_format_string,
}
use libsdlog.Encoder.{int, string, branch_of}
use libsdlog.Encoder.Fields.{field_bytes}
use libsdlog.Encoder.Record.{Encodes, done, field}
use libsdlog.Writer.{fmt_args}
use libsdlog.Writer.Spec.{Entry, IsEntry, IsText, id_of, fmt_columns, fmt_fields, types_of}

c_string_terminated : (s : List ℕ) → IsText s → c_string (s ++ 0 ∷ []) ≡ s
unfolding c_string
c_string_terminated [] v = refl
c_string_terminated (c ∷ cs) v = ground (arith, v.0, c_string_terminated cs v.1)

each_behind-IsText :
    (sep : List ℕ) (ns : List (List ℕ)) → IsText sep → All IsText ns → IsText (each_behind sep ns)
unfolding each_behind
each_behind-IsText sep [] s v = tt
each_behind-IsText sep (n ∷ ns) s v =
    All-append (λ c. c ≢ 0) sep (n ++ each_behind sep ns) s
      (All-append (λ c. c ≢ 0) n (each_behind sep ns) v.0 (each_behind-IsText sep ns s v.1))

join-IsText :
    (sep : List ℕ) (ns : List (List ℕ)) → IsText sep → All IsText ns → IsText (join sep ns)
unfolding join
join-IsText sep [] s v = tt
join-IsText sep (n ∷ ns) s v =
    All-append (λ c. c ≢ 0) n (each_behind sep ns) v.0 (each_behind-IsText sep ns s v.1)

names-IsText :
    (cols : List Column)
    → All (λ (c : Column). IsText (name_of c)) cols
    → All IsText (map name_of cols)
names-IsText [] v = tt
names-IsText (c ∷ cs) v = (v.0, names-IsText cs v.1)

known_type-ne : (t : ℕ) → get_size_of_column_type t ≢ 0 → t ≢ 0
unfolding get_size_of_column_type
known_type-ne t h e = h (ap get_size_of_column_type e)

pub types-IsText : (cols : List Column) → All IsValidColumn cols → IsText (types_of cols)
types-IsText [] v = tt
types-IsText (c ∷ cs) v = (known_type-ne c.type v.0.0, types-IsText cs v.1)

pub fmt-Encodes :
    (to_float : ℕ → ℕ) (id size : ℕ) (type types names : List ℕ)
    → Encodes to_float fmt_columns
        (int id ∷ int (size + 3) ∷ string type ∷ string types ∷ string names ∷ [])
        (fmt_fields id size type types names)
unfolding field_bytes branch_of
fmt-Encodes to_float id size type types names =
    field {bs = id % 256 ∷ []} refl
      (field {bs = (size + 3) % 256 ∷ []} refl (field refl (field refl (field refl done))))

-- An FMT record fits the buffer of the writer.
pub fmt_record_fits : 3 + total_size fmt_columns ≤ 256
unfolding total_size message_column_format_get_size get_size_of_column_type
fmt_record_fits = omega arith

-- The columns of a format that is not empty.
names_of_built :
    (id : ℕ) (type : List ℕ) (alloc : ℕ) (cols : List Column) (m : Mem)
    → All IsValidColumn cols
    → 0 < length cols
    → length cols ≤ 240
    → length (join (codes ",") (map name_of cols)) + 1 < size_mod
    → let text = join (codes ",") (map name_of cols) in
      message_format_get_column_names (built id type alloc cols) (codes ",") m ≡ (
        if m.grant m.calls (length text + 1)
        then (ok (some (text ++ 0 ∷ [])), spend m (m.live + 1))
        else (ok none, spend m m.live))
names_of_built id type alloc [] m v some_column few small = absurd (omega arith)
names_of_built id type alloc (c ∷ cs) m v some_column few small =
    get_column_names-join id type alloc c cs (codes ",") m v (omega arith) small

module _ (to_float : ℕ → ℕ) (n : Entry) (v : IsEntry to_float n) where
  abbrev pub names_text : List ℕ
  names_text = join (codes ",") (map name_of n.cols)

  abbrev pub types_text : List ℕ
  types_text = types_of n.cols

  pub entry_types :
      (m : Mem)
      → message_format_get_format_string n.ref.format m ≡ (
          if m.grant m.calls (length n.cols + 1)
          then (ok (some (types_text ++ 0 ∷ [])), spend m (m.live + 1))
          else (ok none, spend m m.live))
  entry_types m =
      rw (v.described.form)
        (get_format_string_lem (id_of n) (type_array n.type) v.described.alloc n.cols m)

  pub entry_names :
      (m : Mem)
      → message_format_get_column_names n.ref.format (codes ",") m ≡ (
          if m.grant m.calls (length names_text + 1)
          then (ok (some (names_text ++ 0 ∷ [])), spend m (m.live + 1))
          else (ok none, spend m m.live))
  entry_names m = rw (v.described.form) (
      names_of_built (id_of n) (type_array n.type) v.described.alloc n.cols m v.described.valid
        v.some_column (omega (arith, v.described.fits, v.described.grown)) v.names_fit)

  pub entry_size : message_format_get_size n.ref.format ≡ some (total_size n.cols)
  entry_size =
      get_size-total_size _ (id_of n) (type_array n.type) n.cols _
        (at n.ref.format (some_mem n.cols)) (Described-some v.described)

  pub entry_names-IsText : IsText names_text
  entry_names-IsText =
      join-IsText (codes ",") (map name_of n.cols) (λ e. absurd (omega (arith, e)), tt)
        (names-IsText n.cols v.name_texts)

  type_of_entry : c_string n.ref.format.type ≡ n.type
  unfolding message_format_get_type
  type_of_entry =
      get_type-init _ (id_of n) n.type n.cols _ (at n.ref.format (some_mem n.cols))
        (Described-some v.described) v.short v.type_text

  -- The arguments that `write_format` passes, and their fields.
  pub entry-Encodes :
      Encodes to_float fmt_columns
        (fmt_args n.ref.format (total_size n.cols) (types_text ++ 0 ∷ []) (names_text ++ 0 ∷ []))
        (fmt_fields (id_of n) (total_size n.cols) n.type types_text names_text)
  entry-Encodes =
      rw
        (
          type_of_entry,
          c_string_terminated types_text (types-IsText n.cols v.described.valid),
          c_string_terminated names_text entry_names-IsText,
        )
        (fmt-Encodes to_float (id_of n) (total_size n.cols) n.type types_text names_text)
