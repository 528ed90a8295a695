-- ===== src/Model/StringLaws.antt =====
-- The strings that core/model.c builds of the columns of a format, against plain definitions.
use libsdlog.Prelude.{
  ℕ, suc, ◌+◌, ◌-◌, ◌*◌, ◌%◌, ◌≤◌, ◌<◌, ◌≡◌, refl, ap, sym, true, false, none, some, List, [], ◌∷◌,
  ◌++◌, append-nil, append_assoc, map, length, length-map, length-append, All, if◌then◌else◌, arith,
  take_all, le→leb,
}
use libsdlog.Outcome.{ok, fault}
use libsdlog.Memory.{Mem, Block, append_to}
use libsdlog.Memory.Laws.{spend}
use libsdlog.Model.{Column, column_array, message_format_get_column_count}
use libsdlog.Model.Invariant.{built, IsValidColumn}
use libsdlog.Model.Strings.{
  size_mod, sum_lengths, name_bytes_needed, write_name, write_names,
  message_format_get_column_names, write_types, message_format_get_format_string,
}

abbrev pub name_of : Column → List ℕ
name_of c = elim c.name [ none ↦ [] | some n ↦ n ]

-- Each of the texts behind a separator.
unfoldable pub each_behind : List ℕ → List (List ℕ) → List ℕ
each_behind sep [] = []
each_behind sep (n ∷ ns) = sep ++ (n ++ each_behind sep ns)

-- The texts with a separator between them.
unfoldable pub join : List ℕ → List (List ℕ) → List ℕ
unfolding each_behind
join sep [] = []
join sep (n ∷ ns) = n ++ each_behind sep ns

unfoldable pub total_length : List (List ℕ) → ℕ
total_length [] = 0
total_length (n ∷ ns) = length n + total_length ns

length-each_behind :
    (sep : List ℕ) (ns : List (List ℕ))
    → length (each_behind sep ns) ≡ total_length ns + length sep * length ns
unfolding each_behind total_length
length-each_behind sep [] = omega arith
length-each_behind sep (n ∷ ns) = omega (
  arith,
  length-append sep (n ++ each_behind sep ns),
  length-append n (each_behind sep ns),
  length-each_behind sep ns,
)

-- `append_to` with room for what is written.
pub append_to_lem :
    {A : Type 0} (b : Block A) (xs : List A)
    → length b.items + length xs ≤ b.size
    → append_to b xs ≡ some (record b { items = b.items ++ xs })
unfolding append_to
append_to_lem b xs h = rw (le→leb (length b.items + length xs) b.size h)

sum_lengths_lem :
    (bytes : ℕ) (cs : List Column)
    → All IsValidColumn cs
    → bytes + total_length (map name_of cs) < size_mod
    → sum_lengths bytes cs ≡ some (bytes + total_length (map name_of cs))
unfolding sum_lengths total_length
sum_lengths_lem bytes [] v h = ap some (omega arith)
sum_lengths_lem bytes (c ∷ cs) v h =
    ground (arith, sum_lengths_lem (bytes + length (name_of c)) cs v.1 (omega arith))

write_names_lem :
    (sep : List ℕ) (cs : List Column) (b : Block ℕ)
    → All IsValidColumn cs
    → length b.items + length (each_behind sep (map name_of cs)) ≤ b.size
    → write_names false sep cs b
      ≡ some (record b { items = b.items ++ each_behind sep (map name_of cs) })
unfolding write_names write_name each_behind
write_names_lem sep [] b v h = ap (λ xs. some (record b { items = xs })) (sym (append-nil b.items))
write_names_lem sep (c ∷ cs) b v h =
    let name = name_of c in
    let rest = each_behind sep (map name_of cs) in
    let l₁ = length-append sep (name ++ rest) in
    let l₂ = length-append name rest in
    let l₃ = length-append b.items sep in
    let l₄ = length-append (b.items ++ sep) name in
    let b₁ : Block ℕ = record b { items = b.items ++ sep } in
    let b₂ : Block ℕ = record b { items = b₁.items ++ name } in
    ground (
      arith,
      append_to_lem b sep (omega (arith, l₁)),
      append_to_lem b₁ name (omega (arith, l₁, l₂, l₃)),
      write_names_lem sep cs b₂ v.1 (omega (arith, l₁, l₂, l₃, l₄)),
      append_assoc b₁.items name rest,
      append_assoc b.items sep (name ++ rest),
    )

-- `append_to` of the first name needs no separator.
write_names-join :
    (sep : List ℕ) (cs : List Column) (size : ℕ)
    → All IsValidColumn cs
    → length (join sep (map name_of cs)) ≤ size
    → write_names true sep cs (record { size = size; items = [] })
      ≡ some (record { size = size; items = join sep (map name_of cs) })
unfolding write_names write_name join
write_names-join sep [] size v h = refl
write_names-join sep (c ∷ cs) size v h =
    let name = name_of c in
    let rest = each_behind sep (map name_of cs) in
    let l = length-append name rest in
    ground (
      arith,
      append_to_lem (record { size = size; items = [] }) name (omega (arith, l)),
      write_names_lem sep cs (record { size = size; items = name }) v.1 (omega (arith, l)),
    )

-- The bytes that `sdlog_message_format_get_column_names` asks for are those of the text and its
-- terminator.
name_bytes_needed-length :
    (sep : List ℕ) (n : List ℕ) (ns : List (List ℕ))
    → length ns ≤ 240
    → length (join sep (n ∷ ns)) + 1 < size_mod
    → name_bytes_needed (total_length (n ∷ ns)) (length sep) (length (n ∷ ns))
      ≡ length (join sep (n ∷ ns)) + 1
unfolding name_bytes_needed join total_length
name_bytes_needed-length sep n ns few h =
    let e : (suc (length ns) + size_mod - 1) % size_mod ≡ length ns = omega arith in
    omega (
      arith,
      ap (λ t. length sep * t) e,
      length-append n (each_behind sep ns),
      length-each_behind sep ns,
    )

bytes-le-join :
    (sep : List ℕ) (n : List ℕ) (ns : List (List ℕ))
    → total_length (n ∷ ns) ≤ length (join sep (n ∷ ns))
unfolding join total_length
bytes-le-join sep n ns =
    omega (arith, length-append n (each_behind sep ns), length-each_behind sep ns)

pub column_array-built :
    (id : ℕ) (type : List ℕ) (alloc : ℕ) (cols : List Column)
    → column_array (built id type alloc cols) ≡ some cols
unfolding column_array
column_array-built id type alloc cols =
    rw (le→leb (length cols) (length cols) (omega arith), take_all (length cols) cols (omega arith))

module _ (id : ℕ) (type : List ℕ) (alloc : ℕ) (c : Column) (cs : List Column) (sep : List ℕ)
    (m : Mem) where
  -- The names of the columns of a valid format that has any are joined by the separator. Memory is
  -- asked for exactly the text and its terminator, so nothing is written out of bounds, and one block
  -- is left to the caller; if the allocator refuses, the result is NULL.
  pub get_column_names-join :
      All IsValidColumn (c ∷ cs)
      → length cs < 240
      → length (join sep (map name_of (c ∷ cs))) + 1 < size_mod
      → let text = join sep (map name_of (c ∷ cs)) in
        message_format_get_column_names (built id type alloc (c ∷ cs)) sep m ≡ (
          if m.grant m.calls (length text + 1)
          then (ok (some (text ++ 0 ∷ [])), spend m (m.live + 1))
          else (ok none, spend m m.live))
  unfolding message_format_get_column_names message_format_get_column_count
  get_column_names-join v few small =
      let names = map name_of cs in
      let text = join sep (map name_of (c ∷ cs)) in
      let bytes = total_length (map name_of (c ∷ cs)) in
      let count = length-map name_of cs in
      ground (
        arith,
        column_array-built id type alloc (c ∷ cs),
        sum_lengths_lem 0 (c ∷ cs) v (omega (arith, bytes-le-join sep (name_of c) names)),
        name_bytes_needed-length sep (name_of c) names (omega (arith, count)) small,
        count,
        write_names-join sep (c ∷ cs) (length text + 1) v (omega arith),
        append_to_lem (record { size = length text + 1; items = text }) (0 ∷ []) (omega arith),
      )

-- A format without columns: the separators are counted as `0 - 1` of them, which makes the size 0 for
-- a separator of one byte. If the allocator gives a block of no bytes, the terminator is written
-- behind its end.
pub get_column_names_of_empty :
    (id : ℕ) (type : List ℕ) (alloc c : ℕ) (m : Mem)
    → message_format_get_column_names (built id type alloc []) (c ∷ []) m
      ≡ (if m.grant m.calls 0 then (fault, spend m (m.live + 1)) else (ok none, spend m m.live))
unfolding message_format_get_column_names message_format_get_column_count
get_column_names_of_empty id type alloc c m = ground arith

write_types_lem :
    (cs : List Column) (b : Block ℕ)
    → length b.items + length cs ≤ b.size
    → write_types cs b ≡ some (record b { items = b.items ++ map (λ (c : Column). c.type) cs })
unfolding write_types
write_types_lem [] b h = ap (λ xs. some (record b { items = xs })) (sym (append-nil b.items))
write_types_lem (c ∷ cs) b h =
    let l = length-append b.items (c.type ∷ []) in
    ground (
      arith,
      append_to_lem b (c.type ∷ []) (omega arith),
      write_types_lem cs (record b { items = b.items ++ c.type ∷ [] }) (omega (arith, l)),
      append_assoc b.items (c.type ∷ []) (map (λ (c : Column). c.type) cs),
    )

-- The format string of a format is the list of the types of its columns, in a block of its size, or
-- NULL if the allocator refuses.
pub get_format_string_lem :
    (id : ℕ) (type : List ℕ) (alloc : ℕ) (cs : List Column) (m : Mem)
    → message_format_get_format_string (built id type alloc cs) m ≡ (
        if m.grant m.calls (length cs + 1)
        then (ok (some (map (λ c. c.type) cs ++ 0 ∷ [])), spend m (m.live + 1))
        else (ok none, spend m m.live))
unfolding message_format_get_format_string message_format_get_column_count
get_format_string_lem id type alloc cs m =
    let types = map (λ (c : Column). c.type) cs in
    ground (
      arith,
      column_array-built id type alloc cs,
      write_types_lem cs (record { size = length cs + 1; items = [] }) (omega arith),
      length-map (λ (c : Column). c.type) cs,
      append_to_lem (record { size = length cs + 1; items = types }) (0 ∷ [])
          (omega (arith, length-map (λ (c : Column). c.type) cs)),
    )
