-- ===== src/Model/Names.antt =====
-- The comma-separated names of `sdlog_message_format_add_columns`: what its two pointers into the
-- copy of the string stand for.
use libsdlog.Prelude.{
  ℕ, ◌≡◌, refl, Bool, true, false, List, [], ◌∷◌, ◌||◌, ◌==◌, if◌then◌else◌, arith, ap, length, suc,
}
use libsdlog.Model.{Column}
use libsdlog.Model.Extend.{first_name, name_end, advance, is_empty, unit_or_dash}
use libsdlog.Model.AddColumn.{column}

abbrev pub first_or_empty : List (List ℕ) → List ℕ
first_or_empty [] = []
first_or_empty (n ∷ _) = n

abbrev pub rest_of : List (List ℕ) → List (List ℕ)
rest_of [] = []
rest_of (_ ∷ ns) = ns

-- The parts of a text between its commas.
unfoldable pub split : List ℕ → List (List ℕ)
split [] = [] ∷ []
split (c ∷ cs) =
    let parts = split cs in
    if c == b',' then [] ∷ parts else (c ∷ first_or_empty parts) ∷ rest_of parts

-- The columns that the three texts describe: a type for each, names and units as far as they go,
-- then empty names and the unit '-'.
unfoldable pub described : (types : List ℕ) (names : List (List ℕ)) (units : List ℕ) → List Column
described [] names units = []
described (t ∷ ts) names units =
    column (first_or_empty names) t (unit_or_dash units)
    ∷ described ts (rest_of names) (advance units)

pub length-described :
    (types : List ℕ) (names : List (List ℕ)) (units : List ℕ)
    → length (described types names units) ≡ length types
unfolding described
length-described [] names units = refl
length-described (t ∷ ts) names units = ap suc (length-described ts (rest_of names) (advance units))

-- What the flag and the pointer of the loop stand for.
abbrev pub names_left : Bool → List ℕ → List (List ℕ)
names_left true names = []
names_left false names = split names

-- At the end of the names the pointer shows the terminator.
abbrev pub WellPlaced : Bool → List ℕ → Type 0
WellPlaced true names = names ≡ []
WellPlaced false names = Unit

split_step :
    (names : List ℕ)
    → split names
      ≡ first_name names
        ∷ (if is_empty (name_end names) then [] else split (advance (name_end names)))
unfolding split first_name name_end
split_step [] = refl
split_step (c ∷ cs) = ground (arith, split_step cs)

past_end :
    (end : List ℕ)
    → let names' = if is_empty end then end else advance end in
      (names_left (is_empty end) names' ≡ (if is_empty end then [] else split (advance end)))
      × WellPlaced (is_empty end) names'
past_end [] = (refl, refl)
past_end (c ∷ cs) = (refl, tt)

-- One round of the loop takes the first name that is left.
pub names_step :
    (reached : Bool) (names : List ℕ)
    → WellPlaced reached names
    → let end = name_end names in
      let reached' = reached || is_empty end in
      let names' = if reached' then end else advance end in
      (first_name names ≡ first_or_empty (names_left reached names))
      × (names_left reached' names' ≡ rest_of (names_left reached names))
      × WellPlaced reached' names'
unfolding first_name name_end
names_step true names w = rw w (refl, refl, refl)
names_step false names w =
    let (left, placed) = past_end (name_end names) in rw (split_step names) (refl, left, placed)
