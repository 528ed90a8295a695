-- ===== src/Writer/Samples.antt =====
-- Calls of the writer for the runs.
use libsdlog.Prelude.{
  ℕ, ◌≡◌, ◌≢◌, refl, zero, suc, Bool, true, false, List, [], ◌∷◌, All, codes, arith,
}
use libsdlog.Model.{get_size_of_column_type, message_column_format_get_size}
use libsdlog.Model.Described.{Holds-Described}
use libsdlog.Model.Size.{total_size}
use libsdlog.Model.StringLaws.{join}
use libsdlog.Model.Tests as Formats
use libsdlog.Encoder.Tests.{to_float, args, fields, args-Encodes}
use libsdlog.Writer.Spec.{Entry, IsEntry, IsText}

pub sized : (k : ℕ) → suc k ≢ 0
sized k e = absurd (omega (arith, e))

no_zero : List ℕ → Bool
no_zero [] = true
no_zero (zero ∷ s) = false
no_zero (suc c ∷ s) = no_zero s

no_zero-IsText : (s : List ℕ) → no_zero s ≡ true → IsText s
unfolding no_zero
no_zero-IsText [] h = tt
no_zero-IsText (zero ∷ s) h = absurd (cc h)
no_zero-IsText (suc c ∷ s) h = (sized c, no_zero-IsText s h)

-- The format of the tests of the model, at the address 77.
abbrev pub entry : Entry
entry = record {
  ref = record { address = 77; format = Formats.two.format };
  args = args;
  type = codes "GPS";
  cols = Formats.two_columns;
  fields = fields;
}

pub entry-IsEntry : IsEntry to_float entry
unfolding no_zero join total_size message_column_format_get_size get_size_of_column_type
entry-IsEntry = record {
  described = Holds-Described Formats.two-Holds;
  short = omega arith;
  type_text = no_zero-IsText (codes "GPS") refl;
  some_column = omega arith;
  name_texts = (no_zero-IsText (codes "t") refl, (no_zero-IsText (codes "alt") refl, tt));
  names_fit = omega arith;
  record_fits = omega arith;
  encodes = args-Encodes;
}

-- Two calls with one format.
abbrev pub entries : List Entry
entries = entry ∷ entry ∷ []

pub entries-IsEntry : All (IsEntry to_float) entries
entries-IsEntry = (entry-IsEntry, (entry-IsEntry, tt))
