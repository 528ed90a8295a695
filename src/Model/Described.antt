-- ===== src/Model/Described.antt =====
-- A valid format apart from the heap that it lies in.
use libsdlog.Prelude.{ℕ, ◌≤◌, ◌<◌, ◌≡◌, refl, Bool, List, length, All, true, ◌+◌, arith}
use libsdlog.Memory.{Mem, system}
use libsdlog.Model.{Column, Format}
use libsdlog.Model.Invariant.{IsAlloc, IsValidColumn, built, at}
use libsdlog.Model.AddColumn.{Holds}

-- The format is valid and has the columns `cols`.
pub record Described (id : ℕ) (type : List ℕ) (cols : List Column) (f : Format) : Type 0 where
  pub alloc : ℕ
  pub form : f ≡ built id type alloc cols
  pub fits : length cols ≤ alloc
  pub grown : IsAlloc alloc
  pub valid : All IsValidColumn cols

-- A heap in which such a format could lie.
abbrev pub some_mem : List Column → Mem
some_mem cols = record { build = system; grant = λ _ _. true; calls = 0; live = length cols + 1 }

module _ {id : ℕ} {type : List ℕ} {cols : List Column} where
  pub Holds-Described :
      {grant : ℕ → ℕ → Bool} {live : ℕ} {f : Format} {m : Mem}
      → Holds grant id type cols live (at f m)
      → Described id type cols f
  Holds-Described h = record {
    alloc = h.alloc;
    form = h.form;
    fits = h.fits;
    grown = h.grown;
    valid = h.valid;
  }

  pub Described-Holds :
      {f : Format} (m : Mem)
      → Described id type cols f
      → length cols < m.live
      → Holds m.grant id type cols m.live (at f m)
  Described-Holds m d owned = record {
    alloc = d.alloc;
    form = d.form;
    fits = d.fits;
    grown = d.grown;
    valid = d.valid;
    blocks = refl;
    owned = owned;
    oracle = refl;
  }

  pub Described-some :
      {f : Format}
      → Described id type cols f
      → Holds (some_mem cols).grant id type cols (length cols + 1) (at f (some_mem cols))
  Described-some d = Described-Holds (some_mem cols) d (omega arith)
