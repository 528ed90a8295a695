-- ===== src/Null.antt =====
-- io/null.c: an input stream without bytes, and an output stream that drops all bytes. Their context
-- is NULL and no method reads it.
use libsdlog.Prelude.{ℕ, ◌≡◌, refl, Option, none, some, List, [], ◌∷◌, length, arith, suc, drop_all}
use libsdlog.Outcome.{ok, fail, Status, success, eof, Cmd, pure}
use libsdlog.Stream.{
  Env, IStreamSpec, OStreamSpec, IState, OState, istream_init, ostream_init, opened,
  ostream_write_all, istream_read_exactly,
}
use libsdlog.Memory.{Mem}

-- The context of the null streams.
abbrev pub NoContext : Type 0
NoContext = Unit {0}

-- `*read` is not set.
unfoldable pub null_read : ℕ → Cmd (Env NoContext) (Status × Option (List ℕ))
null_read length = pure (eof, none)

unfoldable pub null_write : List ℕ → Cmd (Env NoContext) (Status × Option ℕ)
null_write bytes = pure (success, some (length bytes))

abbrev pub istream_null_methods : IStreamSpec NoContext
istream_null_methods = record { init = none; destroy = none; read = some null_read }

abbrev pub ostream_null_methods : OStreamSpec NoContext
ostream_null_methods = record {
  init = none;
  destroy = none;
  begin = none;
  write = some null_write;
  flush = none;
  end = none;
}

unfoldable pub istream_init_null : Cmd (IState NoContext) (Unit {0})
unfolding istream_init
istream_init_null = istream_init istream_null_methods tt

unfoldable pub ostream_init_null : Cmd (OState NoContext) (Unit {0})
unfolding ostream_init
ostream_init_null = ostream_init ostream_null_methods tt

-- The null streams: whatever is written is accepted and nothing changes; no byte can be read.
pub null_streams :
    (fuel n : ℕ) (bytes : List ℕ) (m : Mem)
    → (ostream_write_all (suc fuel) bytes (opened ostream_null_methods tt m)
        ≡ (ok tt, opened ostream_null_methods tt m))
      × (istream_read_exactly (suc fuel) (suc n) (opened istream_null_methods tt m)
          ≡ (fail eof, opened istream_null_methods tt m))
unfolding ostream_write_all istream_read_exactly null_read null_write
null_streams fuel n [] m = (refl, refl)
null_streams fuel n (b ∷ bytes) m =
    (ground (arith, drop_all (length (b ∷ bytes)) (b ∷ bytes) (omega arith)), refl)
