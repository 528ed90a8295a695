-- ===== src/File.antt =====
-- io/file.c: streams over a FILE of the C library. `F` is the type of open files; the functions of
-- stdio are a parameter.
pub mod Quiet
pub mod Reading
pub mod Sink
pub mod Source
pub mod Tests
use libsdlog.Prelude.{
  ℕ, Bool, ltb, ◌==◌, ◌&&◌, Option, none, some, List, [], ◌∷◌, length, if◌then◌else◌,
}
use libsdlog.Outcome.{
  ok, Status, success, eread, ewrite, eof, Cmd, pure, deref, ◌>>=◌, ◌>>◌, check_oom,
}
use libsdlog.Memory.{Mem, sdlog_malloc, sdlog_free}
use libsdlog.Stream.{Env, IStreamSpec, OStreamSpec, IState, OState, istream_init, ostream_init}
use libsdlog.Buffer.{in_heap, get_context, set_context, in_stream_heap}

-- The functions of stdio that the code calls: `fread` gives the bytes that it read, `fwrite` their
-- number, `fflush` whether it failed.
pub record Stdio (F : Type 0) : Type 0 where
  pub fread : F → ℕ → List ℕ × F
  pub fwrite : F → List ℕ → ℕ × F
  pub ferror : F → Bool
  pub feof : F → Bool
  pub fflush : F → Bool × F

-- `context_t`; `none` is NULL.
pub record FileContext (F : Type 0) : Type 0 where
  pub fp : Option F

-- `sizeof(context_t)`
abbrev pub file_context_size : ℕ
file_context_size = 8

module _ {F : Type 0} where
  abbrev pub opened_file : F → FileContext F
  opened_file f = record { fp = some f }

  -- `file_destroy_i` and `file_destroy_o`; the file stays open.
  unfoldable pub file_destroy : Cmd (Env (FileContext F)) (Unit {0})
  unfolding sdlog_free
  file_destroy = do set_context (record { fp = none }); in_heap (sdlog_free (some tt))

module _ {F : Type 0} (stdio : Stdio F) where
  -- What `file_read` returns after `fread`.
  unfoldable pub read_status : F → (wanted : ℕ) → List ℕ → Status
  read_status f wanted bytes =
      if ltb (length bytes) wanted
      then (if stdio.ferror f
          then eread
          else if (length bytes == 0) && stdio.feof f
          then eof
          else success)
      else success

  unfoldable pub file_read : ℕ → Cmd (Env (FileContext F)) (Status × Option (List ℕ))
  unfolding read_status
  file_read size = do
    ctx ← get_context
    f ← deref ctx.fp
    let (bytes, f') = stdio.fread f size
    set_context (opened_file f')
    pure (read_status f' size bytes, some bytes)

  unfoldable pub file_flush : Cmd (Env (FileContext F)) Status
  file_flush = do
    ctx ← get_context
    f ← deref ctx.fp
    let (failed, f') = stdio.fflush f
    set_context (opened_file f')
    pure (if failed then ewrite else success)

  unfoldable pub file_write : List ℕ → Cmd (Env (FileContext F)) (Status × Option ℕ)
  file_write bytes = do
    ctx ← get_context
    f ← deref ctx.fp
    let (n, f') = stdio.fwrite f bytes
    set_context (opened_file f')
    pure ((if n == length bytes then success else ewrite), some n)

  abbrev pub istream_file_methods : IStreamSpec (FileContext F)
  istream_file_methods = record { init = none; destroy = some file_destroy; read = some file_read }

  abbrev pub ostream_file_methods : OStreamSpec (FileContext F)
  ostream_file_methods = record {
    init = none;
    destroy = some file_destroy;
    begin = none;
    write = some file_write;
    flush = some file_flush;
    end = none;
  }

  unfoldable pub istream_init_file : F → Cmd (IState (FileContext F)) (Unit {0})
  unfolding sdlog_malloc istream_init
  istream_init_file f = do
    granted ← in_stream_heap (sdlog_malloc file_context_size)
    check_oom granted
    istream_init istream_file_methods (opened_file f)

  unfoldable pub ostream_init_file : F → Cmd (OState (FileContext F)) (Unit {0})
  unfolding sdlog_malloc ostream_init
  ostream_init_file f = do
    granted ← in_stream_heap (sdlog_malloc file_context_size)
    check_oom granted
    ostream_init ostream_file_methods (opened_file f)
