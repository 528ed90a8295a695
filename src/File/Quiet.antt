-- ===== src/File/Quiet.antt =====
-- The output stream of io/file.c owns no block of the heap between two calls but its context, which
-- no call of a writer touches.
use libsdlog.Prelude.{
  false, some, ℕ, ◌≡◌, refl, ap, sym, ◌∙◌, List, ◌∷◌, Bool-cases, inl, inr, arith,
}
use libsdlog.Outcome.{Ends}
use libsdlog.Stream.{Env, OState, ostream_begin_session, ostream_end_session, ostream_flush}
use libsdlog.Stream.Quiet.{QuietSink, Kept, Answers, Closes}
use libsdlog.Stream.Sink.{at_env, slow}
use libsdlog.Stream.SlowSink.{SlowSink}
use libsdlog.File.{Stdio, FileContext, opened_file, file_write, file_flush, ostream_file_methods}
use libsdlog.File.Sink.{Writes, IsOpen, written_opt, file_sink}

-- `fflush` takes no data: what `fwrite` has taken so far is the same after it.
abbrev pub Flushes : {F : Type 0} → Stdio F → (F → List ℕ) → Type 0
Flushes {F} stdio written = (f : F) → written (stdio.fflush f).1 ≡ written f

-- What the C library says of `fflush`: where it succeeds, on a file that no error was recorded for, the
-- data that `fwrite` has taken is handed on. The record is that of `ferror`, which is kept since the
-- code never calls `clearerr`. `saved` is what stands in the file itself, without what is in the
-- buffer of the FILE.
abbrev pub Saves : {F : Type 0} → Stdio F → (written saved : F → List ℕ) → Type 0
Saves {F} stdio written saved =
    (f : F)
    → (stdio.fflush f).0 ≡ false
    → stdio.ferror (stdio.fflush f).1 ≡ false
    → saved (stdio.fflush f).1 ≡ written (stdio.fflush f).1

module _ {F : Type 0} (stdio : Stdio F) (written : F → List ℕ) (writes : Writes stdio written)
    (flushes : Flushes stdio written) where
  abbrev OpenSink : Env (FileContext F) → Type 0
  OpenSink e = IsOpen stdio written writes e

  abbrev pub slow_file : SlowSink (ostream_file_methods stdio)
  slow_file = slow (ostream_file_methods stdio) (file_sink stdio written writes)

  pub keeps-heap :
      (bytes : List ℕ) (e : Env (FileContext F))
      → OpenSink e
      → ((file_write stdio bytes e).1.mem.live ≡ e.mem.live)
        × ((file_write stdio bytes e).1.mem.grant ≡ e.mem.grant)
  unfolding file_write
  keeps-heap bytes e (f, is_f) = rw is_f (refl, refl)

  same-Kept :
      (e : Env (FileContext F))
      → OpenSink e
      → Kept slow_file e (at_env (ostream_file_methods stdio) e)
  same-Kept e v = record { env = e; form = refl; inv = v; seen = refl; live = refl; grant = refl }

  pub begin_session-Kept :
      (e : Env (FileContext F))
      → OpenSink e
      → Ends
          (λ _ s. Kept slow_file e s)
          (Answers slow_file e)
          (ostream_begin_session (at_env (ostream_file_methods stdio) e))
  unfolding ostream_begin_session
  begin_session-Kept e v = same-Kept e v

  pub end_session-Kept :
      (e : Env (FileContext F))
      → OpenSink e
      → Ends
          (λ _ s. Kept slow_file e s)
          (Answers slow_file e)
          (ostream_end_session (at_env (ostream_file_methods stdio) e))
  unfolding ostream_end_session
  end_session-Kept e v = same-Kept e v

  flushed-Kept :
      (f : F) (e : Env (FileContext F))
      → e.context.fp ≡ some f
      → Kept slow_file e (
          at_env
            (ostream_file_methods stdio)
            (record e { context = opened_file (stdio.fflush f).1 }))
  flushed-Kept f e is_f = record {
    env = record e { context = opened_file (stdio.fflush f).1 };
    form = refl;
    inv = ((stdio.fflush f).1, refl);
    seen = flushes f ∙ ap (λ o. written_opt stdio written writes o) (sym is_f);
    live = refl;
    grant = refl;
  }

  -- `sdlog_ostream_flush` on a file: EWRITE is the only error.
  pub flush-Kept :
      (e : Env (FileContext F))
      → OpenSink e
      → Ends
          (λ _ s. Kept slow_file e s)
          (Answers slow_file e)
          (ostream_flush (at_env (ostream_file_methods stdio) e))
  unfolding ostream_flush file_flush
  flush-Kept e (f, is_f) = elim (Bool-cases (stdio.fflush f).0) [
    | inl failed ↦
        rw (is_f, failed)
          ((refl, inr (f, failed)), flushed-Kept f (record e { context = opened_file f }) refl)
    | inr fine ↦ rw (is_f, fine) (flushed-Kept f (record e { context = opened_file f }) refl)
  ]

  abbrev pub quiet_file : QuietSink (ostream_file_methods stdio)
  quiet_file = record {
    sink = slow_file;
    blocks = 0;
    patience = 0;
    most_waits = λ e v. omega arith;
    owns = λ e v. omega arith;
    moved = λ e m v g l. v;
    same_view = λ e m. refl;
    keeps = λ b bytes e v. keeps-heap (b ∷ bytes) e v;
    begins = begin_session-Kept;
    flushes = flush-Kept;
    ends = end_session-Kept;
  }

  -- The last call of stdio was an `fflush` that succeeded.
  abbrev pub JustFlushed : OState (FileContext F) → Type 0
  JustFlushed s =
      (f : F) × ((stdio.fflush f).0 ≡ false)
      × (s.stream.context ≡ some (opened_file (stdio.fflush f).1))

  pub flush-JustFlushed :
      (e : Env (FileContext F))
      → OpenSink e
      → Ends
          (λ _ s. JustFlushed s)
          (λ _ _. Unit {0})
          (ostream_flush (at_env (ostream_file_methods stdio) e))
  unfolding ostream_flush file_flush
  flush-JustFlushed e (f, is_f) = elim (Bool-cases (stdio.fflush f).0) [
    | inl failed ↦ rw (is_f, failed) tt
    | inr fine ↦ rw (is_f, fine) (f, fine, refl)
  ]

  pub end_session-JustFlushed :
      (e : Env (FileContext F))
      → OpenSink e
      → JustFlushed (at_env (ostream_file_methods stdio) e)
      → Ends
          (λ _ s. JustFlushed s)
          (λ _ _. Unit {0})
          (ostream_end_session (at_env (ostream_file_methods stdio) e))
  unfolding ostream_end_session
  end_session-JustFlushed e v h = h

  -- A flush of the stream flushes the file, and the end of a session does nothing to it.
  abbrev pub closes_file : Closes quiet_file
  closes_file = record {
    Flushed = JustFlushed;
    Ended = JustFlushed;
    flushed = flush-JustFlushed;
    ended = end_session-JustFlushed;
    moved = λ e e' same (f, fine, at_f). (f, fine, ap some same ∙ at_f);
  }
