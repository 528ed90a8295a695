-- ===== src/Stream/Sink.antt =====
-- What an output stream promises, and `sdlog_ostream_write_all` over any stream that keeps it.
use libsdlog.Prelude.{ℕ, ◌≤◌, ◌<◌, ◌≡◌, ◌≢◌, Option, some, List, ◌∷◌, ◌++◌, length, take, arith}
use libsdlog.Outcome.{Outcome, ok, Status, success, Cmd, Ends}
use libsdlog.Stream.{Env, OStreamSpec, OState, ostream_write_all}
use libsdlog.Stream.SlowSink.{SlowWrote, SlowSink, write_all_slow-Took}
use libsdlog.Stream.SlowSink as Slow
pub use libsdlog.Stream.SlowSink.{at_env, check-ne_success}

-- What may happen in a call of `write` with data that is not empty: some of the data, not nothing, is
-- accepted, or the call fails, perhaps after it took some of it. `view` is all that the stream has
-- accepted so far, `Inv` its invariant, `Fails` the codes that it may return.
pub data Wrote {C : Type 0} (Inv : Env C → Type 0) (view : Env C → List ℕ) (Fails : Status → Type 0)
    (bytes : List ℕ) (e : Env C) (r : Outcome (Status × Option ℕ) × Env C) : Type 0 where
  accepted :
      (n : ℕ) (e' : Env C)
      → r ≡ (ok (success, some n), e')
      → 0 < n
      → n ≤ length bytes
      → Inv e'
      → view e' ≡ view e ++ take n bytes
      → Wrote Inv view Fails bytes e r
  refused :
      (status : Status) (count : Option ℕ) (k : ℕ) (e' : Env C)
      → r ≡ (ok (status, count), e')
      → Fails status
      → Inv e'
      → view e' ≡ view e ++ take k bytes
      → Wrote Inv view Fails bytes e r

-- The contract of an output stream.
pub record Sink {C : Type 0} (spec : OStreamSpec C) : Type 1 where
  pub Inv : Env C → Type 0
  pub view : Env C → List ℕ
  pub Fails : Status → Type 0
  pub fails_ne : (status : Status) → Fails status → status ≢ success
  pub write : List ℕ → Cmd (Env C) (Status × Option ℕ)
  pub has_write : spec.write ≡ some write
  pub wrote :
      (b : ℕ) (bytes : List ℕ) (e : Env C)
      → Inv e
      → Wrote Inv view Fails (b ∷ bytes) e (write (b ∷ bytes) e)

module _ {C : Type 0} (spec : OStreamSpec C) (sink : Sink spec) where
  -- A stream that never waits.
  pub never_waits :
      (bytes : List ℕ) (e : Env C) (r : Outcome (Status × Option ℕ) × Env C)
      → Wrote sink.Inv sink.view sink.Fails bytes e r
      → SlowWrote sink.Inv sink.view sink.Fails (λ _. 0) bytes e r
  never_waits bytes e r (accepted n e' eq pos le i v) =
      SlowWrote.accepted n e' eq le (omega arith) i v
  never_waits bytes e r (refused status count k e' eq f i v) =
      SlowWrote.refused status count k e' eq f i v

  abbrev pub slow : SlowSink spec
  slow = record {
    Inv = sink.Inv;
    view = sink.view;
    Fails = sink.Fails;
    fails_ne = sink.fails_ne;
    waits = λ _. 0;
    write = sink.write;
    has_write = sink.has_write;
    wrote = λ b bytes e i.
        never_waits (b ∷ bytes) e (sink.write (b ∷ bytes) e) (sink.wrote b bytes e i);
  }

  -- The stream after some of the data was taken.
  abbrev pub Took : Env C → List ℕ → OState C → Type 0
  Took = Slow.Took spec slow

  abbrev pub TookSome : Env C → List ℕ → Status → OState C → Type 0
  TookSome = Slow.TookSome spec slow

  -- `sdlog_ostream_write_all` over such a stream ends within as many rounds as there are bytes. Either
  -- it succeeds and the stream has taken all of the data, in order and nothing else, or it returns the
  -- code of a failed write and the stream has taken some first part of the data.
  pub write_all-Took :
      (fuel : ℕ) (bytes : List ℕ) (e : Env C)
      → length bytes ≤ fuel
      → sink.Inv e
      → Ends
          (λ _ s. Took e bytes s)
          (TookSome e bytes)
          (ostream_write_all fuel bytes (at_env spec e))
  write_all-Took fuel bytes e h i = write_all_slow-Took spec slow fuel bytes e (omega arith) i
