-- ===== src/Stream/Source.antt =====
-- What an input stream promises, and `sdlog_istream_read_exactly` over any stream that keeps it.
use libsdlog.Prelude.{ℕ, suc, ◌≤◌, ◌<◌, ◌≡◌, ◌≢◌, Option, some, List, ◌++◌, length, arith}
use libsdlog.Outcome.{Outcome, ok, Status, success, Cmd, Ends}
use libsdlog.Stream.{Env, IStreamSpec, IState, istream_read_exactly}
use libsdlog.Stream.SlowSource.{SlowDelivered, SlowSource, read_exactly_slow-ReadFully}
use libsdlog.Stream.SlowSource as Slow
pub use libsdlog.Stream.SlowSource.{at_env}

-- What may happen in a call of `read` for `n` bytes: some of the bytes that are left, not none and at
-- most `n`, or a failure, which may have taken some too. `rest` is what is left to read, `Fails` says
-- with which codes and where the stream may fail.
pub data Delivered {C : Type 0} (Inv : Env C → Type 0) (rest : Env C → List ℕ)
    (Fails : Status → Env C → Type 0) (n : ℕ) (e : Env C)
    (r : Outcome (Status × Option (List ℕ)) × Env C) : Type 0 where
  delivered :
      (bytes : List ℕ) (e' : Env C)
      → r ≡ (ok (success, some bytes), e')
      → 0 < length bytes
      → length bytes ≤ n
      → Inv e'
      → rest e ≡ bytes ++ rest e'
      → Delivered Inv rest Fails n e r
  failed :
      (status : Status) (got : Option (List ℕ)) (lost : List ℕ) (e' : Env C)
      → r ≡ (ok (status, got), e')
      → Fails status e
      → Inv e'
      → rest e ≡ lost ++ rest e'
      → Delivered Inv rest Fails n e r

-- The contract of an input stream.
pub record Source {C : Type 0} (spec : IStreamSpec C) : Type 1 where
  pub Inv : Env C → Type 0
  pub rest : Env C → List ℕ
  pub Fails : Status → Env C → Type 0
  pub fails_ne : (status : Status) (e : Env C) → Fails status e → status ≢ success
  pub read : ℕ → Cmd (Env C) (Status × Option (List ℕ))
  pub has_read : spec.read ≡ some read
  pub reads : (n : ℕ) (e : Env C) → Inv e → Delivered Inv rest Fails (suc n) e (read (suc n) e)

module _ {C : Type 0} (spec : IStreamSpec C) (source : Source spec) where
  -- A stream that never waits.
  pub never_waits :
      (n : ℕ) (e : Env C) (r : Outcome (Status × Option (List ℕ)) × Env C)
      → Delivered source.Inv source.rest source.Fails n e r
      → SlowDelivered source.Inv source.rest source.Fails (λ _. 0) n e r
  never_waits n e r (delivered bytes e' eq pos le i v) =
      SlowDelivered.delivered bytes e' eq le (omega arith) i v
  never_waits n e r (failed status got lost e' eq f i v) =
      SlowDelivered.failed status got lost e' eq f i v

  abbrev pub slow : SlowSource spec
  slow = record {
    Inv = source.Inv;
    rest = source.rest;
    Fails = source.Fails;
    fails_ne = source.fails_ne;
    waits = λ _. 0;
    read = source.read;
    has_read = source.has_read;
    reads = λ n e i. never_waits (suc n) e (source.read (suc n) e) (source.reads n e i);
  }

  -- The stream after `n` bytes, or after an error.
  abbrev pub ReadFully : Env C → ℕ → List ℕ → IState C → Type 0
  ReadFully = Slow.ReadFully spec slow

  abbrev pub Ended : Env C → ℕ → Status → IState C → Type 0
  Ended = Slow.Ended spec slow

  -- `sdlog_istream_read_exactly` over such a stream ends within as many rounds as bytes are wanted.
  -- Either it succeeds with exactly the next `n` bytes of the stream, or it returns the code of a
  -- failed read, and fewer than `n` bytes came before that; the failed read may have taken more.
  pub read_exactly-ReadFully :
      (fuel n : ℕ) (e : Env C)
      → n ≤ fuel
      → source.Inv e
      → Ends (ReadFully e n) (Ended e n) (istream_read_exactly fuel n (at_env spec e))
  read_exactly-ReadFully fuel n e h i =
      read_exactly_slow-ReadFully spec slow fuel n e (omega arith) i
