-- ===== src/Stream/SlowSource.antt =====
-- What an input stream promises that need not give a byte in each call, and
-- `sdlog_istream_read_exactly` over any stream that keeps it.
use mathlib.Core.Path.{subst}
use libsdlog.Prelude.{
  ℕ, zero, suc, ◌+◌, ◌-◌, ◌≤◌, ◌<◌, ◌≡◌, ◌≢◌, refl, ap, sym, ◌∙◌, Option, some, List, [], ◌++◌,
  append-nil, append_assoc, length, length-append, arith, le→leb,
}
use libsdlog.Outcome.{Outcome, ok, Status, success, Cmd, Ends}
use libsdlog.Outcome.Ends.{Ends-mono}
use libsdlog.Stream.{
  Env, IStreamSpec, IState, opened, read_with, istream_read, read_loop, istream_read_exactly,
}
use libsdlog.Stream.Sink.{check-ne_success}

-- What may happen in a call of `read` for `n` bytes: some of the bytes that are left, at most `n` and
-- perhaps none, or a failure, which may have taken some too. `rest` is what is left to read, `Fails`
-- says with which codes and where the stream may fail. `waits` bounds the calls that give nothing: it
-- goes down in each of them, and goes up by less than the bytes that the others give.
pub data SlowDelivered {C : Type 0} (Inv : Env C → Type 0) (rest : Env C → List ℕ)
    (Fails : Status → Env C → Type 0) (waits : Env C → ℕ) (n : ℕ) (e : Env C)
    (r : Outcome (Status × Option (List ℕ)) × Env C) : Type 0 where
  delivered :
      (bytes : List ℕ) (e' : Env C)
      → r ≡ (ok (success, some bytes), e')
      → length bytes ≤ n
      → waits e' < length bytes + waits e
      → Inv e'
      → rest e ≡ bytes ++ rest e'
      → SlowDelivered Inv rest Fails waits n e r
  failed :
      (status : Status) (got : Option (List ℕ)) (lost : List ℕ) (e' : Env C)
      → r ≡ (ok (status, got), e')
      → Fails status e
      → Inv e'
      → rest e ≡ lost ++ rest e'
      → SlowDelivered Inv rest Fails waits n e r

-- The contract of an input stream, as include/sdlog/streams.h has it for nonblocking ones.
pub record SlowSource {C : Type 0} (spec : IStreamSpec C) : Type 1 where
  pub Inv : Env C → Type 0
  pub rest : Env C → List ℕ
  pub Fails : Status → Env C → Type 0
  pub fails_ne : (status : Status) (e : Env C) → Fails status e → status ≢ success
  pub waits : Env C → ℕ
  pub read : ℕ → Cmd (Env C) (Status × Option (List ℕ))
  pub has_read : spec.read ≡ some read
  pub reads :
      (n : ℕ) (e : Env C) → Inv e → SlowDelivered Inv rest Fails waits (suc n) e (read (suc n) e)

abbrev pub at_env : {C : Type 0} → IStreamSpec C → Env C → IState C
at_env spec e = opened spec e.context e.mem

module _ {C : Type 0} (spec : IStreamSpec C) (source : SlowSource spec) where
  open source use {Inv, rest, Fails, fails_ne, waits, read, has_read, reads}

  -- `bytes` were read, and the stream goes on behind them.
  pub record Gave (e : Env C) (bytes : List ℕ) (s : IState C) : Type 0 where
    pub env : Env C
    pub form : s ≡ at_env spec env
    pub inv : Inv env
    pub seen : rest e ≡ bytes ++ rest env

  -- The stream failed before `n` bytes were there: `bytes` had been read up to `before`, where the
  -- stream failed, and `lost` are the bytes that the failed read took.
  pub record Ended (e : Env C) (n : ℕ) (status : Status) (s : IState C) : Type 0 where
    pub bytes : List ℕ
    pub before : Env C
    pub seen : rest e ≡ bytes ++ rest before
    pub short : length bytes < n
    pub fails : Fails status before
    pub lost : List ℕ
    pub gave : Gave before lost s

  istream_read_step :
      (n : ℕ) (e : Env C) (r : Outcome (Status × Option (List ℕ))) (e' : Env C)
      → read (suc n) e ≡ (r, e')
      → istream_read (suc n) (at_env spec e) ≡ (r, at_env spec e')
  unfolding istream_read
  istream_read_step n e r e' h =
      ap (λ m. read_with m (suc n) (at_env spec e)) has_read ∙ ap (λ p. (p.0, at_env spec p.1)) h

  -- The result of the loop: what was read before and the bytes of this run.
  record LoopGave (e : Env C) (n : ℕ) (before data_read : List ℕ) (s : IState C) : Type 0 where
    bytes : List ℕ
    whole : data_read ≡ before ++ bytes
    count : length bytes ≡ n
    gave : Gave e bytes s

  abbrev after :
      (e e' : Env C) (bytes more : List ℕ) (s : IState C)
      → rest e ≡ bytes ++ rest e'
      → Gave e' more s
      → Gave e (bytes ++ more) s
  after e e' bytes more s v g = record {
    env = g.env;
    form = g.form;
    inv = g.inv;
    seen = v ∙ ap (λ xs. bytes ++ xs) g.seen ∙ sym (append_assoc bytes more (rest g.env));
  }

  later :
      (e e' : Env C) (n : ℕ) (bytes before : List ℕ) (r : Outcome (List ℕ) × IState C)
      → length bytes ≤ suc n
      → rest e ≡ bytes ++ rest e'
      → Ends
          (λ data_read s. LoopGave e' (suc n - length bytes) (before ++ bytes) data_read s)
          (Ended e' (suc n - length bytes))
          r
      → Ends (λ data_read s. LoopGave e (suc n) before data_read s) (Ended e (suc n)) r
  later e e' n bytes before r le v h =
      Ends-mono (λ data_read s. LoopGave e' (suc n - length bytes) (before ++ bytes) data_read s)
        (λ data_read s. LoopGave e (suc n) before data_read s) (Ended e' (suc n - length bytes))
        (Ended e (suc n)) r h
        (λ data_read s g. record {
          bytes = bytes ++ g.bytes;
          whole = g.whole ∙ append_assoc before bytes g.bytes;
          count = omega (arith, length-append bytes g.bytes, g.count);
          gave = after e e' bytes g.bytes s v g.gave;
        })
        (λ status s g. record {
          bytes = bytes ++ g.bytes;
          before = g.before;
          seen =
              v ∙ ap (λ xs. bytes ++ xs) g.seen ∙ sym (append_assoc bytes g.bytes (rest g.before));
          short = omega (arith, length-append bytes g.bytes, g.short);
          fails = g.fails;
          lost = g.lost;
          gave = g.gave;
        })

  loop-Gave :
      (fuel n : ℕ) (before : List ℕ) (e : Env C)
      → n + waits e ≤ fuel
      → Inv e
      → Ends
          (λ data_read s. LoopGave e n before data_read s)
          (Ended e n)
          (read_loop fuel n before (at_env spec e))
  unfolding read_loop
  loop-Gave fuel zero before e h i = record {
    bytes = [];
    whole = sym (append-nil before);
    count = refl;
    gave = record { env = e; form = refl; inv = i; seen = refl };
  }
  loop-Gave zero (suc n) before e h i = absurd (omega arith)
  loop-Gave (suc fuel) (suc n) before e h i = elim (reads n e i) [
    | delivered bytes e' eq le less i' v ↦
        rw
          (istream_read_step n e (ok (success, some bytes)) e' eq, le→leb (length bytes) (suc n) le)
          (later e e' n bytes before
            (read_loop fuel (suc n - length bytes) (before ++ bytes) (at_env spec e')) le v
            (loop-Gave fuel (suc n - length bytes) (before ++ bytes) e' (omega arith) i'))
    | failed status got lost e' eq f i' v ↦
        rw
          (
            istream_read_step n e (ok (status, got)) e' eq,
            check-ne_success status (at_env spec e') (fails_ne status e f),
          )
          (record {
            bytes = [];
            before = e;
            seen = refl;
            short = omega arith;
            fails = f;
            lost = lost;
            gave = record { env = e'; form = refl; inv = i'; seen = v };
          })
  ]

  pub record ReadFully (e : Env C) (n : ℕ) (bytes : List ℕ) (s : IState C) : Type 0 where
    pub count : length bytes ≡ n
    pub gave : Gave e bytes s

  -- `sdlog_istream_read_exactly` over a stream that may give fewer bytes than it is asked for, also none,
  -- without an error, but not for ever. The loop ends: a round for each byte that is wanted and each of
  -- the `waits` is enough. Either it succeeds with exactly the next `n` bytes of the stream, or it
  -- returns the code of a failed read, and fewer than `n` bytes came before that; the failed read may
  -- have taken more.
  pub read_exactly_slow-ReadFully :
      (fuel n : ℕ) (e : Env C)
      → n + waits e ≤ fuel
      → Inv e
      → Ends (ReadFully e n) (Ended e n) (istream_read_exactly fuel n (at_env spec e))
  unfolding istream_read_exactly
  read_exactly_slow-ReadFully fuel n e h i =
      Ends-mono (λ data_read s. LoopGave e n [] data_read s) (ReadFully e n) (Ended e n) (Ended e n)
        (read_loop fuel n [] (at_env spec e)) (loop-Gave fuel n [] e h i)
        (λ data_read s g. record {
          count = ap length g.whole ∙ g.count;
          gave = subst (λ bs. Gave e bs s) (sym g.whole) g.gave;
        })
        (λ status s g. g)
