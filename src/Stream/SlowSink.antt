-- ===== src/Stream/SlowSink.antt =====
-- What an output stream promises that need not take a byte in each call, and `sdlog_ostream_write_all`
-- over any stream that keeps it.
use libsdlog.Prelude.{
  ℕ, zero, suc, ◌+◌, ◌≤◌, ◌<◌, ◌≡◌, ◌≢◌, refl, ap, sym, ◌∙◌, Option, some, List, [], ◌∷◌, ◌++◌,
  append-nil, append_assoc, length, length-drop, take, drop, take-add, take-append-drop, arith,
  le→leb,
}
use libsdlog.Outcome.{Outcome, ok, fail, Status, success, failure, Cmd, check, Ends}
use libsdlog.Outcome.Ends.{Ends-mono}
use libsdlog.Stream.{Env, OStreamSpec, OState, opened, write_with, ostream_write, ostream_write_all}

-- What may happen in a call of `write` with data that is not empty: some of the data is accepted,
-- perhaps nothing, or the call fails, perhaps after it took some of it. `view` is all that the stream
-- has accepted so far, `Inv` its invariant, `Fails` the codes that it may return. `waits` bounds the
-- calls that accept nothing: it goes down in each of them, and goes up by less than the bytes that the
-- others accept.
pub data SlowWrote {C : Type 0} (Inv : Env C → Type 0) (view : Env C → List ℕ)
    (Fails : Status → Type 0) (waits : Env C → ℕ) (bytes : List ℕ) (e : Env C)
    (r : Outcome (Status × Option ℕ) × Env C) : Type 0 where
  accepted :
      (n : ℕ) (e' : Env C)
      → r ≡ (ok (success, some n), e')
      → n ≤ length bytes
      → waits e' < n + waits e
      → Inv e'
      → view e' ≡ view e ++ take n bytes
      → SlowWrote Inv view Fails waits bytes e r
  refused :
      (status : Status) (count : Option ℕ) (k : ℕ) (e' : Env C)
      → r ≡ (ok (status, count), e')
      → Fails status
      → Inv e'
      → view e' ≡ view e ++ take k bytes
      → SlowWrote Inv view Fails waits bytes e r

-- The contract of an output stream, as include/sdlog/streams.h has it for nonblocking ones.
pub record SlowSink {C : Type 0} (spec : OStreamSpec C) : Type 1 where
  pub Inv : Env C → Type 0
  pub view : Env C → List ℕ
  pub Fails : Status → Type 0
  pub fails_ne : (status : Status) → Fails status → status ≢ success
  pub waits : Env C → ℕ
  pub write : List ℕ → Cmd (Env C) (Status × Option ℕ)
  pub has_write : spec.write ≡ some write
  pub wrote :
      (b : ℕ) (bytes : List ℕ) (e : Env C)
      → Inv e
      → SlowWrote Inv view Fails waits (b ∷ bytes) e (write (b ∷ bytes) e)

abbrev pub at_env : {C : Type 0} → OStreamSpec C → Env C → OState C
at_env spec e = opened spec e.context e.mem

pub check-ne_success :
    {S : Type 0} (status : Status) (s : S) → status ≢ success → check status s ≡ (fail status, s)
check-ne_success success s h = absurd (h refl)
check-ne_success failure s h = refl
check-ne_success _ s h = refl

module _ {C : Type 0} (spec : OStreamSpec C) (sink : SlowSink spec) where
  open sink use {Inv, view, Fails, fails_ne, waits, write, has_write, wrote}

  -- The stream after some of the data was taken.
  pub record Took (e : Env C) (bytes : List ℕ) (s : OState C) : Type 0 where
    pub env : Env C
    pub form : s ≡ at_env spec env
    pub inv : Inv env
    pub seen : view env ≡ view e ++ bytes

  pub record TookSome (e : Env C) (bytes : List ℕ) (status : Status) (s : OState C) : Type 0 where
    pub fails : Fails status
    pub count : ℕ
    pub took : Took e (take count bytes) s

  pub ostream_write_step :
      (b : ℕ) (bytes : List ℕ) (e : Env C) (r : Outcome (Status × Option ℕ)) (e' : Env C)
      → write (b ∷ bytes) e ≡ (r, e')
      → ostream_write (b ∷ bytes) (at_env spec e) ≡ (r, at_env spec e')
  unfolding ostream_write
  ostream_write_step b bytes e r e' h =
      ap (λ m. write_with m (b ∷ bytes) (at_env spec e)) has_write
      ∙ ap (λ p. (p.0, at_env spec p.1)) h

  -- What was taken after the first `n` bytes, seen from the start.
  later :
      (e e' : Env C) (n : ℕ) (bytes : List ℕ) (r : Outcome (Unit {0}) × OState C)
      → view e' ≡ view e ++ take n bytes
      → Ends (λ _ s. Took e' (drop n bytes) s) (TookSome e' (drop n bytes)) r
      → Ends (λ _ s. Took e bytes s) (TookSome e bytes) r
  later e e' n bytes r v h =
      Ends-mono (λ _ s. Took e' (drop n bytes) s) (λ _ s. Took e bytes s)
        (TookSome e' (drop n bytes)) (TookSome e bytes) r h
        (λ _ s t. record {
          env = t.env;
          form = t.form;
          inv = t.inv;
          seen =
              behind t.env (drop n bytes) t.seen
              ∙ ap (λ xs. view e ++ xs) (take-append-drop n bytes);
        })
        (λ status s t. record {
          fails = t.fails;
          count = n + t.count;
          took = record {
            env = t.took.env;
            form = t.took.form;
            inv = t.took.inv;
            seen =
                behind t.took.env (take t.count (drop n bytes)) t.took.seen
                ∙ ap (λ xs. view e ++ xs) (sym (take-add n t.count bytes));
          };
        })
    where
      behind :
          (f : Env C) (xs : List ℕ)
          → view f ≡ view e' ++ xs
          → view f ≡ view e ++ (take n bytes ++ xs)
      behind f xs w = w ∙ ap (λ ys. ys ++ xs) v ∙ append_assoc (view e) (take n bytes) xs

  -- `sdlog_ostream_write_all` over a stream that may accept fewer bytes than it is given, also none,
  -- without an error, but not for ever. The loop ends: a round for each byte and each of the `waits` is
  -- enough. Either it succeeds and the stream has taken all of the data, in order and nothing else, or
  -- it returns the code of a failed write and the stream has taken some first part of the data.
  pub write_all_slow-Took :
      (fuel : ℕ) (bytes : List ℕ) (e : Env C)
      → length bytes + waits e ≤ fuel
      → Inv e
      → Ends
          (λ _ s. Took e bytes s)
          (TookSome e bytes)
          (ostream_write_all fuel bytes (at_env spec e))
  unfolding ostream_write_all
  write_all_slow-Took fuel [] e h i = record {
    env = e;
    form = refl;
    inv = i;
    seen = sym (append-nil (view e));
  }
  write_all_slow-Took zero (b ∷ bytes) e h i = absurd (omega arith)
  write_all_slow-Took (suc fuel) (b ∷ bytes) e h i = elim (wrote b bytes e i) [
    | accepted n e' eq le less i' v ↦
        rw
          (
            ostream_write_step b bytes e (ok (success, some n)) e' eq,
            le→leb n (length (b ∷ bytes)) le,
          )
          (later e e' n (b ∷ bytes) (ostream_write_all fuel (drop n (b ∷ bytes)) (at_env spec e')) v
            (write_all_slow-Took fuel (drop n (b ∷ bytes)) e'
              (omega (arith, length-drop n (b ∷ bytes))) i'))
    | refused status count k e' eq f i' v ↦
        rw
          (
            ostream_write_step b bytes e (ok (status, count)) e' eq,
            check-ne_success status (at_env spec e') (fails_ne status f),
          )
          (record {
            fails = f;
            count = k;
            took = record { env = e'; form = refl; inv = i'; seen = v };
          })
  ]
