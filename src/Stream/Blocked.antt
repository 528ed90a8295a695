-- ===== src/Stream/Blocked.antt =====
-- The loops of io/base.c over a stream that is stuck: it reports success, but moves no byte any more.
use libsdlog.Prelude.{
  ℕ, zero, suc, ◌-◌, ◌++◌, length, le→leb, arith, ◌≡◌, refl, ap, Option, some, List, [], ◌∷◌, ◌∙◌,
}
use libsdlog.Outcome.{ok, out_of_fuel, Status, success, Cmd}
use libsdlog.Stream.{
  Env, IStreamSpec, OStreamSpec, istream_read, istream_read_exactly, read_loop, ostream_write,
  ostream_write_all, read_with, write_with,
}
use libsdlog.Stream.Sink as Sinks
use libsdlog.Stream.Source as Sources

module _ {C : Type 0} (spec : OStreamSpec C) (write : List ℕ → Cmd (Env C) (Status × Option ℕ))
    (has_write : spec.write ≡ some write) (IsStuck : Env C → Type 0)
    (stays : (b : ℕ) (bytes : List ℕ) (e : Env C)
      → IsStuck e
      → (e' : Env C) × (write (b ∷ bytes) e ≡ (ok (success, some 0), e')) × IsStuck e') where
  write_nothing :
      (b : ℕ) (bytes : List ℕ) (e e' : Env C)
      → write (b ∷ bytes) e ≡ (ok (success, some 0), e')
      → ostream_write (b ∷ bytes) (Sinks.at_env spec e)
        ≡ (ok (success, some 0), Sinks.at_env spec e')
  unfolding ostream_write
  write_nothing b bytes e e' h =
      ap (λ m. write_with m (b ∷ bytes) (Sinks.at_env spec e)) has_write
      ∙ ap (λ p. (p.0, Sinks.at_env spec p.1)) h

  -- `sdlog_ostream_write_all` with some data on an output stream that is stuck: the loop is still running
  -- after any number of rounds, and the stream is still stuck.
  pub write_all_blocks :
      (fuel b : ℕ) (bytes : List ℕ) (e : Env C)
      → IsStuck e
      → (e' : Env C) × (ostream_write_all fuel (b ∷ bytes) (Sinks.at_env spec e)
          ≡ (out_of_fuel, Sinks.at_env spec e'))
        × IsStuck e'
  unfolding ostream_write_all
  write_all_blocks zero b bytes e i = (e, refl, i)
  write_all_blocks (suc fuel) b bytes e i =
      let (e', wrote, i') = stays b bytes e i in
      rw (write_nothing b bytes e e' wrote, le→leb 0 (length (b ∷ bytes)) (omega arith))
        (write_all_blocks fuel b bytes e' i')

module _ {C : Type 0} (spec : IStreamSpec C) (read : ℕ → Cmd (Env C) (Status × Option (List ℕ)))
    (has_read : spec.read ≡ some read) (IsStuck : Env C → Type 0)
    (stays : (n : ℕ) (e : Env C)
      → IsStuck e
      → (e' : Env C) × (read (suc n) e ≡ (ok (success, some []), e')) × IsStuck e') where
  read_nothing :
      (n : ℕ) (e e' : Env C)
      → read (suc n) e ≡ (ok (success, some []), e')
      → istream_read (suc n) (Sources.at_env spec e)
        ≡ (ok (success, some []), Sources.at_env spec e')
  unfolding istream_read
  read_nothing n e e' h =
      ap (λ m. read_with m (suc n) (Sources.at_env spec e)) has_read
      ∙ ap (λ p. (p.0, Sources.at_env spec p.1)) h

  loop_blocks :
      (fuel n : ℕ) (before : List ℕ) (e : Env C)
      → IsStuck e
      → (e' : Env C) × (read_loop fuel (suc n) before (Sources.at_env spec e)
          ≡ (out_of_fuel, Sources.at_env spec e'))
        × IsStuck e'
  unfolding read_loop
  loop_blocks zero n before e i = (e, refl, i)
  loop_blocks (suc fuel) n before e i =
      let (e', gave, i') = stays n e i in
      let all : suc n - 0 ≡ suc n = omega arith in
      rw (read_nothing n e e' gave, le→leb 0 (suc n) (omega arith), all)
        (loop_blocks fuel n (before ++ []) e' i')

  -- `sdlog_istream_read_exactly` for some bytes on an input stream that is stuck: the loop is still running
  -- after any number of rounds, and the stream is still stuck.
  pub read_exactly_blocks :
      (fuel n : ℕ) (e : Env C)
      → IsStuck e
      → (e' : Env C) × (istream_read_exactly fuel (suc n) (Sources.at_env spec e)
          ≡ (out_of_fuel, Sources.at_env spec e'))
        × IsStuck e'
  unfolding istream_read_exactly
  read_exactly_blocks fuel n e i = loop_blocks fuel n [] e i
