-- ===== src/Buffer/Reading.antt =====
-- The fixed buffer of io/buffer.c from `sdlog_istream_init_buffer` to `sdlog_istream_destroy`.
use libsdlog.Prelude.{
  ℕ, ◌+◌, ◌≤◌, ◌≡◌, refl, ap, ◌∙◌, Bool-cases, inl, inr, List, length, length-take, take, take_all,
  arith,
}
use libsdlog.Outcome.{ok, enomem, Ends, Cmd, ◌>>◌, finally}
use libsdlog.Outcome.Ends.{Ends-mono}
use libsdlog.Memory.{Mem}
use libsdlog.Stream.{Env, closed, istream_destroy, istream_read_exactly}
use libsdlog.Stream.Source.{at_env}
use libsdlog.Stream.Still.{dropped, Balanced, Ends-heap, read_and_destroy}
use libsdlog.Buffer.{
  IStreamContext, context_size, buffer_read, buffer_destroy_i, istream_buffer_methods,
  istream_init_buffer,
}
use libsdlog.Buffer.Input.{buffer_source, remaining, given, ended}

-- A client that makes a stream of the first `n` bytes of an array, reads them all and destroys the
-- stream, also after an error.
unfoldable pub read_whole : List ℕ → ℕ → Cmd Mem (List ℕ)
read_whole bytes n m =
    let (r, s) =
      (istream_init_buffer (take n bytes) >> finally (istream_read_exactly n n) istream_destroy)
        (closed m) in
    (r, s.mem)

buffer_read-mem : (n : ℕ) (e : Env IStreamContext) → (buffer_read n e).1.mem ≡ e.mem
unfolding buffer_read
buffer_read-mem n e = ground arith

buffer_destroyed :
    (e : Env IStreamContext)
    → istream_destroy (at_env istream_buffer_methods e) ≡ (ok tt, closed (dropped e.mem))
unfolding istream_destroy buffer_destroy_i
buffer_destroyed e = refl

-- Reading all bytes of a stream of that many cannot fail.
whole_stream :
    (bytes : List ℕ) (n : ℕ) (m : Mem)
    → length bytes ≡ n
    → Ends
        (λ got s. (got ≡ bytes) × (s ≡ closed (dropped m)))
        (λ status s. ⊥)
        (finally (istream_read_exactly n n) istream_destroy (
          at_env istream_buffer_methods
            (record { context = record { data_bytes = bytes; read_ptr = 0 }; mem = m })))
whole_stream bytes n m is_n =
    let e : Env IStreamContext = record {
      context = record { data_bytes = bytes; read_ptr = 0 };
      mem = m;
    } in
    Ends-mono _ (λ got s. (got ≡ bytes) × (s ≡ closed (dropped m))) _ (λ _ _. ⊥)
      (finally (istream_read_exactly n n) istream_destroy (at_env istream_buffer_methods e))
      (read_and_destroy buffer_source buffer_read-mem n e (omega arith)
        (λ e' _. buffer_destroyed e'))
      (λ got s (g, gone). (
        (given n got g.left bytes g.count g.seen).0 ∙ take_all n bytes (omega (arith, is_n)),
        gone,
      ))
      (λ status s (g, gone).
        absurd (
          omega (arith, is_n, ended n g.bytes (remaining g.before) bytes g.short g.seen g.fails.1)))

-- It gets the bytes, and as many blocks are allocated as before; ENOMEM, if the block of the context is
-- refused, is the only error.
pub read_whole_lem :
    (bytes : List ℕ) (n : ℕ) (m : Mem)
    → n ≤ length bytes
    → Ends
        (λ got m'. (got ≡ take n bytes) × Balanced m m')
        (λ status m'. (status ≡ enomem) × Balanced m m')
        (read_whole bytes n m)
unfolding read_whole istream_init_buffer
read_whole_lem bytes n m h = elim (Bool-cases (m.grant m.calls context_size)) [
  | inr denied ↦ rw denied (refl, (refl, refl))
  | inl granted ↦ rw granted (
      let m' : Mem = record m { calls = m.calls + 1; live = m.live + 1 } in
      let e : Env IStreamContext = record {
        context = record { data_bytes = take n bytes; read_ptr = 0 };
        mem = m';
      } in
      let r =
        finally (istream_read_exactly n n) istream_destroy (at_env istream_buffer_methods e) in
      Ends-heap (λ got m''. (got ≡ take n bytes) × Balanced m m'')
        (λ status m''. (status ≡ enomem) × Balanced m m'') r
        (Ends-mono (λ got s. (got ≡ take n bytes) × (s ≡ closed (dropped m')))
          (λ got s. (got ≡ take n bytes) × Balanced m s.mem) (λ _ _. ⊥)
          (λ status s. (status ≡ enomem) × Balanced m s.mem) r
          (whole_stream (take n bytes) n m' (omega (arith, length-take n bytes)))
          (λ got s k. (k.0, (ap (λ t. t.mem.live) k.1 ∙ (omega arith), ap (λ t. t.mem.grant) k.1)))
          (λ status s k. absurd k)))
]
