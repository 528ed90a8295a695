-- ===== src/File/Reading.antt =====
-- The input stream of io/file.c from `sdlog_istream_init_file` to `sdlog_istream_destroy`.
use libsdlog.Prelude.{
  ℕ, ◌+◌, ◌≤◌, ◌<◌, ◌≡◌, ◌⊎◌, refl, ap, ◌∙◌, Bool-cases, inl, inr, List, length, take, arith,
}
use libsdlog.Outcome.{ok, Status, enomem, eread, eof, Ends, Cmd, ◌>>◌, finally}
use libsdlog.Outcome.Ends.{Ends-mono}
use libsdlog.Memory.{Mem}
use libsdlog.Stream.{Env, closed, istream_destroy, istream_read_exactly}
use libsdlog.Stream.Source.{at_env}
use libsdlog.Stream.Still.{dropped, Balanced, Ends-heap, read_and_destroy}
use libsdlog.Buffer.Input.{given, ended}
use libsdlog.File.{
  Stdio, FileContext, opened_file, file_context_size, file_destroy, file_read, istream_file_methods,
  istream_init_file,
}
use libsdlog.File.Source.{Reads, file_rest, file_source}

module _ {F : Type 0} (stdio : Stdio F) where
  -- A client that makes a stream on an open file, reads `n` bytes and destroys the stream, also after
  -- an error.
  unfoldable pub read_file : F → ℕ → Cmd Mem (List ℕ)
  read_file f n m =
      let (r, s) =
        (istream_init_file stdio f >> finally (istream_read_exactly n n) istream_destroy)
          (closed m) in
      (r, s.mem)

  file_read-mem : (n : ℕ) (e : Env (FileContext F)) → (file_read stdio n e).1.mem ≡ e.mem
  unfolding file_read
  file_read-mem n e = ground arith

  file_destroyed :
      (e : Env (FileContext F))
      → istream_destroy (at_env (istream_file_methods stdio) e) ≡ (ok tt, closed (dropped e.mem))
  unfolding istream_destroy file_destroy
  file_destroyed e = refl

  module _ (left : F → List ℕ) (reads : Reads stdio left) where
    -- EREAD, EOF where there are fewer than `n` bytes, or ENOMEM.
    abbrev pub ReadFails : F → ℕ → Status → Type 0
    ReadFails f n status =
        (status ≡ enomem) ⊎ ((status ≡ eread) ⊎ ((status ≡ eof) × (length (left f) < n)))

    -- It gets the next `n` bytes of the file, if there are so many, and as many blocks are allocated as
    -- before, also after an error.
    pub read_file_lem :
        (f : F) (n : ℕ) (m : Mem)
        → Ends
            (λ got m'. ((got ≡ take n (left f)) × (n ≤ length (left f))) × Balanced m m')
            (λ status m'. ReadFails f n status × Balanced m m')
            (read_file f n m)
    unfolding read_file istream_init_file
    read_file_lem f n m = elim (Bool-cases (m.grant m.calls file_context_size)) [
      | inr denied ↦ rw denied (inl refl, (refl, refl))
      | inl granted ↦ rw granted (
          let m' : Mem = record m { calls = m.calls + 1; live = m.live + 1 } in
          let e : Env (FileContext F) = record { context = opened_file f; mem = m' } in
          let src = file_source stdio left reads in
          let r =
            finally (istream_read_exactly n n) istream_destroy
              (at_env (istream_file_methods stdio) e) in
          Ends-heap (λ got m''. ((got ≡ take n (left f)) × (n ≤ length (left f))) × Balanced m m'')
            (λ status m''. ReadFails f n status × Balanced m m'') r
            (Ends-mono _
              (λ got s. ((got ≡ take n (left f)) × (n ≤ length (left f))) × Balanced m s.mem) _
              (λ status s. ReadFails f n status × Balanced m s.mem) r
              (read_and_destroy src file_read-mem n e (f, refl) (λ e' _. file_destroyed e'))
              (λ got s (g, gone). (
                given n got g.left (left f) g.count g.seen,
                (ap (λ t. t.mem.live) gone ∙ omega arith, ap (λ t. t.mem.grant) gone),
              ))
              (λ status s (g, gone). (
                inr (elim g.fails [
                  | inl error ↦ inl error
                  | inr (at_end, nothing) ↦ inr (
                    at_end,
                    ended n g.bytes (file_rest stdio left reads g.before) (left f) g.short g.seen
                        nothing,
                  )
                ]),
                (ap (λ t. t.mem.live) gone ∙ omega arith, ap (λ t. t.mem.grant) gone),
              ))))
    ]
