-- ===== src/Writer/Session.antt =====
-- core/writer.c: a whole log, from `sdlog_writer_init` to `sdlog_writer_destroy`, on any stream that
-- keeps its contract.
use mathlib.Core.Path.{subst}
use libsdlog.Prelude.{
  true, ℕ, ◌+◌, ◌≤◌, ◌≡◌, ◌⊎◌, inl, inr, refl, sym, Bool, List, [], ◌++◌, append-nil, All, arith,
}
use libsdlog.Outcome.{ok, Status, Ends, Cmd, ◌>>◌, finally}
use libsdlog.Outcome.Ends.{Ends-mono, Ends-and_then, Ends-then_clean_total, Ends-ok}
use libsdlog.Model.AddColumn.{Refused}
use libsdlog.Stream.{Env, OStreamSpec}
use libsdlog.Stream.Quiet.{QuietSink}
use libsdlog.Writer.{Writer, WriterState, writer_init, writer_end, writer_destroy}
use libsdlog.Writer.Calls.{IsPrefix, Halted}
use libsdlog.Writer.Each.{after_all, bytes-after_all, write_each, write_each-Reached}
use libsdlog.Writer.End.{closed_log, Destroyed, writer_end-Reached, writer_destroy-Destroyed}
use libsdlog.Writer.Life.{new_log, InitFailed, writer_init-Reached}
use libsdlog.Writer.Ready.{LogFails, Reached, start}
use libsdlog.Writer.Spec.{Entry, IsEntry, log}

module _ {C : Type 0} where
  -- A client that makes a writer, writes the entries, ends the session and destroys the writer, also
  -- after an error.
  unfoldable pub write_log :
      (to_float : ℕ → ℕ) (fuel : ℕ) → List Entry → Cmd (WriterState C) (Unit {0})
  write_log to_float fuel ns =
      writer_init >> finally (write_each to_float fuel ns >> writer_end) writer_destroy

-- The log of entries on a stream that held nothing.
abbrev pub new_entries : List Entry → List ℕ
new_entries ns = log (λ _. 0) ns

module _ {C : Type 0} {spec : OStreamSpec C} (q : QuietSink spec) (grant : ℕ → ℕ → Bool) where
  -- The stream holds all of `bytes` or, after an error, a first part of them.
  abbrev pub Whole : ℕ → List ℕ → List ℕ → WriterState C → Type 0
  Whole live before bytes s = Destroyed q grant live (before ++ bytes) s

  pub record Cut (live : ℕ) (before bytes : List ℕ) (status : Status) (s : WriterState C)
      : Type 0 where
    pub code : LogFails q grant status
    pub part : List ℕ
    pub is_part : IsPrefix part bytes
    pub left : Whole live before part s

  module _ (to_float : ℕ → ℕ) (fuel : ℕ) (enough : 256 + q.patience ≤ fuel) where
    -- The calls between init and destroy.
    session_step :
        (ns : List Entry) (live : ℕ) (bytes : List ℕ) (s : WriterState C)
        → All (IsEntry to_float) ns
        → Reached q grant (live + 7) (new_log bytes) s
        → Ends
            (λ _ s'. Reached q grant (live + 7) (closed_log (after_all (new_log bytes) ns)) s')
            (Halted q grant (live + 7) (new_log bytes) (new_entries ns))
            ((write_each to_float fuel ns >> writer_end) s)
    session_step ns live bytes s v r =
        let a = new_log bytes in
        rw r.form (
          Ends-and_then (λ _ s'. Reached q grant (live + 7) (after_all a ns) s')
            (Halted q grant (live + 7) a (new_entries ns))
            (λ _ s'. Reached q grant (live + 7) (closed_log (after_all a ns)) s')
            (Halted q grant (live + 7) a (new_entries ns))
            (write_each to_float fuel ns (start q grant r.writer r.env)) _
            (write_each-Reached q grant to_float fuel enough ns (live + 7) a r.writer r.env v
              r.ready)
            (λ _ s' k. rw k.form (
              Ends-mono (λ _ s''. Reached q grant (live + 7) (closed_log (after_all a ns)) s'')
                (λ _ s''. Reached q grant (live + 7) (closed_log (after_all a ns)) s'')
                (λ status s''.
                  q.sink.Fails status × Reached q grant (live + 7) (after_all a ns) s'')
                (Halted q grant (live + 7) a (new_entries ns))
                (writer_end (start q grant k.writer k.env))
                (writer_end-Reached q grant (live + 7) (after_all a ns) k.writer k.env k.ready)
                (λ _ s'' h. h)
                (λ status s'' h. record {
                  code = inl h.0;
                  part = new_entries ns;
                  is_part = ([], sym (append-nil (new_entries ns)));
                  left = after_all a ns;
                  seen = bytes-after_all a ns;
                  reached = h.1;
                })))
            (λ status s' h. h))

    -- A client that makes a writer, writes entries that the writer can serve, ends the session and
    -- destroys the writer, also after an error, on a stream that keeps its contract. If all calls
    -- succeed, the stream holds what it held and then the log of the entries: their records in
    -- order, each behind the FMT record of its format unless the format at this address was the
    -- last one described under its id. If sdlog_writer_init fails, that is with ENOMEM after a
    -- refusal of the allocator, and the stream holds what it held. If a later call fails, with an
    -- error of the stream or with ENOMEM, the stream holds what it held and a first part of the
    -- log. But for a failure of sdlog_writer_init the writer is cleared and as many blocks are
    -- allocated as before. Nothing faults and all loops end, where write_all has 256 rounds at
    -- least, and as many more as the stream has `patience`: it may accept less than it is given, also
    -- nothing without an error, for so many calls.
    pub write_log-Whole :
        (ns : List Entry) (w : Writer) (e : Env C)
        → q.sink.Inv e
        → e.mem.grant ≡ grant
        → All (IsEntry to_float) ns
        → Ends
            (λ _ s. Whole e.mem.live (q.sink.view e) (new_entries ns) s)
            (λ status s.
              InitFailed q grant e status s
              ⊎ Cut e.mem.live (q.sink.view e) (new_entries ns) status s)
            (write_log to_float fuel ns (start q grant w e))
    unfolding write_log
    write_log-Whole ns w e inv g v =
        let live = e.mem.live in
        let a = new_log (q.sink.view e) in
        Ends-and_then (λ _ s. Reached q grant (live + 7) a s) (InitFailed q grant e)
          (λ _ s. Whole live (q.sink.view e) (new_entries ns) s)
          (λ status s.
            InitFailed q grant e status s ⊎ Cut live (q.sink.view e) (new_entries ns) status s)
          (writer_init (start q grant w e)) _ (writer_init-Reached q grant live w e inv g refl)
          (λ _ s r.
            Ends-then_clean_total
              (λ _ s'. Reached q grant (live + 7) (closed_log (after_all a ns)) s')
              (λ _ s'. Whole live (q.sink.view e) (new_entries ns) s')
              (Halted q grant (live + 7) a (new_entries ns))
              (λ status s'.
                InitFailed q grant e status s'
                ⊎ Cut live (q.sink.view e) (new_entries ns) status s')
              ((write_each to_float fuel ns >> writer_end) s) writer_destroy
              (session_step ns live (q.sink.view e) s v r)
              (λ _ s' k. rw k.form (
                Ends-mono (λ _ s''. Destroyed q grant live (after_all a ns).bytes s'')
                  (λ _ s''. Whole live (q.sink.view e) (new_entries ns) s'') (λ _ _. ⊥) (λ _ _. ⊥)
                  (writer_destroy (start q grant k.writer k.env))
                  (writer_destroy-Destroyed q grant live (closed_log (after_all a ns)) k.writer
                    k.env (omega (arith, q.owns e inv)) k.ready)
                  (λ _ s'' d. subst (λ bs. Destroyed q grant live bs s'') (bytes-after_all a ns) d)
                  (λ _ _ d. d)))
              (λ status s' h. rw h.reached.form (
                Ends-mono (λ _ s''. Destroyed q grant live h.left.bytes s'')
                  (λ _ s''.
                    InitFailed q grant e status s''
                    ⊎ Cut live (q.sink.view e) (new_entries ns) status s'')
                  (λ _ _. ⊥) (λ _ _. ⊥)
                  (writer_destroy (start q grant h.reached.writer h.reached.env))
                  (writer_destroy-Destroyed q grant live h.left h.reached.writer h.reached.env
                    (omega (arith, q.owns e inv)) h.reached.ready)
                  (λ _ s'' d. inr (record {
                    code = h.code;
                    part = h.part;
                    is_part = h.is_part;
                    left = subst (λ bs. Destroyed q grant live bs s'') h.seen d;
                  }))
                  (λ _ _ d. d))))
          (λ status s f. inl f)

    -- A client that makes a writer, writes entries that the writer can serve, ends the session and
    -- destroys the writer, on a stream that keeps its contract and never fails, with an allocator
    -- that refuses no request: the client does end, with success, the whole log stands behind what
    -- the stream held, the writer is cleared and as many blocks are allocated as before. The
    -- stream may accept less than it is given, also nothing for `patience` calls; write_all has that many
    -- rounds and 256 more.
    pub write_log-succeeds :
        (ns : List Entry) (w : Writer) (e : Env C)
        → q.sink.Inv e
        → e.mem.grant ≡ grant
        → All (IsEntry to_float) ns
        → ((status : Status) → ¬ q.sink.Fails status)
        → ((n k : ℕ) → grant n k ≡ true)
        → (s : WriterState C) × (write_log to_float fuel ns (start q grant w e) ≡ (ok tt, s))
          × Whole e.mem.live (q.sink.view e) (new_entries ns) s
    write_log-succeeds ns w e inv g v never all =
        Ends-ok (λ _ s. Whole e.mem.live (q.sink.view e) (new_entries ns) s)
          (λ status s.
            InitFailed q grant e status s
            ⊎ Cut e.mem.live (q.sink.view e) (new_entries ns) status s)
          (write_log to_float fuel ns (start q grant w e)) (write_log-Whole ns w e inv g v)
          (λ status s k. elim k [
            | inl f ↦ granted f.1
            | inr c ↦ elim c.code [ inl f ↦ never status f | inr m ↦ granted m.1 ]
          ])
      where
        granted : Refused grant → ⊥
        granted (n, k, refused) = cc (all n k, refused)
