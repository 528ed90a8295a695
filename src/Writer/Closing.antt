-- ===== src/Writer/Closing.antt =====
-- core/writer.c: what a whole log leaves of its stream: it was flushed, and then its session was ended.
use mathlib.Core.Path.{subst}
use libsdlog.Prelude.{
  ℕ, ◌+◌, ◌≤◌, ◌<◌, ◌≡◌, refl, ◌∙◌, true, false, Bool, List, ◌∷◌, [], All, length, ◌⊎◌, arith,
}
use libsdlog.Outcome.{Status, Ends, ◌>>◌}
use libsdlog.Outcome.Ends.{Ends-mono, Ends-and_then, Ends-both, Ends-then_clean_total}
use libsdlog.Stream.{Env, OStreamSpec, ostream_flush, ostream_end_session}
use libsdlog.Stream.Sink.{at_env}
use libsdlog.Stream.Quiet.{QuietSink, Kept, Answers, Closes}
use libsdlog.Writer.{
  Writer, WriterState, on_stream, set_writer, writer_flush, writer_init, writer_end, writer_destroy,
}
use libsdlog.Writer.Calls.{after_entry, Halted}
use libsdlog.Writer.Each.{after_all, write_each, write_each-Reached}
use libsdlog.Writer.End.{closed_log, end_if, writer_end-eq, writer_end-Reached, freed}
use libsdlog.Writer.End.{writer_destroy_lem, writer_destroy-Destroyed, Destroyed}
use libsdlog.Writer.Known.{Ends-on_stream}
use libsdlog.Writer.Life.{new_log, InitFailed, writer_init-Reached}
use libsdlog.Writer.Opening.{Untouched, Kept-Ready, Kept-form}
use libsdlog.Writer.Ready.{Log, Ready, Reached, start}
use libsdlog.Writer.Session.{write_log, new_entries, Whole, Cut, write_log-Whole}
use libsdlog.Writer.Spec.{Entry, IsEntry, log}

open_after_all : (ns : List Entry) (a : Log) → a.session ≡ true → (after_all a ns).session ≡ true
open_after_all [] a h = h
open_after_all (n ∷ ns) a h = open_after_all ns (after_entry a n) refl

module _ {C : Type 0} {spec : OStreamSpec C} (q : QuietSink spec) (c : Closes q)
    (grant : ℕ → ℕ → Bool) where
  abbrev Any : Status → WriterState C → Type 0
  Any _ _ = Unit {0}

  end_step :
      (live : ℕ) (a : Log) (w : Writer) (e : Env C)
      → Ready q grant live a w e
      → c.Flushed (at_env spec e)
      → Ends
          (λ _ s. c.Ended s.out)
          Any
          ((on_stream ostream_end_session >> set_writer (record w { has_session = false }))
            (start q grant w e))
  end_step live a w e r f =
      Ends-and_then (λ _ s. (s.writer ≡ w) × c.Ended s.out) (λ status s. (s.writer ≡ w) × Unit {0})
        (λ _ s. c.Ended s.out) Any (on_stream ostream_end_session (start q grant w e)) _
        (Ends-on_stream w (λ _ s. c.Ended s) (λ _ _. Unit {0}) (ostream_end_session (at_env spec e))
          (c.ended e r.inv f))
        (λ _ s k. k.1) (λ _ _ _. tt)

  flush_step :
      (live : ℕ) (a : Log) (w : Writer) (e : Env C)
      → Ready q grant live a w e
      → Ends (λ _ s. c.Ended s.out) Any (end_if q grant true w (start q grant w e))
  unfolding writer_flush
  flush_step live a w e r =
      Ends-and_then (λ _ s. (s.writer ≡ w) × (Kept q.sink e s.out × c.Flushed s.out))
        (λ status s. (s.writer ≡ w) × (Answers q.sink e status s.out × Unit {0}))
        (λ _ s. c.Ended s.out) Any (on_stream ostream_flush (start q grant w e)) _
        (Ends-on_stream w (λ _ s. Kept q.sink e s × c.Flushed s)
          (λ status s. Answers q.sink e status s × Unit {0}) (ostream_flush (at_env spec e))
          (Ends-both (λ _ s. Kept q.sink e s) (λ _ s. c.Flushed s) (Answers q.sink e)
            (λ _ _. Unit {0}) (ostream_flush (at_env spec e)) (q.flushes e r.inv)
            (c.flushed e r.inv)))
        (λ _ s (is_w, (k, f)).
          rw (Kept-form q grant w e s is_w k)
            (end_step live a w k.env (Kept-Ready q grant live a w e s.out r k) (rw (← k.form) f)))
        (λ _ _ _. tt)

  -- `sdlog_writer_end` in a session flushes the stream and then ends its session.
  pub writer_end-Ended :
      (live : ℕ) (a : Log) (w : Writer) (e : Env C)
      → a.session ≡ true
      → Ready q grant live a w e
      → Ends
          (λ _ s. Reached q grant live (closed_log a) s × c.Ended s.out)
          (λ status s. Untouched q grant live a status s × Unit {0})
          (writer_end (start q grant w e))
  writer_end-Ended live a w e there r =
      Ends-both (λ _ s. Reached q grant live (closed_log a) s) (λ _ s. c.Ended s.out)
        (Untouched q grant live a) Any (writer_end (start q grant w e))
        (writer_end-Reached q grant live a w e r)
        (rw (writer_end-eq q grant true (start q grant w e) (r.session ∙ there))
          (flush_step live a w e r))

  -- A writer that stands for some log, after an error.
  abbrev InUse : ℕ → Status → WriterState C → Type 0
  InUse live status s = (a : Log) × Reached q grant live a s

  destroy_used :
      (live : ℕ) (status : Status) (s : WriterState C)
      → q.blocks ≤ live
      → InUse (live + 7) status s
      → Ends (λ _ _. Unit {0}) (λ _ _. ⊥) (writer_destroy s)
  destroy_used live status s owned (a, r) = rw r.form (
      Ends-mono (λ _ s'. Destroyed q grant live a.bytes s') (λ _ _. Unit {0}) (λ _ _. ⊥) (λ _ _. ⊥)
        (writer_destroy (start q grant r.writer r.env))
        (writer_destroy-Destroyed q grant live a r.writer r.env owned r.ready) (λ _ _ _. tt)
        (λ _ _ k. k))

  destroy_ended :
      (live : ℕ) (a : Log) (s : WriterState C)
      → Reached q grant (live + 7) (closed_log a) s
      → c.Ended s.out
      → Ends (λ _ s'. c.Ended s'.out) (λ _ _. ⊥) (writer_destroy s)
  destroy_ended live a s r h =
      rw (r.form, writer_destroy_lem q grant live (closed_log a) r.writer r.env refl r.ready)
        (c.moved r.env (freed q grant r.env) refl
          (subst (λ (t : WriterState C). c.Ended t.out) r.form h))

  module _ (to_float : ℕ → ℕ) (fuel : ℕ) (enough : 256 + q.patience ≤ fuel) where
    -- The calls between init and destroy, of which one opens the session.
    session_ended :
        (n : Entry) (ns : List Entry) (live : ℕ) (a : Log) (s : WriterState C)
        → All (IsEntry to_float) (n ∷ ns)
        → Reached q grant live a s
        → Ends
            (λ _ s'. Reached q grant live (closed_log (after_all a (n ∷ ns))) s' × c.Ended s'.out)
            (InUse live)
            ((write_each to_float fuel (n ∷ ns) >> writer_end) s)
    session_ended n ns live a s v r =
        let last = after_all a (n ∷ ns) in
        rw r.form (
          Ends-and_then (λ _ s'. Reached q grant live last s')
            (Halted q grant live a (log a.formats (n ∷ ns)))
            (λ _ s'. Reached q grant live (closed_log last) s' × c.Ended s'.out) (InUse live)
            (write_each to_float fuel (n ∷ ns) (start q grant r.writer r.env)) (λ _. writer_end)
            (write_each-Reached q grant to_float fuel enough (n ∷ ns) live a r.writer r.env v
              r.ready)
            (λ _ s' k. rw k.form (
              Ends-mono (λ _ s''. Reached q grant live (closed_log last) s'' × c.Ended s''.out)
                (λ _ s''. Reached q grant live (closed_log last) s'' × c.Ended s''.out)
                (λ status s''. Untouched q grant live last status s'' × Unit {0}) (InUse live)
                (writer_end (start q grant k.writer k.env))
                (writer_end-Ended live last k.writer k.env
                  (open_after_all ns (after_entry a n) refl) k.ready)
                (λ _ s'' h. h) (λ status s'' h. (last, h.0.1))))
            (λ status s' h. (h.left, h.reached)))

    some_log-Ended :
        (n : Entry) (ns : List Entry) (w : Writer) (e : Env C)
        → q.sink.Inv e
        → e.mem.grant ≡ grant
        → All (IsEntry to_float) (n ∷ ns)
        → Ends
            (λ _ s. c.Ended s.out)
            (λ _ _. Unit {0})
            (write_log to_float fuel (n ∷ ns) (start q grant w e))
    unfolding write_log
    some_log-Ended n ns w e inv g v =
        let live = e.mem.live in
        let a = new_log (q.sink.view e) in
        let last = after_all a (n ∷ ns) in
        Ends-and_then (λ _ s. Reached q grant (live + 7) a s) (InitFailed q grant e)
          (λ _ s. c.Ended s.out) Any (writer_init (start q grant w e)) _
          (writer_init-Reached q grant live w e inv g refl)
          (λ _ s r.
            Ends-then_clean_total
              (λ _ s'. Reached q grant (live + 7) (closed_log last) s' × c.Ended s'.out)
              (λ _ s'. c.Ended s'.out) (InUse (live + 7)) Any
              ((write_each to_float fuel (n ∷ ns) >> writer_end) s) writer_destroy
              (session_ended n ns (live + 7) a s v r)
              (λ _ s' (k, h). destroy_ended live last s' k h)
              (λ status s' h. destroy_used live status s' (q.owns e inv) h))
          (λ _ _ _. tt)

    -- A client that makes a writer, writes entries that the writer can serve, ends the session and
    -- destroys the writer, also after an error, on a stream that keeps its contract. If all calls succeed
    -- and there was an entry, the stream was flushed after the last write, and then its session was
    -- ended: what it promises of these two calls holds in the end. Nothing faults and all loops end.
    pub write_log-Ended :
        (ns : List Entry) (w : Writer) (e : Env C)
        → q.sink.Inv e
        → e.mem.grant ≡ grant
        → All (IsEntry to_float) ns
        → Ends
            (λ _ s. 0 < length ns → c.Ended s.out)
            (λ _ _. Unit {0})
            (write_log to_float fuel ns (start q grant w e))
    write_log-Ended [] w e inv g v =
        Ends-mono (λ _ s. Whole q grant e.mem.live (q.sink.view e) (new_entries []) s)
          (λ _ s. 0 < 0 → c.Ended s.out)
          (λ status s.
            InitFailed q grant e status s
            ⊎ Cut q grant e.mem.live (q.sink.view e) (new_entries []) status s)
          Any (write_log to_float fuel [] (start q grant w e))
          (write_log-Whole q grant to_float fuel enough [] w e inv g v)
          (λ _ s k h. absurd (omega arith)) (λ _ _ _. tt)
    write_log-Ended (n ∷ ns) w e inv g v =
        Ends-mono (λ _ s. c.Ended s.out) (λ _ s. 0 < length (n ∷ ns) → c.Ended s.out) Any Any
          (write_log to_float fuel (n ∷ ns) (start q grant w e)) (some_log-Ended n ns w e inv g v)
          (λ _ s k h. k) (λ _ _ _. tt)
