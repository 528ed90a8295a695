-- ===== src/Writer/End.antt =====
-- core/writer.c: the end of a session, and of a writer.
use libsdlog.Prelude.{
  ℕ, ◌+◌, ◌-◌, ◌≤◌, ◌≡◌, inl, inr, refl, ap, ◌∙◌, Bool, true, false, Bool-cases, List, arith,
  if◌then◌else◌, codes,
}
use libsdlog.Outcome.{Outcome, ok, fail, Ends, Cmd, pure, ◌>>◌, ◌>>=◌, and_then}
use libsdlog.Outcome.Ends.{Ends-and_then}
use libsdlog.Memory.{sdlog_free}
use libsdlog.Model.{message_format_destroy}
use libsdlog.Model.Invariant.{at}
use libsdlog.Model.Described.{Described-Holds}
use libsdlog.Model.Lifecycle.{type_array, destroy-Holds}
use libsdlog.Stream.{Env, OStreamSpec, ostream_flush, ostream_end_session}
use libsdlog.Stream.Sink.{at_env}
use libsdlog.Stream.Quiet.{QuietSink, Kept, Answers}
use libsdlog.Writer.{
  Writer, WriterState, zero_writer, set_writer, get_writer, on_stream, on_heap, on_format, ignore,
  code_dropped, writer_flush, writer_end, writer_destroy,
}
use libsdlog.Writer.Known.{Ends-on_stream}
use libsdlog.Writer.Ready.{Log, Ready, Reached, start}
use libsdlog.Writer.Opening.{Untouched, Kept-Ready, Kept-form, Kept-Reached, session_set}
use libsdlog.Writer.Spec.{fmt_columns}

abbrev pub closed_log : Log → Log
closed_log a = record a { session = false }

module _ {C : Type 0} {spec : OStreamSpec C} (q : QuietSink spec) (grant : ℕ → ℕ → Bool) where
  -- What `writer_end` does once it has read the flag.
  abbrev pub end_if : Bool → Writer → Cmd (WriterState C) (Unit {0})
  end_if b w =
      if b
      then (writer_flush
          >> (on_stream ostream_end_session >> set_writer (record w { has_session = false })))
      else pure tt

  pub writer_end-eq :
      (b : Bool) (s : WriterState C) → s.writer.has_session ≡ b → writer_end s ≡ end_if b s.writer s
  unfolding writer_end
  writer_end-eq b s h = ap (λ t. end_if t s.writer s) h

  shut-Ready :
      (live : ℕ) (a : Log) (w : Writer) (e : Env C)
      → w.has_session ≡ false
      → Ready q grant live a w e
      → Ready q grant live (closed_log a) w e
  shut-Ready live a w e h r = record {
    inv = r.inv;
    view = r.view;
    grants = r.grants;
    blocks = r.blocks;
    fmt = r.fmt;
    session = h;
    known = r.known;
    block = r.block;
    buf = r.buf;
    size = r.size;
  }

  -- `sdlog_ostream_end_session` behind the flush.
  end_step :
      (live : ℕ) (a : Log) (w : Writer) (e : Env C)
      → Ready q grant live a w e
      → Ends
          (λ _ s. Reached q grant live (closed_log a) s)
          (Untouched q grant live a)
          ((on_stream ostream_end_session >> set_writer (record w { has_session = false }))
            (start q grant w e))
  end_step live a w e r =
      Ends-and_then (λ _ s. (s.writer ≡ w) × Kept q.sink e s.out)
        (λ status s. (s.writer ≡ w) × Answers q.sink e status s.out)
        (λ _ s. Reached q grant live (closed_log a) s) (Untouched q grant live a)
        (on_stream ostream_end_session (start q grant w e)) _
        (Ends-on_stream w (λ _ s. Kept q.sink e s) (Answers q.sink e)
          (ostream_end_session (at_env spec e)) (q.ends e r.inv))
        (λ _ s (is_w, k). session_set q grant false live a w e s r k)
        (λ status s (is_w, f). (f.0, Kept-Reached q grant live a w e s r (is_w, f.1)))

  flush_step :
      (live : ℕ) (a : Log) (w : Writer) (e : Env C)
      → Ready q grant live a w e
      → Ends
          (λ _ s. Reached q grant live (closed_log a) s)
          (Untouched q grant live a)
          (end_if true w (start q grant w e))
  unfolding writer_flush
  flush_step live a w e r =
      Ends-and_then (λ _ s. (s.writer ≡ w) × Kept q.sink e s.out)
        (λ status s. (s.writer ≡ w) × Answers q.sink e status s.out)
        (λ _ s. Reached q grant live (closed_log a) s) (Untouched q grant live a)
        (on_stream ostream_flush (start q grant w e)) _
        (Ends-on_stream w (λ _ s. Kept q.sink e s) (Answers q.sink e)
          (ostream_flush (at_env spec e)) (q.flushes e r.inv))
        (λ _ s (is_w, k).
          rw (Kept-form q grant w e s is_w k)
            (end_step live a w k.env (Kept-Ready q grant live a w e s.out r k)))
        (λ status s (is_w, f). (f.0, Kept-Reached q grant live a w e s r (is_w, f.1)))

  -- `sdlog_writer_end` flushes the stream and ends its session if there is one; where that fails the
  -- session stays open.
  pub writer_end-Reached :
      (live : ℕ) (a : Log) (w : Writer) (e : Env C)
      → Ready q grant live a w e
      → Ends
          (λ _ s. Reached q grant live (closed_log a) s)
          (Untouched q grant live a)
          (writer_end (start q grant w e))
  writer_end-Reached live a w e r = elim (Bool-cases w.has_session) [
    | inl there ↦ rw (writer_end-eq true (start q grant w e) there) (flush_step live a w e r)
    | inr none_there ↦
        rw (writer_end-eq false (start q grant w e) none_there)
          (record { writer = w; env = e; form = refl; ready = shut-Ready live a w e none_there r })
  ]

  -- What is left of a writer: nothing, and the stream as it was.
  pub record Destroyed (live : ℕ) (bytes : List ℕ) (s : WriterState C) : Type 0 where
    pub cleared : s.writer ≡ zero_writer
    pub env : Env C
    pub form : s.out ≡ at_env spec env
    pub inv : q.sink.Inv env
    pub view : q.sink.view env ≡ bytes
    pub blocks : env.mem.live ≡ live

  -- The part of `writer_destroy` behind the end of the session.
  abbrev release : Cmd (WriterState C) (Unit {0})
  release = get_writer >>= λ w.
      on_format message_format_destroy w.fmt_message_format
      >> (on_heap (sdlog_free w.buf) >> set_writer zero_writer)

  -- The stream after seven blocks of the heap were freed.
  abbrev pub freed : Env C → Env C
  freed e = record e { mem = record e.mem { live = e.mem.live - 5 - 1 - 1 } }

  release_lem :
      (live : ℕ) (a : Log) (w : Writer) (e : Env C)
      → Ready q grant (live + 7) a w e
      → release (start q grant w e) ≡ (ok tt, start q grant zero_writer (freed e))
  unfolding sdlog_free
  release_lem live a w e r =
      rw
        (
          destroy-Holds e.mem.grant 128 (type_array (codes "FMT")) fmt_columns e.mem.live
              (at w.fmt_message_format e.mem)
              (Described-Holds e.mem r.fmt (omega (arith, r.blocks))),
          r.buf,
        )
        refl

  release_step :
      (live : ℕ) (a : Log) (w : Writer) (e : Env C)
      → q.blocks ≤ live
      → Ready q grant (live + 7) a w e
      → Ends (λ _ s. Destroyed live a.bytes s) (λ _ _. ⊥) (release (start q grant w e))
  release_step live a w e owned r = rw (release_lem live a w e r) (record {
    cleared = refl;
    env = freed e;
    form = refl;
    inv = q.moved e (freed e).mem r.inv refl (omega (arith, r.blocks));
    view = q.same_view e (freed e).mem ∙ r.view;
    blocks = omega (arith, r.blocks);
  })

  writer_destroy-eq :
      (b : Bool) (s : WriterState C)
      → s.writer.has_session ≡ b
      → writer_destroy s ≡ ((if b then ignore writer_end else pure tt) >> release) s
  unfolding writer_destroy
  writer_destroy-eq b s h = ap (λ t. ((if t then ignore writer_end else pure tt) >> release) s) h

  -- Without a session nothing is left to end.
  pub writer_destroy_lem :
      (live : ℕ) (a : Log) (w : Writer) (e : Env C)
      → a.session ≡ false
      → Ready q grant (live + 7) a w e
      → writer_destroy (start q grant w e) ≡ (ok tt, start q grant zero_writer (freed e))
  writer_destroy_lem live a w e none_there r =
      writer_destroy-eq false (start q grant w e) (r.session ∙ none_there)
      ∙ release_lem live a w e r

  -- With or without an error at the end of the session.
  released :
      (live : ℕ) (a : Log) (o : Outcome (Unit {0}) × WriterState C)
      → q.blocks ≤ live
      → Ends (λ _ s. Reached q grant (live + 7) (closed_log a) s) (Untouched q grant (live + 7) a) o
      → Ends (λ _ s. Destroyed live a.bytes s) (λ _ _. ⊥) (and_then (code_dropped o) (λ _. release))
  released live a (ok u, s) owned k =
      rw k.form (release_step live (closed_log a) k.writer k.env owned k.ready)
  released live a (fail status, s) owned (f, k) =
      rw k.form (release_step live a k.writer k.env owned k.ready)
  released live a (Outcome.fault, s) owned k = absurd k
  released live a (Outcome.out_of_fuel, s) owned k = absurd k

  -- `sdlog_writer_destroy` never fails: it frees the seven blocks of the writer and clears it, also if
  -- the stream refuses to end the session, and the stream holds what it held.
  pub writer_destroy-Destroyed :
      (live : ℕ) (a : Log) (w : Writer) (e : Env C)
      → q.blocks ≤ live
      → Ready q grant (live + 7) a w e
      → Ends (λ _ s. Destroyed live a.bytes s) (λ _ _. ⊥) (writer_destroy (start q grant w e))
  writer_destroy-Destroyed live a w e owned r = elim (Bool-cases w.has_session) [
    | inl there ↦ rw (writer_destroy-eq true (start q grant w e) there) (
        released live a (writer_end (start q grant w e)) owned
          (writer_end-Reached (live + 7) a w e r))
    | inr none_there ↦
        rw (writer_destroy-eq false (start q grant w e) none_there)
          (release_step live a w e owned r)
  ]
