-- ===== src/Writer/Opening.antt =====
-- core/writer.c: calls of the stream that are no writes, and `ensure_session_started`.
use libsdlog.Prelude.{
  ℕ, ◌≡◌, inl, inr, refl, ap, ap₂, ◌∙◌, Bool, true, false, Bool-cases, if◌then◌else◌, not,
}
use libsdlog.Outcome.{Cmd, Status, Ends, pure, ◌>>◌}
use libsdlog.Outcome.Ends.{Ends-mono, Ends-and_then}
use libsdlog.Stream.{Env, OState, OStreamSpec, ostream_begin_session}
use libsdlog.Stream.Sink.{at_env}
use libsdlog.Stream.Quiet.{QuietSink, Kept, Answers}
use libsdlog.Writer.{Writer, WriterState, set_writer, on_stream, ensure_session_started}
use libsdlog.Writer.Formats.{in_session}
use libsdlog.Writer.Known.{Ends-on_stream}
use libsdlog.Writer.Ready.{Log, Ready, Reached, start}

-- The log with the session open.
abbrev pub opened_log : Log → Log
opened_log a = record a { session = true }

module _ {C : Type 0} {spec : OStreamSpec C} (q : QuietSink spec) (grant : ℕ → ℕ → Bool) where
  -- The stream after a call that is no write.
  pub Kept-Ready :
      (live : ℕ) (a : Log) (w : Writer) (e : Env C) (s : OState C) (r : Ready q grant live a w e)
      (k : Kept q.sink e s)
      → Ready q grant live a w k.env
  Kept-Ready live a w e s r k = record {
    inv = k.inv;
    view = k.seen ∙ r.view;
    grants = k.grant ∙ r.grants;
    blocks = k.live ∙ r.blocks;
    fmt = r.fmt;
    session = r.session;
    known = r.known;
    block = r.block;
    buf = r.buf;
    size = r.size;
  }

  pub session-Ready :
      (b : Bool) (live : ℕ) (a : Log) (w : Writer) (e : Env C)
      → Ready q grant live a w e
      → Ready q grant live (record a { session = b }) (record w { has_session = b }) e
  session-Ready b live a w e r = record {
    inv = r.inv;
    view = r.view;
    grants = r.grants;
    blocks = r.blocks;
    fmt = r.fmt;
    session = refl;
    known = r.known;
    block = r.block;
    buf = r.buf;
    size = r.size;
  }

  -- An error of the stream, that changed nothing.
  abbrev pub Untouched : ℕ → Log → Status → WriterState C → Type 0
  Untouched live a status s = q.sink.Fails status × Reached q grant live a s

  pub Kept-form :
      (w : Writer) (e : Env C) (s : WriterState C)
      → s.writer ≡ w
      → (k : Kept q.sink e s.out) → s ≡ start q grant w k.env
  Kept-form w e s is_w k = ap₂ (λ w' out. record { writer = w'; out = out }) is_w k.form

  pub Kept-Reached :
      (live : ℕ) (a : Log) (w : Writer) (e : Env C) (s : WriterState C)
      → Ready q grant live a w e
      → (s.writer ≡ w) × Kept q.sink e s.out
      → Reached q grant live a s
  Kept-Reached live a w e s r (is_w, k) = record {
    writer = w;
    env = k.env;
    form = Kept-form w e s is_w k;
    ready = Kept-Ready live a w e s.out r k;
  }

  -- A call of the stream alone.
  pub on_stream-Reached :
      (m : Cmd (OState C) (Unit {0})) (live : ℕ) (a : Log) (w : Writer) (e : Env C)
      → Ready q grant live a w e
      → Ends (λ _ s. Kept q.sink e s) (Answers q.sink e) (m (at_env spec e))
      → Ends (λ _ s. Reached q grant live a s) (Untouched live a) (on_stream m (start q grant w e))
  on_stream-Reached m live a w e r h =
      Ends-mono (λ _ s. (s.writer ≡ w) × Kept q.sink e s.out) (λ _ s. Reached q grant live a s)
        (λ status s. (s.writer ≡ w) × Answers q.sink e status s.out) (Untouched live a)
        (on_stream m (start q grant w e))
        (Ends-on_stream w (λ _ s. Kept q.sink e s) (Answers q.sink e) (m (at_env spec e)) h)
        (λ _ s k. Kept-Reached live a w e s r k)
        (λ status s (is_w, f). (f.0, Kept-Reached live a w e s r (is_w, f.1)))

  -- The flag is set behind such a call.
  pub session_set :
      (b : Bool) (live : ℕ) (a : Log) (w : Writer) (e : Env C) (s : WriterState C)
      → Ready q grant live a w e
      → Kept q.sink e s.out
      → Reached q grant live
          (record a { session = b })
          (record s { writer = record w { has_session = b } })
  session_set b live a w e s r k = record {
    writer = record w { has_session = b };
    env = k.env;
    form = ap (λ out. record { writer = record w { has_session = b }; out = out }) k.form;
    ready = session-Ready b live a w k.env (Kept-Ready live a w e s.out r k);
  }

  already-Ready :
      (live : ℕ) (a : Log) (w : Writer) (e : Env C)
      → w.has_session ≡ true
      → Ready q grant live a w e
      → Ready q grant live (opened_log a) w e
  already-Ready live a w e h r = record {
    inv = r.inv;
    view = r.view;
    grants = r.grants;
    blocks = r.blocks;
    fmt = r.fmt;
    session = h;
    known = r.known;
    block = r.block;
    buf = r.buf;
    size = r.size;
  }

  begins_session :
      (s : WriterState C)
      → s.writer.has_session ≡ false
      → ensure_session_started s
        ≡ ◌>>◌ {A = Unit {0}}
            (on_stream ostream_begin_session)
            (set_writer (record s.writer { has_session = true }))
            s
  unfolding ensure_session_started
  begins_session s h =
      ap
        (λ t.
          (if not t
              then ◌>>◌ {A = Unit {0}} (on_stream ostream_begin_session)
                  (set_writer (record s.writer { has_session = true }))
              else pure tt)
            s)
        h

  pub ensure_session_started-Reached :
      (live : ℕ) (a : Log) (w : Writer) (e : Env C)
      → Ready q grant live a w e
      → Ends
          (λ _ s. Reached q grant live (opened_log a) s)
          (Untouched live a)
          (ensure_session_started (start q grant w e))
  ensure_session_started-Reached live a w e r = elim (Bool-cases w.has_session) [
    | inl open_already ↦ rw (in_session (start q grant w e) open_already) (record {
      writer = w;
      env = e;
      form = refl;
      ready = already-Ready live a w e open_already r;
    })
    | inr shut ↦ rw (begins_session (start q grant w e) shut) (
        Ends-and_then (λ _ s. (s.writer ≡ w) × Kept q.sink e s.out)
          (λ status s. (s.writer ≡ w) × Answers q.sink e status s.out)
          (λ _ s. Reached q grant live (opened_log a) s) (Untouched live a)
          (on_stream ostream_begin_session (start q grant w e)) _
          (Ends-on_stream w (λ _ s. Kept q.sink e s) (Answers q.sink e)
            (ostream_begin_session (at_env spec e)) (q.begins e r.inv))
          (λ _ s (is_w, k). session_set true live a w e s r k)
          (λ status s (is_w, f). (f.0, Kept-Reached live a w e s r (is_w, f.1))))
  ]
