-- ===== src/Buffer/Quiet.antt =====
-- The growing buffer of io/buffer.c shares the heap with its user: it owns two blocks.
use libsdlog.Prelude.{ℕ, ◌≤◌, ◌≡◌, refl, sym, ap, ◌∙◌, List, ◌∷◌, arith}
use libsdlog.Outcome.{Ends}
use libsdlog.Memory.{Mem}
use libsdlog.Stream.{Env, ostream_begin_session, ostream_end_session, ostream_flush}
use libsdlog.Stream.Quiet.{QuietSink, Kept, Answers}
use libsdlog.Stream.Sink.{at_env, slow}
use libsdlog.Stream.SlowSink.{SlowSink}
use libsdlog.Buffer.{OStreamContext, buffer_write, ostream_buffer_methods}
use libsdlog.Buffer.Growing.{IsValid}
use libsdlog.Buffer.Output.{written, no_memory, buffer_sink, buffer_write-BufferWritten}

pub moved-IsValid :
    (e : Env OStreamContext) (m : Mem)
    → IsValid e
    → m.grant ≡ e.mem.grant
    → 2 ≤ m.live
    → IsValid (record e { mem = m })
moved-IsValid e m v g l = record {
  fits = v.fits;
  least = v.least;
  most = v.most;
  owned = l;
  bounded = λ n k granted. v.bounded n k (sym (ap (λ h. h n k) g) ∙ granted);
}

pub keeps-heap :
    (bytes : List ℕ) (e : Env OStreamContext)
    → IsValid e
    → ((buffer_write bytes e).1.mem.live ≡ e.mem.live)
      × ((buffer_write bytes e).1.mem.grant ≡ e.mem.grant)
keeps-heap bytes e v = elim (buffer_write-BufferWritten bytes e v) [
  | written e' eq v' c l ↦
      (ap (λ r. r.1.mem.live) eq ∙ l.live, ap (λ r. r.1.mem.grant) eq ∙ l.grant)
  | no_memory e' eq v' c l x ↦
      (ap (λ r. r.1.mem.live) eq ∙ l.live, ap (λ r. r.1.mem.grant) eq ∙ l.grant)
]

abbrev pub slow_buffer : SlowSink ostream_buffer_methods
slow_buffer = slow ostream_buffer_methods buffer_sink

-- It has no other methods than `write` and `destroy`.
same-Kept :
    (e : Env OStreamContext) → IsValid e → Kept slow_buffer e (at_env ostream_buffer_methods e)
same-Kept e v = record { env = e; form = refl; inv = v; seen = refl; live = refl; grant = refl }

pub begin_session-Kept :
    (e : Env OStreamContext)
    → IsValid e
    → Ends
        (λ _ s. Kept slow_buffer e s)
        (Answers slow_buffer e)
        (ostream_begin_session (at_env ostream_buffer_methods e))
unfolding ostream_begin_session
begin_session-Kept e v = same-Kept e v

pub flush-Kept :
    (e : Env OStreamContext)
    → IsValid e
    → Ends
        (λ _ s. Kept slow_buffer e s)
        (Answers slow_buffer e)
        (ostream_flush (at_env ostream_buffer_methods e))
unfolding ostream_flush
flush-Kept e v = same-Kept e v

pub end_session-Kept :
    (e : Env OStreamContext)
    → IsValid e
    → Ends
        (λ _ s. Kept slow_buffer e s)
        (Answers slow_buffer e)
        (ostream_end_session (at_env ostream_buffer_methods e))
unfolding ostream_end_session
end_session-Kept e v = same-Kept e v

abbrev pub quiet_buffer : QuietSink ostream_buffer_methods
quiet_buffer = record {
  sink = slow_buffer;
  blocks = 2;
  patience = 0;
  most_waits = λ e v. omega arith;
  owns = λ e v. v.owned;
  moved = moved-IsValid;
  same_view = λ e m. refl;
  keeps = λ b bytes e v. keeps-heap (b ∷ bytes) e v;
  begins = begin_session-Kept;
  flushes = flush-Kept;
  ends = end_session-Kept;
}
