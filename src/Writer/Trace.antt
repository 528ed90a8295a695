-- ===== src/Writer/Trace.antt =====
-- core/writer.c: any sequence of calls of one writer, by a client that goes on after an error. Each
-- call is a step of the abstract log.
use mathlib.Core.Path.{subst}
use libsdlog.Prelude.{
  arith, ◌+◌, ◌-◌, ℕ, ◌≤◌, ◌≡◌, inl, refl, sym, Bool, List, [], ◌∷◌, ◌++◌, append-nil, length, take,
  All,
}
use libsdlog.Outcome.{Outcome, ok, fail, Status, Ends, Cmd}
use libsdlog.Outcome.Ends.{Ends-mono}
use libsdlog.Stream.{Env, OStreamSpec, ostream_flush}
use libsdlog.Stream.Quiet.{QuietSink}
use libsdlog.Writer.{
  Writer, WriterState, writer_write, writer_write_encoded, writer_flush, writer_end,
}
use libsdlog.Writer.Calls.{IsPrefix, Halted, after_call, after_entry, writer_write_va-Reached}
use libsdlog.Writer.Encoded.{message_size, writer_write_encoded-Reached}
use libsdlog.Writer.End.{closed_log, writer_end-Reached}
use libsdlog.Writer.Entries.{fmt_part}
use libsdlog.Writer.Opening.{Untouched, on_stream-Reached}
use libsdlog.Writer.Ready.{Log, LogFails, Ready, Reached, start}
use libsdlog.Writer.Spec.{Entry, IsEntry, added}

-- A call between init and destroy.
pub data Call : Type 0 where
  write : Entry → Call
  encoded : Entry → (message : List ℕ) → (size : ℕ) → Call
  flush : Call
  end : Call

-- The bytes that a call is to add, and the log behind it.
unfoldable pub said : Log → Call → List ℕ
said a (write n) = added a.formats n
said a (encoded n message size) = fmt_part a n ++ take (message_size n size) message
said a flush = []
said a end = []

unfoldable pub after : Log → Call → Log
after a (write n) = after_entry a n
after a (encoded n message size) = after_call a n (take (message_size n size) message)
after a flush = a
after a end = closed_log a

module _ {C : Type 0} (to_float : ℕ → ℕ) (fuel : ℕ) where
  unfoldable pub run_call : Call → Cmd (WriterState C) (Unit {0})
  run_call (write n) = writer_write to_float fuel n.ref n.args
  run_call (encoded n message size) = writer_write_encoded to_float fuel n.ref message size
  run_call flush = writer_flush
  run_call end = writer_end

  -- The results of all calls, and the state behind them.
  unfoldable pub run_all : List Call → WriterState C → List (Outcome (Unit {0})) × WriterState C
  run_all [] s = ([], s)
  run_all (c ∷ cs) s = let (r, s') = run_call c s in let (rs, s'') = run_all cs s' in (r ∷ rs, s'')

-- A call that the writer can serve; `room` bounds the length of messages that are encoded already.
unfoldable pub IsCall : (to_float : ℕ → ℕ) → (room : ℕ) → Call → Type 0
IsCall to_float room (write n) = IsEntry to_float n
IsCall to_float room (encoded n message size) =
    IsEntry to_float n × (message_size n size ≤ length message) × (message_size n size ≤ room)
IsCall to_float room flush = Unit
IsCall to_float room end = Unit

module _ {C : Type 0} {spec : OStreamSpec C} (q : QuietSink spec) (grant : ℕ → ℕ → Bool) where
  -- A call that succeeds adds all of its bytes. One that fails, with an error of the stream or because
  -- the allocator refused a request, adds a first part of them. No call has another result.
  pub data Answered (a : Log) (c : Call) : Outcome (Unit {0}) → Log → Type 0 where
    whole : Answered a c (ok tt) (after a c)
    cut :
        (status : Status) (part : List ℕ) (left : Log)
        → LogFails q grant status
        → IsPrefix part (said a c)
        → left.bytes ≡ a.bytes ++ part
        → Answered a c (fail status) left

  pub data Run : Log → List Call → List (Outcome (Unit {0})) → Log → Type 0 where
    stop : {a : Log} → Run a [] [] a
    step :
        {a b d : Log} {c : Call} {cs : List Call} {r : Outcome (Unit {0})}
        {rs : List (Outcome (Unit {0}))}
        → Answered a c r b
        → Run b cs rs d
        → Run a (c ∷ cs) (r ∷ rs) d

  Untouched-Halted :
      (live : ℕ) (a : Log) (bytes : List ℕ) (status : Status) (s : WriterState C)
      → Untouched q grant live a status s
      → Halted q grant live a bytes status s
  Untouched-Halted live a bytes status s (f, r) = record {
    code = inl f;
    part = [];
    is_part = (bytes, refl);
    left = a;
    seen = sym (append-nil a.bytes);
    reached = r;
  }

  -- The log behind a call, for its result.
  abbrev Moved : ℕ → Log → Call → Outcome (Unit {0}) × WriterState C → Type 0
  Moved live a c r = (b : Log) × Answered a c r.0 b × Reached q grant live b r.1

  Ends-Moved :
      (live : ℕ) (a : Log) (c : Call) (r : Outcome (Unit {0}) × WriterState C)
      → Ends (λ _ s. Reached q grant live (after a c) s) (Halted q grant live a (said a c)) r
      → Moved live a c r
  Ends-Moved live a c (ok u, s) h = (after a c, whole, h)
  Ends-Moved live a c (fail status, s) h =
      (h.left, cut status h.part h.left h.code h.is_part h.seen, h.reached)
  Ends-Moved live a c (Outcome.fault, s) h = absurd h
  Ends-Moved live a c (Outcome.out_of_fuel, s) h = absurd h

  module _ (to_float : ℕ → ℕ) (fuel : ℕ) (enough : 256 + q.patience ≤ fuel) where
    run_call-Moved :
        (c : Call) (live : ℕ) (a : Log) (w : Writer) (e : Env C)
        → IsCall to_float (fuel - q.patience) c
        → Ready q grant live a w e
        → Moved live a c (run_call to_float fuel c (start q grant w e))
    unfolding run_call IsCall said after writer_write writer_flush
    run_call-Moved (write n) live a w e v r =
        Ends-Moved live a (write n) (run_call to_float fuel (write n) (start q grant w e))
          (writer_write_va-Reached q grant to_float fuel enough n live a w e v r)
    run_call-Moved (encoded n message size) live a w e v r =
        Ends-Moved live a (encoded n message size)
          (run_call to_float fuel (encoded n message size) (start q grant w e))
          (writer_write_encoded-Reached q grant to_float fuel enough n message size live a w e v.0
            v.1 (omega (arith, v.2)) r)
    run_call-Moved flush live a w e v r =
        Ends-Moved live a flush (run_call to_float fuel flush (start q grant w e)) (
          Ends-mono (λ _ s. Reached q grant live a s) (λ _ s. Reached q grant live a s)
            (Untouched q grant live a) (Halted q grant live a []) (writer_flush (start q grant w e))
            (on_stream-Reached q grant ostream_flush live a w e r (q.flushes e r.inv)) (λ _ s k. k)
            (λ status s k. Untouched-Halted live a [] status s k))
    run_call-Moved end live a w e v r =
        Ends-Moved live a end (run_call to_float fuel end (start q grant w e)) (
          Ends-mono (λ _ s. Reached q grant live (closed_log a) s)
            (λ _ s. Reached q grant live (closed_log a) s) (Untouched q grant live a)
            (Halted q grant live a []) (writer_end (start q grant w e))
            (writer_end-Reached q grant live a w e r) (λ _ s k. k)
            (λ status s k. Untouched-Halted live a [] status s k))

    -- A writer that stands for a log, on a stream that keeps its contract, and any sequence of calls
    -- of write, write_encoded, flush and end that it can serve, by a client that goes on after errors:
    -- the writer stands for some log afterwards, which comes from the first one by a step for each
    -- call. A call that succeeds adds all of its bytes; one that fails does so with an error of the
    -- stream or ENOMEM, and adds a first part of them. Nothing faults, all loops end, and as many
    -- blocks are allocated as before. Messages that are encoded already are so long at most that the
    -- rounds of write_all, at least 256 and the `patience` of the stream, are enough for them.
    pub run_all-Run :
        (cs : List Call) (live : ℕ) (a : Log) (w : Writer) (e : Env C)
        → All (IsCall to_float (fuel - q.patience)) cs
        → Ready q grant live a w e
        → (d : Log) × Run a cs (run_all to_float fuel cs (start q grant w e)).0 d
          × Reached q grant live d (run_all to_float fuel cs (start q grant w e)).1
    unfolding run_all
    run_all-Run [] live a w e v r =
        (a, stop, record { writer = w; env = e; form = refl; ready = r })
    run_all-Run (c ∷ cs) live a w e v r =
        let (b, answered, k) = run_call-Moved c live a w e v.0 r in
        let (d, run, k') = run_all-Run cs live b k.writer k.env v.1 k.ready in
        subst
          (λ s.
            (d' : Log) × Run a (c ∷ cs)
              ((run_call to_float fuel c (start q grant w e)).0 ∷ (run_all to_float fuel cs s).0) d'
            × Reached q grant live d' (run_all to_float fuel cs s).1)
          (sym k.form) (d, step answered run, k')
