-- ===== src/Stream/Pipe.antt =====
-- Pipes that do not block: they move as many bytes as there is room for, which may be none.
use libsdlog.Prelude.{
  ℕ, suc, ◌+◌, ◌≤◌, ◌<◌, ◌≡◌, ◌≢◌, refl, sym, min, true, none, Option, some, List, [], ◌∷◌, ◌++◌,
  length, take, drop, length-take, take-append-drop, arith, codes,
}
use libsdlog.Outcome.{ok, Status, success, eof, Cmd, Ends}
use libsdlog.Memory.{Mem, system}
use libsdlog.Stream.{
  Env, IStreamSpec, OStreamSpec, ostream_begin_session, ostream_flush, ostream_end_session,
}
use libsdlog.Stream.Quiet.{QuietSink, Kept, Answers}
use libsdlog.Stream.SlowSink as Sinks
use libsdlog.Stream.SlowSink.{SlowWrote, SlowSink}
use libsdlog.Stream.SlowSource.{SlowDelivered, SlowSource}

-- The room in each of the next calls, after which there is always enough, and the bytes in the pipe.
pub record Pipe : Type 0 where
  pub room : List ℕ
  pub bytes : List ℕ

abbrev pub moved : List ℕ → ℕ → ℕ
moved [] n = n
moved (k ∷ ks) n = min k n

abbrev pub next_room : List ℕ → List ℕ
next_room [] = []
next_room (k ∷ ks) = ks

pub moved-le : (room : List ℕ) (n : ℕ) → moved room n ≤ n
moved-le [] n = omega arith
moved-le (k ∷ ks) n = omega arith

pub room_waits :
    (room : List ℕ) (n k : ℕ)
    → 0 < k
    → length (next_room room) < min (moved room (suc n)) k + length room
room_waits [] n k h = omega arith
room_waits (r ∷ rs) n k h = omega arith

pub next_room-le : (room : List ℕ) → length (next_room room) ≤ length room
next_room-le [] = omega arith
next_room-le (k ∷ ks) = omega arith

-- At most three calls are bounded.
abbrev pub Patient : Env Pipe → Type 0
Patient e = length e.context.room ≤ 3

abbrev pub pipe_write : List ℕ → Cmd (Env Pipe) (Status × Option ℕ)
pipe_write data_bytes e =
    let n = moved e.context.room (length data_bytes) in
    (
      ok (success, some n),
      record e {
        context = record {
          room = next_room e.context.room;
          bytes = e.context.bytes ++ take n data_bytes;
        };
      },
    )

abbrev pub pipe_methods : OStreamSpec Pipe
pipe_methods = record {
  init = none;
  destroy = none;
  begin = none;
  write = some pipe_write;
  flush = none;
  end = none;
}

abbrev pub pipe_sink : SlowSink pipe_methods
pipe_sink = record {
  Inv = Patient;
  view = λ e. e.context.bytes;
  Fails = λ status. ⊥;
  fails_ne = λ status h. absurd h;
  waits = λ e. length e.context.room;
  write = pipe_write;
  has_write = refl;
  wrote = λ b bytes e i.
      SlowWrote.accepted _ _ refl (moved-le e.context.room (suc (length bytes)))
        (omega (
          arith,
          room_waits e.context.room (length bytes) (suc (length bytes)) (omega arith),
          moved-le e.context.room (suc (length bytes)),
        ))
        (omega (arith, i, next_room-le e.context.room)) refl;
}

pipe-Kept : (e : Env Pipe) → Patient e → Kept pipe_sink e (Sinks.at_env pipe_methods e)
pipe-Kept e i = record { env = e; form = refl; inv = i; seen = refl; live = refl; grant = refl }

pub pipe_begins :
    (e : Env Pipe)
    → Patient e
    → Ends
        (λ _ s. Kept pipe_sink e s)
        (Answers pipe_sink e)
        (ostream_begin_session (Sinks.at_env pipe_methods e))
unfolding ostream_begin_session
pipe_begins e i = pipe-Kept e i

pub pipe_flushes :
    (e : Env Pipe)
    → Patient e
    → Ends
        (λ _ s. Kept pipe_sink e s)
        (Answers pipe_sink e)
        (ostream_flush (Sinks.at_env pipe_methods e))
unfolding ostream_flush
pipe_flushes e i = pipe-Kept e i

pub pipe_ends :
    (e : Env Pipe)
    → Patient e
    → Ends
        (λ _ s. Kept pipe_sink e s)
        (Answers pipe_sink e)
        (ostream_end_session (Sinks.at_env pipe_methods e))
unfolding ostream_end_session
pipe_ends e i = pipe-Kept e i

-- The pipe owns no block.
abbrev pub quiet_pipe : QuietSink pipe_methods
quiet_pipe = record {
  sink = pipe_sink;
  blocks = 0;
  patience = 3;
  most_waits = λ e i. i;
  owns = λ e i. omega arith;
  moved = λ e m i g l. i;
  same_view = λ e m. refl;
  keeps = λ b bytes e i. (refl, refl);
  begins = pipe_begins;
  flushes = pipe_flushes;
  ends = pipe_ends;
}

abbrev pub pipe : List ℕ → List ℕ → Env Pipe
pipe room bytes = record {
  context = record { room = room; bytes = bytes };
  mem = record { build = system; grant = λ n k. true; calls = 0; live = 0 };
}

-- Two calls move nothing, one moves two bytes.
abbrev pub busy : Env Pipe
busy = pipe (0 ∷ 2 ∷ 0 ∷ []) (codes "x")

abbrev pub pipe_read : ℕ → Cmd (Env Pipe) (Status × Option (List ℕ))
pipe_read n e = elim e.context.bytes [
  | [] ↦ (ok (eof, some []), e)
  | b ∷ bytes ↦
      let k = moved e.context.room n in
      (
        ok (success, some (take k (b ∷ bytes))),
        record e {
          context = record { room = next_room e.context.room; bytes = drop k (b ∷ bytes) };
        },
      )
]

abbrev pub pipe_in : IStreamSpec Pipe
pipe_in = record { init = none; destroy = none; read = some pipe_read }

abbrev pub AtEnd : Status → Env Pipe → Type 0
AtEnd status e = (status ≡ eof) × (e.context.bytes ≡ [])

pub AtEnd-ne : (status : Status) (e : Env Pipe) → AtEnd status e → status ≢ success
AtEnd-ne status e h k = cc

pub pipe_reads :
    (n : ℕ) (room bytes : List ℕ) (m : Mem)
    → SlowDelivered
        (λ e. Unit {0})
        (λ e. e.context.bytes)
        AtEnd
        (λ e. length e.context.room)
        (suc n)
        (record { context = record { room = room; bytes = bytes }; mem = m })
        (pipe_read (suc n) (record { context = record { room = room; bytes = bytes }; mem = m }))
pipe_reads n room [] m = SlowDelivered.failed eof (some []) [] _ refl (refl, refl) tt refl
pipe_reads n room (b ∷ bytes) m =
    let k = moved room (suc n) in
    let l = length-take k (b ∷ bytes) in
    SlowDelivered.delivered (take k (b ∷ bytes)) _ refl (omega (arith, l, moved-le room (suc n)))
      (omega (arith, l, room_waits room n (suc (length bytes)) (omega arith))) tt
      (sym (take-append-drop k (b ∷ bytes)))

abbrev pub pipe_source : SlowSource pipe_in
pipe_source = record {
  Inv = λ e. Unit;
  rest = λ e. e.context.bytes;
  Fails = AtEnd;
  fails_ne = AtEnd-ne;
  waits = λ e. length e.context.room;
  read = pipe_read;
  has_read = refl;
  reads = λ n e i. pipe_reads n e.context.room e.context.bytes e.mem;
}
