-- ===== src/Writer/Life.antt =====
-- core/writer.c: `sdlog_writer_init`, against an abstract log.
use mathlib.Core.Path.{subst}
use libsdlog.Prelude.{
  ℕ, ◌+◌, ◌≤◌, ◌≡◌, inl, inr, refl, ap, sym, ◌∙◌, Bool, false, Bool-cases, some, List, codes, arith,
}
use libsdlog.Outcome.{
  Outcome, ok, fail, Status, enomem, Ends, pure, ◌>>◌, and_then, check_oom, ◌>>=◌,
}
use libsdlog.Outcome.Ends.{Ends-and_then}
use libsdlog.Memory.{Mem, empty_block, sdlog_malloc}
use libsdlog.Model.{Format, FormatState, zero_format, max_message_length}
use libsdlog.Model.Invariant.{at}
use libsdlog.Model.AddColumn.{Refused, Holds}
use libsdlog.Model.Described.{Described, Holds-Described}
use libsdlog.Model.Lifecycle.{type_array}
use libsdlog.Stream.{Env, OStreamSpec}
use libsdlog.Stream.Sink.{at_env}
use libsdlog.Stream.Quiet.{QuietSink}
use libsdlog.Writer.{Writer, WriterState, zero_writer, set_writer, on_heap, on_format, writer_init}
use libsdlog.Writer.Ready.{Log, Reached, start}
use libsdlog.Writer.Spec.{fmt_columns}
use libsdlog.Writer.FmtFormat.{make_fmt, FmtRefused, make_fmt-Holds}

-- The log of a new writer on a stream that holds `bytes`.
abbrev pub new_log : List ℕ → Log
new_log bytes = record { session = false; formats = λ _. 0; bytes = bytes }

module _ {C : Type 0} (spec : OStreamSpec C) where
  -- A writer on a stream.
  abbrev pub on : Writer → Env C → WriterState C
  on w e = record { writer = w; out = at_env spec e }

  -- A command of a format, as `on_format` puts it back.
  abbrev put_format :
      Writer → Env C → Outcome (Unit {0}) × FormatState → Outcome Format × WriterState C
  put_format w e r = and_then (r.0, on w (record e { mem = r.1.mem })) (λ _. pure r.1.format)

  pub Ends-put_format :
      (Q : FormatState → Type 0) (E : Status → FormatState → Type 0) (w : Writer) (e : Env C)
      (r : Outcome (Unit {0}) × FormatState)
      → Ends (λ _ t. Q t) E r
      → Ends
          (λ f s. (m : Mem) × (s ≡ on w (record e { mem = m })) × Q (at f m))
          (λ status s. (t : FormatState) × (s ≡ on w (record e { mem = t.mem })) × E status t)
          (put_format w e r)
  Ends-put_format Q E w e (ok a, t) h = (t.mem, refl, h)
  Ends-put_format Q E w e (fail status, t) h = (t, refl, h)
  Ends-put_format Q E w e (Outcome.fault, t) h = absurd h
  Ends-put_format Q E w e (Outcome.out_of_fuel, t) h = absurd h

module _ {C : Type 0} {spec : OStreamSpec C} (q : QuietSink spec) (grant : ℕ → ℕ → Bool) where
  -- `sdlog_writer_init` failed: the stream is as it was.
  abbrev pub InitFailed : Env C → Status → WriterState C → Type 0
  InitFailed e status s =
      (status ≡ enomem)
      × Refused grant
      × ((e' : Env C) × (s.out ≡ at_env spec e') × q.sink.Inv e' × (q.sink.view e' ≡ q.sink.view e))

  -- The buffer of a writer whose format is made.
  buffer_step :
      (live : ℕ) (e : Env C) (m : Mem) (f : Format)
      → q.sink.Inv e
      → e.mem.grant ≡ grant
      → m.grant ≡ grant
      → m.live ≡ live + 6
      → q.blocks ≤ live
      → Described 128 (type_array (codes "FMT")) fmt_columns f
      → Ends
          (λ _ s. Reached q grant (live + 7) (new_log (q.sink.view e)) s)
          (InitFailed e)
          ((on_heap (sdlog_malloc max_message_length) >>= λ granted.
              check_oom granted
              >> set_writer (record zero_writer {
                fmt_message_format = f;
                buf = some (empty_block max_message_length);
              }))
            (start q grant (record zero_writer { fmt_message_format = f }) (record e { mem = m })))
  unfolding sdlog_malloc
  buffer_step live e m f inv g g' l owned d = elim (Bool-cases (m.grant m.calls 256)) [
    | inr denied ↦ rw denied (
      refl,
      (m.calls, 256, ap (λ h. h m.calls 256) (sym g') ∙ denied),
      (
        record e { mem = record m { calls = m.calls + 1 } },
        refl,
        q.moved e (record m { calls = m.calls + 1 }) inv (g' ∙ sym g) (omega arith),
        q.same_view e (record m { calls = m.calls + 1 }),
      ),
    )
    | inl granted ↦
        let m' : Mem = record m { calls = m.calls + 1; live = m.live + 1 } in
        rw granted (record {
          writer = record zero_writer {
            fmt_message_format = f;
            buf = some (empty_block max_message_length);
          };
          env = record e { mem = m' };
          form = refl;
          ready = record {
            inv = q.moved e m' inv (g' ∙ sym g) (omega arith);
            view = q.same_view e m';
            grants = g';
            blocks = omega arith;
            fmt = d;
            session = refl;
            known = λ i. refl;
            block = empty_block max_message_length;
            buf = refl;
            size = refl;
          };
        })
  ]

  -- `sdlog_writer_init` makes a writer without a session that knows no format, in seven new blocks; on
  -- an error, which is a refusal of the allocator, the stream holds what it held.
  pub writer_init-Reached :
      (live : ℕ) (w : Writer) (e : Env C)
      → q.sink.Inv e
      → e.mem.grant ≡ grant
      → e.mem.live ≡ live
      → Ends
          (λ _ s. Reached q grant (live + 7) (new_log (q.sink.view e)) s)
          (InitFailed e)
          (writer_init (start q grant w e))
  unfolding writer_init
  writer_init-Reached live w e inv g l =
      let owned : q.blocks ≤ live = omega (arith, q.owns e inv) in
      Ends-and_then
        (λ f s.
          (m : Mem) × (s ≡ start q grant w (record e { mem = m }))
          × Holds e.mem.grant 128 (type_array (codes "FMT")) fmt_columns (e.mem.live + 6) (at f m))
        (λ status s.
          (t : FormatState) × (s ≡ start q grant w (record e { mem = t.mem }))
          × FmtRefused e.mem status t)
        (λ _ s. Reached q grant (live + 7) (new_log (q.sink.view e)) s) (InitFailed e)
        (on_format make_fmt zero_format (start q grant w e)) _
        (Ends-put_format spec
          (λ t. Holds e.mem.grant 128 (type_array (codes "FMT")) fmt_columns (e.mem.live + 6) t)
          (FmtRefused e.mem) w e (make_fmt (at zero_format e.mem)) (make_fmt-Holds e.mem))
        (λ f s (m, is_s, h). rw is_s (
          buffer_step live e m f inv g (h.oracle ∙ g) (omega (arith, h.blocks)) owned
            (Holds-Described h)))
        (λ status s (t, is_s, r). (
          r.0,
          subst Refused g r.1,
          (
            record e { mem = t.mem },
            ap (λ (s' : WriterState C). s'.out) is_s,
            q.moved e t.mem inv r.2 (omega (arith, r.3.2)),
            q.same_view e t.mem,
          ),
        ))
