-- ===== src/Writer/Runs.antt =====
-- Whole logs of core/writer.c, over a growing buffer and a pipe.
use libsdlog.Prelude.{
  ℕ, ◌≡◌, ◌⊎◌, refl, replicate, Bool, true, List, [], ◌∷◌, ◌++◌, All, codes, arith, some,
}
use libsdlog.Outcome.{ok, enomem, Ends}
use libsdlog.Memory.{empty_block}
use libsdlog.Model.Invariant.{IsValidColumn, built, at}
use libsdlog.Model.{Format, get_size_of_column_type, message_column_format_get_size}
use libsdlog.Model.Lifecycle.{type_array}
use libsdlog.Model.Size.{total_size}
use libsdlog.Model.StringLaws.{join}
use libsdlog.Encoder.Tests.{to_float, fields}
use libsdlog.Stream.{closed}
use libsdlog.Stream.Pipe.{Pipe, busy, quiet_pipe}
use libsdlog.Buffer.{OStreamContext}
use libsdlog.Buffer.Quiet.{quiet_buffer}
use libsdlog.Buffer.Tests as Buffers
use libsdlog.Writer.{Writer, WriterState, zero_writer, writer_write_va, writer_write_encoded}
use libsdlog.Writer.Calls.{after_entry, Halted}
use libsdlog.Writer.Encoded.{SameEffect, writer_write_encoded-agrees}
use libsdlog.Writer.Buffered.{Shown, log_in_buffer, log_in_buffer-Shown}
use libsdlog.Writer.Life.{new_log, InitFailed}
use libsdlog.Writer.Ready.{Log, Ready, Reached, start}
use libsdlog.Writer.Samples.{sized, entry, entries, entry-IsEntry, entries-IsEntry}
use libsdlog.Writer.ReadOne.{IsReadable}
use libsdlog.Writer.Session.{
  write_log, new_entries, Whole, Cut, write_log-Whole, write_log-succeeds,
}
use libsdlog.Writer.Trace.{Call, write, flush, end, encoded, IsCall, Run, run_all, run_all-Run}
use libsdlog.Writer.Spec.{fmt_columns, log, added, fmt_record, data_record}

-- Over a buffer that holds two bytes.
write_log-Whole_example :
    Ends
      (λ _ s. Whole quiet_buffer Buffers.grants 4 (7 ∷ 8 ∷ []) (new_entries entries) s)
      (λ status s.
        InitFailed quiet_buffer Buffers.grants Buffers.two status s
        ⊎ Cut quiet_buffer Buffers.grants 4 (7 ∷ 8 ∷ []) (new_entries entries) status s)
      (write_log to_float 256 entries (start quiet_buffer Buffers.grants zero_writer Buffers.two))
write_log-Whole_example =
    write_log-Whole quiet_buffer Buffers.grants to_float 256 (omega arith) entries zero_writer
      Buffers.two Buffers.two-IsValid refl entries-IsEntry

abbrev pub grants_all : ℕ → ℕ → Bool
grants_all n k = true

-- Over a pipe that does not block: the first calls of write move 0, 2 and 0 bytes.
write_log-succeeds_example :
    (s : WriterState Pipe) × (write_log to_float 259 entries
        (start quiet_pipe grants_all zero_writer busy)
      ≡ (ok tt, s))
    × Whole quiet_pipe grants_all 0 (codes "x") (new_entries entries) s
write_log-succeeds_example =
    write_log-succeeds quiet_pipe grants_all to_float 259 (omega arith) entries zero_writer busy
      (omega arith) refl entries-IsEntry (λ status h. absurd h) (λ n k. refl)

-- A writer that was never set up, on a stream that is not open.
abbrev pub nothing : WriterState OStreamContext
nothing = record { writer = zero_writer; out = closed (Buffers.heap 0) }

log_in_buffer-Shown_example :
    Ends
      (λ seen s. Shown (new_entries entries) 0 seen s)
      (λ status _. status ≡ enomem)
      (log_in_buffer to_float 256 entries nothing)
log_in_buffer-Shown_example =
    log_in_buffer-Shown to_float 256 (omega arith) entries nothing (Buffers.heap-BoundedGrants 0)
      entries-IsEntry

-- The first of the two records stands behind its FMT record, the second does not.
abbrev record_bytes : List ℕ
record_bytes = 0xA3 ∷ 0x95 ∷ 5 ∷ fields

log_of_two :
    new_entries entries
    ≡ (0xA3 ∷ 0x95 ∷ 128 ∷ 5 ∷ 15 ∷ [])
      ++ ((codes "GPS" ++ (0 ∷ []))
          ++ ((codes "Qf" ++ replicate 14 0)
              ++ ((codes "t,alt" ++ replicate 59 0) ++ (record_bytes ++ record_bytes))))
unfolding log added fmt_record data_record total_size message_column_format_get_size
    get_size_of_column_type join
log_of_two = refl

-- A writer as `sdlog_writer_init` leaves it, with a log of two bytes.
abbrev fmt_format : Format
fmt_format = (at (built 128 (type_array (codes "FMT")) 8 fmt_columns) (Buffers.heap 9)).format

fmt_columns-IsValidColumn : All IsValidColumn fmt_columns
unfolding get_size_of_column_type
fmt_columns-IsValidColumn = (
  (sized 0, refl),
  ((sized 0, refl), ((sized 3, refl), ((sized 15, refl), ((sized 63, refl), tt)))),
)

abbrev writer : Writer
writer = record zero_writer { fmt_message_format = fmt_format; buf = some (empty_block 256) }

abbrev two_bytes : Log
two_bytes = new_log (7 ∷ 8 ∷ [])

writer-Ready : Ready quiet_buffer Buffers.grants 4 two_bytes writer Buffers.two
writer-Ready = record {
  inv = Buffers.two-IsValid;
  view = refl;
  grants = refl;
  blocks = refl;
  fmt = record {
    alloc = 8;
    form = refl;
    fits = omega arith;
    grown = omega arith;
    valid = fmt_columns-IsValidColumn;
  };
  session = refl;
  known = λ i. refl;
  block = empty_block 256;
  buf = refl;
  size = refl;
}

writer_write_encoded-agrees_example :
    SameEffect
      (writer_write_encoded to_float 256 entry.ref
        (data_record entry ++ (1 ∷ []))
        0
        (start quiet_buffer Buffers.grants writer Buffers.two))
      (writer_write_va to_float 256 entry.ref entry.args
        (start quiet_buffer Buffers.grants writer Buffers.two))
    × Ends
        (λ _ s. Reached quiet_buffer Buffers.grants 4 (after_entry two_bytes entry) s)
        (Halted quiet_buffer Buffers.grants 4 two_bytes (added (λ _. 0) entry))
        (writer_write_encoded to_float 256 entry.ref
          (data_record entry ++ (1 ∷ []))
          0
          (start quiet_buffer Buffers.grants writer Buffers.two))
writer_write_encoded-agrees_example =
    writer_write_encoded-agrees quiet_buffer Buffers.grants to_float 256 (omega arith) entry
      (1 ∷ []) 4 two_bytes writer Buffers.two entry-IsEntry writer-Ready

-- The format at each address has the columns of the sample.
abbrev pub types_at : ℕ → List ℕ
types_at address = codes "Qf"

pub entry-IsReadable : IsReadable types_at entry
entry-IsReadable = record {
  there = λ e. absurd (omega (arith, e));
  byte = omega arith;
  not_fmt = refl;
  few = omega arith;
  constant = refl;
  texts = (tt, (tt, tt));
}

-- A session, and a second one with a record that is encoded already.
abbrev calls : List Call
calls = write entry ∷ flush ∷ end ∷ encoded entry (data_record entry) 15 ∷ []

calls-IsCall : All (IsCall to_float 256) calls
unfolding IsCall data_record
calls-IsCall = (entry-IsEntry, (tt, (tt, ((entry-IsEntry, omega arith, omega arith), tt))))

run_all-Run_example :
    (d : Log) × Run quiet_buffer Buffers.grants two_bytes calls
      (run_all to_float 256 calls (start quiet_buffer Buffers.grants writer Buffers.two)).0
      d
    × Reached quiet_buffer Buffers.grants 4 d
        (run_all to_float 256 calls (start quiet_buffer Buffers.grants writer Buffers.two)).1
run_all-Run_example =
    run_all-Run quiet_buffer Buffers.grants to_float 256 (omega arith) calls 4 two_bytes writer
      Buffers.two calls-IsCall writer-Ready
