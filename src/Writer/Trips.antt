-- ===== src/Writer/Trips.antt =====
-- Whole programs around core/writer.c, on the data of the other runs.
use libsdlog.Prelude.{
  ℕ, ◌+◌, ◌≡◌, ◌⊎◌, length, refl, List, [], ◌∷◌, arith, Bool, false, Option, none, some, ◌==◌, not,
}
use libsdlog.Outcome.{enomem, ewrite, eread, Ends}
use libsdlog.Memory.{system, sdlog_realloc, sdlog_malloc, sdlog_free}
use libsdlog.Model.{
  c_string, message_format_init, message_format_destroy, message_format_get_size,
  message_column_format_get_size, get_size_of_column_type,
}
use libsdlog.Model.Extend.{message_format_add_columns}
use libsdlog.Model.Size.{total_size}
use libsdlog.Model.StringLaws.{join}
use libsdlog.Model.Strings.{message_format_get_column_names, message_format_get_format_string}
use libsdlog.Encoder.{message_format_encode}
use libsdlog.Encoder.Tests.{to_float}
use libsdlog.Stream.{
  closed, Env, ostream_begin_session, ostream_end_session, ostream_flush, ostream_write_all,
}
use libsdlog.Buffer.{OStreamContext, ostream_buffer_methods}
use libsdlog.Buffer.Tests as Buffers
use libsdlog.File.{FileContext, ostream_init_file, file_write, file_flush}
use libsdlog.Writer.{
  WriterState, zero_writer, writer_init, writer_write, writer_write_va, writer_flush, writer_end,
  writer_destroy, ensure_session_started, write_format_if_needed, write_format, write_with_names,
  write_texts, write_record, write_record_va, encode_to_buf,
}
use libsdlog.Writer.Each.{write_each}
use libsdlog.Writer.Spec.{log, added, fmt_record, data_record}
use libsdlog.File.Tests as Files
use libsdlog.Writer.FileTrip.{Opens, log_and_read_file, log_and_read_file-Round}
use libsdlog.Writer.Filed.{log_in_file, Logged, NotOpened, CutShort, log_in_file-Logged}
use libsdlog.Writer.Leak.{InitLeft, writer_init-InitLeft}
use libsdlog.Writer.Life.{on}
use libsdlog.Writer.Reader.{read_log}
use libsdlog.Writer.ReadOne.{messages}
use libsdlog.Writer.RoundTrip.{log_and_read, log_and_read-Round}
use libsdlog.Writer.Rounds.{Round}
use libsdlog.Writer.Runs.{nothing, types_at, entry-IsReadable, grants_all}
use libsdlog.Writer.Samples.{entries, entries-IsEntry}
use libsdlog.Writer.Session.{write_log, new_entries}

log_and_read-Round_example :
    Ends
      (λ got s.
        Round (new_entries entries) 0 got s
        × (read_log got ≡ some (messages to_float (λ _. 0) entries)))
      (λ status _. status ≡ enomem)
      (log_and_read to_float 256 entries nothing)
log_and_read-Round_example =
    log_and_read-Round to_float types_at 256 entries nothing (omega arith)
      (Buffers.heap-BoundedGrants 0) (entry-IsReadable, (entry-IsReadable, tt)) entries-IsEntry

-- A file with some bytes in it, on a disk with space for two thousand.
abbrev disk : List ℕ → Files.Disk
disk bytes = record {
  unread = [];
  taken = bytes;
  flushed = length bytes;
  room = 2000;
  space = 2000;
  failed = false;
}

-- No stream is open, and five blocks are allocated.
abbrev no_stream : WriterState (FileContext Files.Disk)
no_stream = record {
  writer = zero_writer;
  out = closed (record { build = system; grant = grants_all; calls = 0; live = 5 });
}

log_in_file-Logged_example :
    Ends
      (λ _ s.
        Logged Files.stdio
          (λ d. d.taken)
          Files.saved
          Files.stdio-Writes
          Files.stdio-Flushes
          Files.stdio-Saves
          6
          (disk (9 ∷ []))
          entries
          s)
      (λ status s.
        NotOpened Files.stdio
          (λ d. d.taken)
          Files.saved
          Files.stdio-Writes
          Files.stdio-Flushes
          Files.stdio-Saves
          no_stream
          status
          s
        ⊎ CutShort Files.stdio
            (λ d. d.taken)
            Files.saved
            Files.stdio-Writes
            Files.stdio-Flushes
            Files.stdio-Saves
            (disk (9 ∷ []))
            (new_entries entries)
            status
            s)
      (log_in_file Files.stdio to_float 256 (disk (9 ∷ [])) entries no_stream)
log_in_file-Logged_example =
    log_in_file-Logged Files.stdio (λ d. d.taken) Files.saved Files.stdio-Writes Files.stdio-Flushes
      Files.stdio-Saves to_float 256 (omega arith) (disk (9 ∷ [])) entries no_stream entries-IsEntry

-- The bytes in the file of a stream, and whether an error is recorded for it.
abbrev file_bytes : Option Files.Disk → Option (List ℕ × Bool)
file_bytes none = none
file_bytes (some d) = some (Files.saved d, d.failed)

abbrev on_disk : Option (FileContext Files.Disk) → Option (List ℕ × Bool)
on_disk none = none
on_disk (some c) = file_bytes c.fp

-- The run succeeds, and the log is on the disk behind the byte that was there.
log_in_file_run :
    Ends
      (λ _ s. on_disk s.out.stream.context ≡ some (9 ∷ new_entries entries, false))
      (λ _ _. ⊥)
      (log_in_file Files.stdio to_float 256 (disk (9 ∷ [])) entries no_stream)
unfolding log_in_file ostream_init_file write_log write_each writer_init writer_end writer_destroy
    writer_flush writer_write writer_write_va ensure_session_started ostream_begin_session
    write_format_if_needed write_format write_with_names write_texts write_record write_record_va
    message_format_init message_format_add_columns message_format_destroy message_format_get_size
    message_format_get_format_string message_format_get_column_names message_format_encode
    ostream_flush ostream_end_session ostream_write_all file_write file_flush encode_to_buf
    sdlog_realloc sdlog_malloc sdlog_free log added fmt_record data_record total_size join
    message_column_format_get_size get_size_of_column_type c_string
log_in_file_run = refl

-- The file is opened once more: what can be read is on the disk.
abbrev reopen : Files.Disk → Option Files.Disk
reopen d = some (record d { unread = Files.saved d; failed = false })

abbrev size : Files.Disk → ℕ
size d = length (Files.saved d)

disk-Opens : Opens Files.saved (λ d. d.unread) reopen size
disk-Opens = record { opens = λ d d' h. cc h; sizes = λ d. refl }

log_and_read_file-Round_example :
    Ends
      (λ got s.
        Round (new_entries entries) 5 got s
        × (read_log got ≡ some (messages to_float (λ _. 0) entries)))
      (λ status s.
        ((status ≡ enomem) ⊎ ((status ≡ ewrite) ⊎ (status ≡ eread)))
        × ((s.out.stream ≡ no_stream.out.stream) ⊎ (s.out ≡ closed s.out.mem)))
      (log_and_read_file Files.stdio reopen size to_float 256 (disk []) entries no_stream)
log_and_read_file-Round_example =
    log_and_read_file-Round Files.stdio (λ d. d.taken) Files.saved (λ d. d.unread) reopen size
      Files.stdio-Writes Files.stdio-Flushes Files.stdio-Saves Files.stdio-Reads disk-Opens to_float
      256 (omega arith) (disk []) entries (omega arith) refl entries-IsEntry types_at no_stream
      (entry-IsReadable, (entry-IsReadable, tt))

-- The fourth request, for the name of the second column, is refused.
abbrev short_of_memory : Env OStreamContext
short_of_memory = record Buffers.two {
  mem = record Buffers.two.mem { grant = λ n k. not (n == 3); calls = 0 };
}

writer_init-InitLeft_example :
    Ends
      (λ _ s. s.out.mem.live ≡ short_of_memory.mem.live + 7)
      (λ status s.
        (status ≡ enomem) × InitLeft ostream_buffer_methods zero_writer short_of_memory s)
      (writer_init (on ostream_buffer_methods zero_writer short_of_memory))
writer_init-InitLeft_example =
    writer_init-InitLeft ostream_buffer_methods zero_writer short_of_memory
