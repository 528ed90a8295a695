-- ===== src/Writer/Tests.antt =====
-- Runs of core/writer.c over a growing buffer.
use libsdlog.Prelude.{◌+◌, ◌≤◌, refl, true, some, arith, codes, if◌then◌else◌, ◌==◌}
use libsdlog.Outcome.{Ends}
use libsdlog.Memory.{empty_block}
use libsdlog.Model.{message_column_format_get_size, get_size_of_column_type}
use libsdlog.Model.Lifecycle.{type_array}
use libsdlog.Model.Size.{total_size}
use libsdlog.Model.Tests as Formats
use libsdlog.Encoder.Tests.{to_float, args, args-Encodes}
use libsdlog.Stream.Sink.{at_env}
use libsdlog.Buffer.{OStreamContext, ostream_buffer_methods}
use libsdlog.Buffer.Quiet.{slow_buffer}
use libsdlog.Buffer.Tests as Buffers
use libsdlog.Writer.{Writer, WriterState, FormatRef, zero_writer, writer_write_va}
use libsdlog.Writer.Formats.{After, Remembers, writer_write_va-Remembers}
use libsdlog.Writer.Known.{Logged, Stopped, writer_write_va-Logged}

-- A writer in a session that knows the format with the id 5 at the address 77.
abbrev writer : Writer
writer = record zero_writer {
  has_session = true;
  formats = λ i. if i == 5 then 77 else 0;
  buf = some (empty_block 256);
}

abbrev start : WriterState OStreamContext
start = record { writer = writer; out = at_env ostream_buffer_methods Buffers.two }

abbrev known : FormatRef
known = record { address = 77; format = Formats.two.format }

abbrev moved : FormatRef
moved = record { address = 78; format = Formats.two.format }

room : 3 + total_size Formats.two_columns ≤ 256
unfolding total_size message_column_format_get_size get_size_of_column_type
room = omega arith

enough : 3 + total_size Formats.two_columns ≤ 20
unfolding total_size message_column_format_get_size get_size_of_column_type
enough = omega arith

writer_write_va-Logged_example :
    Ends
      (λ _ s.
        Logged to_float Formats.grants 5
          (type_array (codes "GPS"))
          Formats.two_columns
          10
          Formats.two.format
          (Formats.heap 10)
          Formats.two-Holds
          args-Encodes
          writer
          (empty_block 256)
          refl
          room
          ostream_buffer_methods
          slow_buffer
          Buffers.two
          s)
      (Stopped to_float Formats.grants 5
        (type_array (codes "GPS"))
        Formats.two_columns
        10
        Formats.two.format
        (Formats.heap 10)
        Formats.two-Holds
        args-Encodes
        writer
        (empty_block 256)
        refl
        room
        ostream_buffer_methods
        slow_buffer
        Buffers.two)
      (writer_write_va to_float 20 known args start)
writer_write_va-Logged_example =
    writer_write_va-Logged to_float Formats.grants 5 (type_array (codes "GPS")) Formats.two_columns
      10 Formats.two.format (Formats.heap 10) Formats.two-Holds args-Encodes writer
      (empty_block 256) refl room ostream_buffer_methods slow_buffer 77 20 Buffers.two refl refl
      (omega (arith, enough)) Buffers.two-IsValid

writer_write_va-Remembers_example :
    After (Remembers moved writer.formats) (writer_write_va to_float 20 moved args start)
writer_write_va-Remembers_example = writer_write_va-Remembers to_float 20 moved args start refl
