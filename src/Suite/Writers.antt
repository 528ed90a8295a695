-- ===== src/Suite/Writers.antt =====
-- test/test_writer.c: the bytes that the writer puts on a stream, beside those that the tests expect.
-- The two tests of bytes expect the size of the fields in the Length field of an FMT record, 30 and 12;
-- `write_format` puts the size of the whole record there, 33 and 15. All other bytes are those of the
-- tests.
use libsdlog.Prelude.{ℕ, ◌≡◌, refl, List, [], ◌∷◌, ◌++◌, length, replicate, codes}
use libsdlog.Outcome.{ok, Cmd, pure, and_then, ◌>>=◌, ◌>>◌}
use libsdlog.Memory.{empty_block, sdlog_realloc}
use libsdlog.Model.{
  Format, zero_format, c_string, message_format_init, message_format_destroy,
  message_format_get_size,
}
use libsdlog.Model.Extend.{message_format_add_columns}
use libsdlog.Model.Strings.{message_format_get_column_names, message_format_get_format_string}
use libsdlog.Model.Tests.{heap}
use libsdlog.Encoder.{Arg, int, int64, double, message_format_encode}
use libsdlog.Stream.{
  closed, ostream_destroy, ostream_begin_session, ostream_end_session, ostream_flush,
  ostream_write_all,
}
use libsdlog.Null.{NoContext, ostream_init_null}
use libsdlog.Buffer.{
  OStreamContext, buffer_write, buffer_destroy_o, ostream_init_buffer, ostream_buffer_get,
}
use libsdlog.Writer.{
  FormatRef, WriterState, zero_writer, on_stream, on_format, writer_init, writer_write,
  writer_write_va, writer_write_encoded, writer_flush, writer_end, writer_destroy,
  ensure_session_started, write_format_if_needed, write_format, write_with_names, write_texts,
  write_record, write_record_va, encode_to_buf,
}

-- The conversion of the only float of the tests, 0.125.
abbrev to_float : ℕ → ℕ
to_float d = 0x3E000000

abbrev Test : Type 0 → Type 0
Test A = Cmd (WriterState OStreamContext) A

abbrev start : {C : Type 0} → WriterState C
start = record { writer = zero_writer; out = closed (heap 0) }

int_format : Test Format
unfolding sdlog_realloc message_format_init message_format_add_columns
int_format =
    on_format
      (message_format_init 1 (codes "INT")
        >> message_format_add_columns (codes "s8,u8,s16,u16,s32,u32,s64,u64") (codes "bBhHiIqQ")
            (codes "--------"))
      zero_format

float_format : Test Format
unfolding sdlog_realloc message_format_init message_format_add_columns
float_format =
    on_format
      (message_format_init 2 (codes "FLT")
        >> message_format_add_columns (codes "float,double") (codes "fd") (codes "--"))
      zero_format

abbrev ints : List Arg
ints =
    int 0x0badcafe
    ∷ int 0xdeadbeef
    ∷ int 0x0badcafe
    ∷ int 0xdeadbeef
    ∷ int 0x0badcafe
    ∷ int 0xdeadbeef
    ∷ int64 0x0badcafe
    ∷ int64 0xdeadbeef
    ∷ []

-- The addresses of the two formats.
abbrev ints_at : Format → FormatRef
ints_at format = record { address = 1000; format = format }

abbrev floats_at : Format → FormatRef
floats_at format = record { address = 2000; format = format }

-- The calls of the tests, which compute all the way.
init_writer : {C : Type 0} → Cmd (WriterState C) (Unit {0})
unfolding sdlog_realloc message_format_init message_format_add_columns writer_init
init_writer = writer_init

put : FormatRef → List Arg → Test (Unit {0})
unfolding writer_write writer_write_va ensure_session_started ostream_begin_session
    write_format_if_needed write_format write_with_names write_texts write_record write_record_va
    encode_to_buf message_format_encode c_string message_format_get_format_string
    message_format_get_column_names message_format_get_size ostream_write_all buffer_write
put ref args = writer_write to_float 256 ref args

put_encoded : FormatRef → List ℕ → ℕ → Test (Unit {0})
unfolding put writer_write_encoded ensure_session_started ostream_begin_session
    write_format_if_needed write_format write_with_names write_texts write_record write_record_va
    encode_to_buf message_format_encode c_string message_format_get_format_string
    message_format_get_column_names message_format_get_size ostream_write_all buffer_write
put_encoded ref message size = writer_write_encoded to_float 256 ref message size

destroy_writer : {C : Type 0} → Cmd (WriterState C) (Unit {0})
unfolding message_format_destroy ostream_flush ostream_end_session writer_flush writer_end
    writer_destroy
destroy_writer = writer_destroy

destroy_format : Format → Test Format
unfolding message_format_destroy
destroy_format format = on_format message_format_destroy format

-- The bytes of the stream, which is then destroyed.
see_buffer : Test (List ℕ × ℕ)
unfolding ostream_buffer_get ostream_destroy buffer_destroy_o
see_buffer = do seen ← on_stream ostream_buffer_get; on_stream ostream_destroy; pure seen

-- `test_writer_init_destroy`
writer_init_destroy : Cmd (WriterState NoContext) (Unit {0})
unfolding ostream_init_null init_writer destroy_writer ostream_destroy
writer_init_destroy = do
  on_stream ostream_init_null
  init_writer
  destroy_writer
  on_stream ostream_destroy

writer_init_destroy_run :
    ((writer_init_destroy start).0 ≡ ok tt) × ((writer_init_destroy start).1.out.mem.live ≡ 0)
unfolding writer_init_destroy
writer_init_destroy_run = (refl, refl)

-- `test_writer_formats`
writer_formats : Test (List ℕ × ℕ)
unfolding ostream_init_buffer int_format float_format init_writer put destroy_writer destroy_format
    see_buffer
writer_formats = do
  on_stream ostream_init_buffer
  ints_of ← int_format
  floats_of ← float_format
  init_writer
  put (ints_at ints_of) ints
  put (floats_at floats_of) (double 0x3FC0000000000000 ∷ double 0x3FD0000000000000 ∷ [])
  destroy_writer
  destroy_format floats_of
  destroy_format ints_of
  see_buffer

-- `test_writer_write_encoded`
write_encoded : Test (List ℕ × ℕ)
unfolding ostream_init_buffer int_format message_format_encode init_writer put_encoded
    destroy_writer destroy_format see_buffer
write_encoded = do
  on_stream ostream_init_buffer
  ints_of ← int_format
  let encoded = message_format_encode to_float ints_of (empty_block 128) ints
  size ← λ s. and_then (encoded.0, s) pure
  init_writer
  put_encoded (ints_at ints_of) encoded.1.buf.items size
  put_encoded (ints_at ints_of) encoded.1.buf.items 0
  destroy_writer
  destroy_format ints_of
  see_buffer

-- The FMT records, with the Length field as a parameter.
abbrev int_fmt_record : ℕ → List ℕ
int_fmt_record size =
    (0xA3 ∷ 0x95 ∷ 0x80 ∷ 0x01 ∷ size ∷ [])
    ++ codes "INT"
    ++ (0 ∷ [])
    ++ codes "bBhHiIqQ"
    ++ replicate 8 0
    ++ codes "s8,u8,s16,u16,s32,u32,s64,u64"
    ++ replicate 35 0

abbrev int_record : List ℕ
int_record =
    0xA3 ∷ 0x95 ∷ 0x01 ∷ 0xfe ∷ 0xef ∷ 0xfe ∷ 0xca ∷ 0xef ∷ 0xbe ∷ 0xfe ∷ 0xca ∷ 0xad ∷ 0x0b ∷ 0xef
    ∷ 0xbe ∷ 0xad ∷ 0xde ∷ 0xfe ∷ 0xca ∷ 0xad ∷ 0x0b ∷ 0x00 ∷ 0x00 ∷ 0x00 ∷ 0x00 ∷ 0xef ∷ 0xbe
    ∷ 0xad ∷ 0xde ∷ 0x00 ∷ 0x00 ∷ 0x00 ∷ 0x00 ∷ []

abbrev float_fmt_record : ℕ → List ℕ
float_fmt_record size =
    (0xA3 ∷ 0x95 ∷ 0x80 ∷ 0x02 ∷ size ∷ [])
    ++ codes "FLT"
    ++ (0 ∷ [])
    ++ codes "fd"
    ++ replicate 14 0
    ++ codes "float,double"
    ++ replicate 52 0

abbrev float_record : List ℕ
float_record =
    0xA3 ∷ 0x95 ∷ 0x02 ∷ 0x00 ∷ 0x00 ∷ 0x00 ∷ 0x3e ∷ 0x00 ∷ 0x00 ∷ 0x00 ∷ 0x00 ∷ 0x00 ∷ 0x00 ∷ 0xd0
    ∷ 0x3f ∷ []

-- What `test_writer_formats` sees: where the test has 30 and 12 there are 33 and 15.
abbrev formats_seen : List ℕ
formats_seen = int_fmt_record 33 ++ int_record ++ float_fmt_record 15 ++ float_record

writer_formats_run :
    ((writer_formats start).0 ≡ ok (formats_seen, length formats_seen))
    × ((writer_formats start).1.out.mem.live ≡ 0)
unfolding writer_formats
writer_formats_run = (refl, refl)

abbrev encoded_seen : List ℕ
encoded_seen = int_fmt_record 33 ++ int_record ++ int_record

write_encoded_run :
    ((write_encoded start).0 ≡ ok (encoded_seen, length encoded_seen))
    × ((write_encoded start).1.out.mem.live ≡ 0)
unfolding write_encoded
write_encoded_run = (refl, refl)
