-- ===== src/Writer.antt =====
-- include/sdlog/writer.h and core/writer.c: the writer that puts records and the descriptions of
-- their formats on an output stream.
pub mod Agree
pub mod Alike
pub mod Buffered
pub mod Calls
pub mod Closing
pub mod Describe
pub mod Each
pub mod Encoded
pub mod End
pub mod Entries
pub mod Filed
pub mod FileTrip
pub mod FmtFormat
pub mod Formats
pub mod Framing
pub mod Known
pub mod Leak
pub mod Life
pub mod Lifecycle
pub mod Opening
pub mod ReadBack
pub mod ReadOne
pub mod Reader
pub mod Ready
pub mod Session
pub mod Spec
pub mod Texts
pub mod Trace
pub mod RoundTrip
pub mod Rounds
mod Runs
mod Trips
mod Samples
mod Tests
mod Wide
use libsdlog.Prelude.{
  ℕ, ◌+◌, Bool, true, false, not, Option, none, some, List, [], ◌∷◌, length, take, leb, ◌==◌,
  if◌then◌else◌, codes, is_some,
}
use libsdlog.Outcome.{
  Outcome, ok, fail, fault, out_of_fuel, Cmd, pure, deref, and_then, ◌>>=◌, ◌>>◌, finally,
  check_oom,
}
use libsdlog.Memory.{Mem, Block, empty_block, sdlog_malloc, sdlog_free}
use libsdlog.Model.{
  Format, FormatState, zero_format, id_fmt, max_message_length, c_string, message_format_init,
  message_format_destroy, message_format_get_size,
}
use libsdlog.Model.Extend.{message_format_add_columns}
use libsdlog.Model.Strings.{message_format_get_column_names, message_format_get_format_string}
use libsdlog.Encoder.{Arg, int, string, message_format_encode}
use libsdlog.Stream.{
  OState, ostream_begin_session, ostream_end_session, ostream_flush, ostream_write_all,
}

-- `sdlog_writer_t` without `stream`, which is part of the state below. `formats` gives the address
-- that is stored for an id; 0 is NULL.
pub record Writer : Type 0 where
  pub has_session : Bool
  pub fmt_message_format : Format
  pub formats : ℕ → ℕ
  pub buf : Option (Block ℕ)

-- A writer, and the stream and the heap that it uses.
pub record WriterState (C : Type 0) : Type 0 where
  pub writer : Writer
  pub out : OState C

-- A pointer to a format of the caller: its address and what stands there.
pub record FormatRef : Type 0 where
  pub address : ℕ
  pub format : Format

abbrev pub zero_writer : Writer
zero_writer = record {
  has_session = false;
  fmt_message_format = zero_format;
  formats = λ _. 0;
  buf = none;
}

-- `formats[id] = address`
abbrev pub set_address : (ℕ → ℕ) → ℕ → ℕ → ℕ → ℕ
set_address formats id address i = if i == id then address else formats i

-- The arguments that `write_format` passes for a format.
abbrev pub fmt_args : Format → (size : ℕ) → (format_str column_names : List ℕ) → List Arg
fmt_args format size format_str column_names =
    int format.id
    ∷ int (size + 3)
    ∷ string (c_string format.type)
    ∷ string (c_string format_str)
    ∷ string (c_string column_names)
    ∷ []

-- The first bytes of an array, which must have so many.
abbrev pub first_bytes : List ℕ → ℕ → Option (List ℕ)
first_bytes message n = if leb n (length message) then some (take n message) else none

module _ {C : Type 0} where
  abbrev pub get_writer : Cmd (WriterState C) Writer
  get_writer s = (ok s.writer, s)

  abbrev pub set_writer : Writer → Cmd (WriterState C) (Unit {0})
  set_writer w s = (ok tt, record s { writer = w })

  -- A command of the stream, of the heap, and of a format with the heap.
  abbrev pub on_stream : {A : Type 0} → Cmd (OState C) A → Cmd (WriterState C) A
  on_stream m s = let (r, out) = m s.out in (r, record s { out = out })

  abbrev pub on_heap : {A : Type 0} → Cmd Mem A → Cmd (WriterState C) A
  on_heap m s = let (r, mem) = m s.out.mem in (r, record s { out = record s.out { mem = mem } })

  abbrev pub on_format : Cmd FormatState (Unit {0}) → Format → Cmd (WriterState C) Format
  on_format m f s =
      let (r, t) = m (record { format = f; mem = s.out.mem }) in
      and_then (r, record s { out = record s.out { mem = t.mem } }) (λ _. pure t.format)

  -- A call whose return code is dropped.
  abbrev pub code_dropped : Outcome (Unit {0}) × WriterState C → Outcome (Unit {0}) × WriterState C
  code_dropped (ok a, s) = (ok tt, s)
  code_dropped (fail e, s) = (ok tt, s)
  code_dropped (fault, s) = (fault, s)
  code_dropped (out_of_fuel, s) = (out_of_fuel, s)

  abbrev pub ignore : Cmd (WriterState C) (Unit {0}) → Cmd (WriterState C) (Unit {0})
  ignore m s = code_dropped (m s)

  -- The writer is cleared before its buffer is allocated; on an error the columns of the format that
  -- was made first stay allocated.
  unfoldable pub writer_init : Cmd (WriterState C) (Unit {0})
  writer_init = do
    fmt_format ←
        on_format
          (message_format_init id_fmt (codes "FMT")
            >> message_format_add_columns (codes "Type,Length,Name,Format,Columns") (codes "BBnNZ")
                (codes "-----"))
          zero_format
    set_writer (record zero_writer { fmt_message_format = fmt_format })
    granted ← on_heap (sdlog_malloc max_message_length)
    check_oom granted
    set_writer (record zero_writer {
      fmt_message_format = fmt_format;
      buf = some (empty_block max_message_length);
    })

  unfoldable pub writer_flush : Cmd (WriterState C) (Unit {0})
  writer_flush = on_stream ostream_flush

  unfoldable pub writer_end : Cmd (WriterState C) (Unit {0})
  writer_end = do
    writer ← get_writer
    if writer.has_session
        then (do
          writer_flush
          on_stream ostream_end_session
          set_writer (record writer { has_session = false }))
        else pure tt

  unfoldable pub writer_destroy : Cmd (WriterState C) (Unit {0})
  writer_destroy = do
    writer ← get_writer
    if writer.has_session then ignore writer_end else pure tt
    writer' ← get_writer
    on_format message_format_destroy writer'.fmt_message_format
    on_heap (sdlog_free writer'.buf)
    set_writer zero_writer

  unfoldable pub ensure_session_started : Cmd (WriterState C) (Unit {0})
  ensure_session_started = do
    writer ← get_writer
    if not writer.has_session
        then (do on_stream ostream_begin_session; set_writer (record writer { has_session = true }))
        else pure tt

  -- `to_float` is that of the encoder; `fuel` bounds the rounds of each `sdlog_ostream_write_all`.
  module _ (to_float : ℕ → ℕ) (fuel : ℕ) where
    -- The record is put together in `writer->buf`.
    unfoldable pub encode_to_buf : Format → List Arg → Cmd (WriterState C) (List ℕ)
    encode_to_buf format args = do
      writer ← get_writer
      buf ← deref writer.buf
      let (r, es) = message_format_encode to_float format buf args
      set_writer (record writer { buf = some es.buf })
      written ← λ s. and_then (r, s) pure
      pure (take written es.buf.items)

    unfoldable pub write_record_va : Format → List Arg → Cmd (WriterState C) (Unit {0})
    write_record_va format args = do
      message ← encode_to_buf format args
      on_stream (ostream_write_all fuel message)

    -- The variadic front of `write_record_va`.
    unfoldable pub write_record : Format → List Arg → Cmd (WriterState C) (Unit {0})
    write_record format args = write_record_va format args

    -- The call of `write_record` in `write_format`, with the test of the second string before it.
    unfoldable pub write_texts :
        Format → (format_str column_names : Option (List ℕ)) → Cmd (WriterState C) (Unit {0})
    write_texts format format_str column_names = do
      check_oom (is_some column_names)
      size ← deref (message_format_get_size format)
      format_text ← deref format_str
      names_text ← deref column_names
      writer ← get_writer
      write_record writer.fmt_message_format (fmt_args format size format_text names_text)

    unfoldable pub write_with_names :
        Format → (format_str : Option (List ℕ)) → Cmd (WriterState C) (Unit {0})
    write_with_names format format_str = do
      check_oom (is_some format_str)
      column_names ← on_heap (message_format_get_column_names format (codes ","))
      finally (write_texts format format_str column_names) (on_heap (sdlog_free column_names))

    unfoldable pub write_format : Format → Cmd (WriterState C) (Unit {0})
    write_format format = do
      format_str ← on_heap (message_format_get_format_string format)
      finally (write_with_names format format_str) (on_heap (sdlog_free format_str))

    -- `formats[id]` is set also where writing the format failed.
    unfoldable pub write_format_if_needed : FormatRef → Cmd (WriterState C) (Unit {0})
    write_format_if_needed ref = do
      writer ← get_writer
      if not (writer.formats ref.format.id == ref.address)
          then finally (write_format ref.format) (do
            writer' ← get_writer
            set_writer (record writer' {
              formats = set_address writer'.formats ref.format.id ref.address;
            }))
          else pure tt

    unfoldable pub writer_write_va : FormatRef → List Arg → Cmd (WriterState C) (Unit {0})
    writer_write_va ref args = do
      ensure_session_started
      write_format_if_needed ref
      write_record_va ref.format args

    -- The variadic front of `writer_write_va`.
    unfoldable pub writer_write : FormatRef → List Arg → Cmd (WriterState C) (Unit {0})
    writer_write ref args = writer_write_va ref args

    unfoldable pub writer_write_encoded : FormatRef → List ℕ → ℕ → Cmd (WriterState C) (Unit {0})
    writer_write_encoded ref message size = do
      format_size ← deref (message_format_get_size ref.format)
      let n = if size == 0 then format_size + 3 else size
      ensure_session_started
      write_format_if_needed ref
      bytes ← deref (first_bytes message n)
      on_stream (ostream_write_all fuel bytes)
