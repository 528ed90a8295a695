-- ===== src/Writer/Known.antt =====
-- core/writer.c: a record of a format that the log already describes, written to any output stream
-- that keeps its contract.
use libsdlog.Prelude.{
  Bool, ℕ, ◌+◌, ◌≤◌, ◌≡◌, refl, ap, sym, ◌∙◌, true, some, List, [], ◌++◌, append-nil, take_all,
  arith, ==_iff,
}
use libsdlog.Outcome.{Outcome, ok, fail, Status, Ends}
use libsdlog.Outcome.Ends.{Ends-mono}
use libsdlog.Memory.{Mem, Block}
use libsdlog.Model.{Column, Format}
use libsdlog.Model.Invariant.{at}
use libsdlog.Model.AddColumn.{Holds}
use libsdlog.Model.Size.{total_size}
use libsdlog.Encoder.{Arg, message_format_encode}
use libsdlog.Encoder.Record.{Encodes, header, state, encode-bytes, length-Encodes}
use libsdlog.Stream.{Env, OState, OStreamSpec, ostream_write_all}
use libsdlog.Stream.SlowSink.{SlowSink, at_env, Took, TookSome, write_all_slow-Took}
use libsdlog.Writer.Formats.{in_session}
use libsdlog.Writer.{
  Writer, WriterState, FormatRef, write_format_if_needed, encode_to_buf, write_record_va,
  writer_write_va, on_stream,
}

-- A call of the stream leaves the writer as it is.
pub Ends-on_stream :
    {C A : Type 0} (w : Writer) (Q : A → OState C → Type 0) (E : Status → OState C → Type 0)
    (r : Outcome A × OState C)
    → Ends Q E r
    → Ends {S = WriterState C}
        (λ a s. (s.writer ≡ w) × Q a s.out)
        (λ e s. (s.writer ≡ w) × E e s.out)
        (r.0, record { writer = w; out = r.1 })
Ends-on_stream w Q E (ok a, s) h = (refl, h)
Ends-on_stream w Q E (fail e, s) h = (refl, h)
Ends-on_stream w Q E (Outcome.fault, s) h = absurd h
Ends-on_stream w Q E (Outcome.out_of_fuel, s) h = absurd h

-- A command of the heap leaves all else as it is.
pub Ends-on_heap :
    {C A : Type 0} (s : WriterState C) (Q : A → Mem → Type 0) (E : Status → Mem → Type 0)
    (r : Outcome A × Mem)
    → Ends Q E r
    → Ends
        (λ a s'. (m : Mem) × (s' ≡ record s { out = record s.out { mem = m } }) × Q a m)
        (λ e s'. (m : Mem) × (s' ≡ record s { out = record s.out { mem = m } }) × E e m)
        (r.0, record s { out = record s.out { mem = r.1 } })
Ends-on_heap s Q E (ok a, m) h = (m, refl, h)
Ends-on_heap s Q E (fail e, m) h = (m, refl, h)
Ends-on_heap s Q E (Outcome.fault, m) h = absurd h
Ends-on_heap s Q E (Outcome.out_of_fuel, m) h = absurd h

described_before :
    {C : Type 0} (to_float : ℕ → ℕ) (fuel : ℕ) (ref : FormatRef) (s : WriterState C)
    → s.writer.formats ref.format.id ≡ ref.address
    → write_format_if_needed to_float fuel ref s ≡ (ok tt, s)
unfolding write_format_if_needed
described_before to_float fuel ref s h =
    ground (arith, ==_iff (s.writer.formats ref.format.id) ref.address)

-- The writer with the record in its buffer.
abbrev pub with_buf : Writer → ℕ → List ℕ → Writer
with_buf w size items = record w { buf = some (record { size = size; items = items }) }

module _ (to_float : ℕ → ℕ) (grant : ℕ → ℕ → Bool) (id : ℕ) (type : List ℕ) (cols : List Column)
    (live : ℕ) (format : Format) (m : Mem) (holds : Holds grant id type cols live (at format m))
    {args : List Arg} {bytes : List ℕ} (es : Encodes to_float cols args bytes) (w : Writer)
    (b : Block ℕ) (has_buf : w.buf ≡ some b) (room : 3 + total_size cols ≤ b.size) where
  abbrev pub record_bytes : List ℕ
  record_bytes = header to_float id ++ bytes

  encoded :
      message_format_encode to_float format b args
      ≡ (ok (3 + total_size cols), state to_float [] b.size record_bytes)
  encoded =
      ap (λ xs. message_format_encode to_float format b xs) (sym (append-nil args))
      ∙ encode-bytes to_float grant id type cols live (at format m) holds b [] es room

  encode_to_buf_lem :
      {C : Type 0} (out : OState C) (fuel : ℕ)
      → encode_to_buf to_float fuel format args (record { writer = w; out = out })
        ≡ (ok record_bytes, record { writer = with_buf w b.size record_bytes; out = out })
  unfolding encode_to_buf
  encode_to_buf_lem out fuel =
      rw
        (
          has_buf,
          encoded,
          take_all (3 + total_size cols) record_bytes (omega (arith, length-Encodes to_float es)),
        )
        refl

  -- So a record is put on the stream as its bytes are.
  pub write_record_va-eq :
      {C : Type 0} (out : OState C) (fuel : ℕ)
      → write_record_va to_float fuel format args (record { writer = w; out = out })
        ≡ on_stream
            (ostream_write_all fuel record_bytes)
            (record { writer = with_buf w b.size record_bytes; out = out })
  unfolding write_record_va
  write_record_va-eq out fuel = rw (encode_to_buf_lem out fuel) refl

  -- What `write_record_va` leaves: the writer with the record in its buffer, and a stream that took
  -- all of the record or a first part of it.
  module _ {C : Type 0} (spec : OStreamSpec C) (sink : SlowSink spec) where
    pub record Logged (e : Env C) (s : WriterState C) : Type 0 where
      pub writer : s.writer ≡ with_buf w b.size record_bytes
      pub took : Took spec sink e record_bytes s.out

    pub record Stopped (e : Env C) (status : Status) (s : WriterState C) : Type 0 where
      pub writer : s.writer ≡ with_buf w b.size record_bytes
      pub took : TookSome spec sink e record_bytes status s.out

    pub write_record_va-Logged :
        (fuel : ℕ) (e : Env C)
        → 3 + total_size cols + sink.waits e ≤ fuel
        → sink.Inv e
        → Ends
            (λ _ s. Logged e s)
            (Stopped e)
            (write_record_va to_float fuel format args (record { writer = w; out = at_env spec e }))
    unfolding write_record_va
    write_record_va-Logged fuel e enough inv = rw (encode_to_buf_lem (at_env spec e) fuel) (
        Ends-mono
          (λ _ s. (s.writer ≡ with_buf w b.size record_bytes) × Took spec sink e record_bytes s.out)
          (λ _ s. Logged e s)
          (λ status s.
            (s.writer ≡ with_buf w b.size record_bytes)
            × TookSome spec sink e record_bytes status s.out)
          (Stopped e)
          (on_stream (ostream_write_all fuel record_bytes)
            (record { writer = with_buf w b.size record_bytes; out = at_env spec e }))
          (Ends-on_stream (with_buf w b.size record_bytes) (λ _ s. Took spec sink e record_bytes s)
            (TookSome spec sink e record_bytes)
            (ostream_write_all fuel record_bytes (at_env spec e))
            (write_all_slow-Took spec sink fuel record_bytes e
              (omega (arith, length-Encodes to_float es)) inv))
          (λ _ s h. record { writer = h.0; took = h.1 })
          (λ status s h. record { writer = h.0; took = h.1 }))

    -- A record of a format that is known to the writer, in a session: the writer adds the encoded
    -- record to the stream, after what it took before and with nothing else, and keeps its state but
    -- for the buffer; or the stream fails, its code is returned, and it took a first part of the
    -- record. The record is the two sync bytes, the id and the fields; it must fit the buffer, and
    -- write_all has a round for each of its bytes and each of the `waits` of the stream.
    pub writer_write_va-Logged :
        (address fuel : ℕ) (e : Env C)
        → w.has_session ≡ true
        → w.formats format.id ≡ address
        → 3 + total_size cols + sink.waits e ≤ fuel
        → sink.Inv e
        → Ends
            (λ _ s. Logged e s)
            (Stopped e)
            (writer_write_va to_float fuel
              (record { address = address; format = format })
              args
              (record { writer = w; out = at_env spec e }))
    unfolding writer_write_va
    writer_write_va-Logged address fuel e session known enough inv =
        let start : WriterState C = record { writer = w; out = at_env spec e } in
        let ref : FormatRef = record { address = address; format = format } in
        rw (in_session start session, described_before to_float fuel ref start known)
          (write_record_va-Logged fuel e enough inv)
