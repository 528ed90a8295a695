-- ===== src/Writer/Encoded.antt =====
-- core/writer.c: `sdlog_writer_write_encoded`, against the same log as `sdlog_writer_write`.
use mathlib.Core.Path.{subst}
use libsdlog.Prelude.{
  take-length_append, length-append, ℕ, ◌+◌, ◌≤◌, ◌≡◌, inl, ap, ap₂, sym, ◌∙◌, Bool, List, ◌++◌,
  length, length-take, take, refl, le→leb, ◌==◌, if◌then◌else◌, arith,
}
use libsdlog.Outcome.{Outcome, ok, fail, Status, Cmd, and_then, Ends}
use libsdlog.Outcome.Ends.{Ends-mono}
use libsdlog.Encoder.Record.{length-Encodes}
use libsdlog.Model.Described.{Described-some, some_mem}
use libsdlog.Model.Size.{total_size}
use libsdlog.Stream.{Env, OStreamSpec, ostream_write_all}
use libsdlog.Stream.Quiet.{QuietSink, at_heap}
use libsdlog.Stream.SlowSink.{at_env, Took, TookSome, write_all_slow-Took}
use libsdlog.Writer.{
  Writer, WriterState, on_stream, ensure_session_started, write_format_if_needed, write_record_va,
  writer_write_va, writer_write_encoded,
}
use libsdlog.Writer.Calls.{Halted, formatted, after_call, after_entry, call-Reached}
use libsdlog.Writer.Entries.{described_log, fmt_part, write_format_if_needed-Reached}
use libsdlog.Writer.Known.{Ends-on_stream, write_record_va-eq}
use libsdlog.Writer.Opening.{opened_log, Untouched, ensure_session_started-Reached}
use libsdlog.Writer.Ready.{Log, more, Ready, Reached, Partly, start}
use libsdlog.Writer.Spec.{Entry, IsEntry, data_record, added, id_of, with_header}
use libsdlog.Writer.Texts.{entry_size}

-- The bytes that count: `size` of them, or the size of a record of the format if `size` is 0.
abbrev pub message_size : Entry → ℕ → ℕ
message_size n size = if size == 0 then total_size n.cols + 3 else size

length-data_record :
    (to_float : ℕ → ℕ) (n : Entry) → IsEntry to_float n → length (data_record n) ≡ message_size n 0
unfolding data_record
length-data_record to_float n v = omega (arith, length-Encodes to_float v.encodes)

record-whole :
    (to_float : ℕ → ℕ) (n : Entry) (rest : List ℕ)
    → IsEntry to_float n
    → take (message_size n 0) (data_record n ++ rest) ≡ data_record n
record-whole to_float n rest v =
    ap (λ k. take k (data_record n ++ rest)) (sym (length-data_record to_float n v))
    ∙ take-length_append (data_record n) rest

module _ {C : Type 0} where
  -- Two calls that end in the same way and leave the same but for the buffer of the writer.
  pub record SameEffect (r r' : Outcome (Unit {0}) × WriterState C) : Type 0 where
    pub outcome : r.0 ≡ r'.0
    pub out : r.1.out ≡ r'.1.out
    pub writer : r.1.writer ≡ record r'.1.writer { buf = r.1.writer.buf }

  SameEffect-and_then :
      (Q : Unit {0} → WriterState C → Type 0) (E : Status → WriterState C → Type 0)
      (r : Outcome (Unit {0}) × WriterState C) (k k' : Cmd (WriterState C) (Unit {0}))
      → Ends Q E r
      → ((s : WriterState C) → Q tt s → SameEffect (k s) (k' s))
      → SameEffect (and_then r (λ _. k)) (and_then r (λ _. k'))
  SameEffect-and_then Q E (ok a, s) k k' h next = next s h
  SameEffect-and_then Q E (fail e, s) k k' h next = record {
    outcome = refl;
    out = refl;
    writer = refl;
  }
  SameEffect-and_then Q E (Outcome.fault, s) k k' h next = absurd h
  SameEffect-and_then Q E (Outcome.out_of_fuel, s) k k' h next = absurd h

module _ {C : Type 0} {spec : OStreamSpec C} (q : QuietSink spec) (grant : ℕ → ℕ → Bool) where
  Took-Reached :
      (live : ℕ) (a : Log) (w : Writer) (e : Env C) (xs : List ℕ) (s : WriterState C)
      → Ready q grant live a w e
      → s.writer ≡ w
      → Took spec (at_heap q live grant) e xs s.out
      → Reached q grant live (more a xs) s
  Took-Reached live a w e xs s r is_w t = record {
    writer = w;
    env = t.env;
    form = ap₂ (λ w' out. record { writer = w'; out = out }) is_w t.form;
    ready = record {
      inv = t.inv.0;
      view = t.seen ∙ ap (λ bs. bs ++ xs) r.view;
      grants = t.inv.2;
      blocks = t.inv.1;
      fmt = r.fmt;
      session = r.session;
      known = r.known;
      block = r.block;
      buf = r.buf;
      size = r.size;
    };
  }

  -- Bytes that are written as they are.
  write_bytes-Reached :
      (fuel live : ℕ) (a : Log) (w : Writer) (e : Env C) (bytes : List ℕ)
      → length bytes + q.patience ≤ fuel
      → Ready q grant live a w e
      → Ends
          (λ _ s. Reached q grant live (more a bytes) s)
          (Partly q grant live a bytes)
          (on_stream (ostream_write_all fuel bytes) (start q grant w e))
  write_bytes-Reached fuel live a w e bytes room r =
      let sink = at_heap q live grant in
      Ends-mono (λ _ s. (s.writer ≡ w) × Took spec sink e bytes s.out)
        (λ _ s. Reached q grant live (more a bytes) s)
        (λ status s. (s.writer ≡ w) × TookSome spec sink e bytes status s.out)
        (Partly q grant live a bytes) (on_stream (ostream_write_all fuel bytes) (start q grant w e))
        (Ends-on_stream w (λ _ s. Took spec sink e bytes s) (TookSome spec sink e bytes)
          (ostream_write_all fuel bytes (at_env spec e))
          (write_all_slow-Took spec sink fuel bytes e (omega (arith, q.most_waits e r.inv))
            (r.inv, r.blocks, r.grants)))
        (λ _ s (is_w, t). Took-Reached live a w e bytes s r is_w t)
        (λ status s (is_w, t). record {
          code = inl t.fails;
          count = t.count;
          reached = Took-Reached live a w e (take t.count bytes) s r is_w t.took;
        })

  module _ (to_float : ℕ → ℕ) (fuel : ℕ) (enough : 256 + q.patience ≤ fuel) where
    -- A call of `sdlog_writer_write_encoded` with a message that holds the bytes that count: they are
    -- added to the log as they are, behind the FMT record of the format where it is due.
    pub writer_write_encoded-Reached :
        (n : Entry) (message : List ℕ) (size live : ℕ) (a : Log) (w : Writer) (e : Env C)
        → IsEntry to_float n
        → message_size n size ≤ length message
        → message_size n size + q.patience ≤ fuel
        → Ready q grant live a w e
        → Ends
            (λ _ s. Reached q grant live (after_call a n (take (message_size n size) message)) s)
            (Halted q grant live a (fmt_part a n ++ take (message_size n size) message))
            (writer_write_encoded to_float fuel n.ref message size (start q grant w e))
    unfolding writer_write_encoded
    writer_write_encoded-Reached n message size live a w e v long room r =
        let k = message_size n size in
        rw (entry_size to_float n v) (
          call-Reached q grant to_float fuel enough n live a w e (take k message) _ v
            (λ w' e' r'. rw (le→leb k (length message) long) (
              write_bytes-Reached fuel live (formatted a n) w' e' (take k message)
                (omega (arith, length-take k message)) r'))
            r)

    -- What follows the FMT record in either call.
    put_alike :
        (n : Entry) (live : ℕ) (a : Log) (w : Writer) (e : Env C)
        → IsEntry to_float n
        → Ready q grant live a w e
        → SameEffect
            (on_stream (ostream_write_all fuel (data_record n)) (start q grant w e))
            (write_record_va to_float fuel n.ref.format n.args (start q grant w e))
    unfolding data_record
    put_alike n live a w e v r =
        subst
          (λ va.
            SameEffect
              (on_stream (ostream_write_all fuel (with_header (id_of n) n.fields))
                (start q grant w e))
              va)
          (sym (
            write_record_va-eq to_float _ (id_of n) _ n.cols _ n.ref.format (some_mem n.cols)
              (Described-some v.described) v.encodes w r.block r.buf
              (omega (arith, r.size, v.record_fits)) (at_env spec e) fuel))
          (record { outcome = refl; out = refl; writer = refl })

    calls_alike :
        (n : Entry) (rest : List ℕ) (live : ℕ) (a : Log) (w : Writer) (e : Env C)
        → IsEntry to_float n
        → Ready q grant live a w e
        → SameEffect
            (writer_write_encoded to_float fuel n.ref (data_record n ++ rest) 0 (start q grant w e))
            (writer_write_va to_float fuel n.ref n.args (start q grant w e))
    unfolding writer_write_encoded writer_write_va
    calls_alike n rest live a w e v r =
        let message = data_record n ++ rest in
        let k = message_size n 0 in
        let long : k ≤ length message =
          omega (arith, length-append (data_record n) rest, length-data_record to_float n v) in
        rw (entry_size to_float n v, le→leb k (length message) long, record-whole to_float n rest v)
          (SameEffect-and_then (λ _ s. Reached q grant live (opened_log a) s)
            (Untouched q grant live a) (ensure_session_started (start q grant w e)) _ _
            (ensure_session_started-Reached q grant live a w e r)
            (λ s h. rw h.form (
              SameEffect-and_then (λ _ s'. Reached q grant live (formatted a n) s')
                (Partly q grant live (described_log (opened_log a) n) (fmt_part a n))
                (write_format_if_needed to_float fuel n.ref (start q grant h.writer h.env)) _ _
                (write_format_if_needed-Reached q grant to_float fuel enough n live (opened_log a)
                  h.writer h.env v h.ready)
                (λ s' h'.
                  rw h'.form (put_alike n live (formatted a n) h'.writer h'.env v h'.ready)))))

    -- `sdlog_writer_write_encoded` with size 0 and a message that starts with the encoded record of a
    -- call of `sdlog_writer_write_va` has the same effect as that call, on success and on every error:
    -- it ends in the same way and leaves the same stream and heap, and the same writer but for its
    -- buffer. That is, the FMT record, if it is due, and the record are added to the log; or the call
    -- fails with an error of the stream or ENOMEM, and a first part of them was added. The entry is one
    -- that the writer can serve, the stream keeps its contract, and write_all has at least 256 rounds
    -- and the `patience` of the stream.
    pub writer_write_encoded-agrees :
        (n : Entry) (rest : List ℕ) (live : ℕ) (a : Log) (w : Writer) (e : Env C)
        → IsEntry to_float n
        → Ready q grant live a w e
        → SameEffect
            (writer_write_encoded to_float fuel n.ref (data_record n ++ rest) 0 (start q grant w e))
            (writer_write_va to_float fuel n.ref n.args (start q grant w e))
          × Ends
              (λ _ s. Reached q grant live (after_entry a n) s)
              (Halted q grant live a (added a.formats n))
              (writer_write_encoded to_float fuel n.ref
                (data_record n ++ rest)
                0
                (start q grant w e))
    unfolding added
    writer_write_encoded-agrees n rest live a w e v r =
        let message = data_record n ++ rest in
        (
          calls_alike n rest live a w e v r,
          subst
              (λ bytes.
                Ends (λ _ s. Reached q grant live (after_call a n bytes) s)
                  (Halted q grant live a (fmt_part a n ++ bytes))
                  (writer_write_encoded to_float fuel n.ref message 0 (start q grant w e)))
              (record-whole to_float n rest v)
              (writer_write_encoded-Reached n message 0 live a w e v
                (omega (arith, length-append (data_record n) rest, length-data_record to_float n v))
                (omega (arith, enough, v.record_fits)) r),
        )
