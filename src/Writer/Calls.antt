-- ===== src/Writer/Calls.antt =====
-- core/writer.c: a call of `sdlog_writer_write`, against the log that it is to make.
use mathlib.Core.Path.{subst}
use libsdlog.Prelude.{
  ◌+◌, ℕ, ◌≤◌, ◌≡◌, inl, refl, ap, sym, ◌∙◌, Bool, true, List, [], ◌++◌, append-nil, append_assoc,
  take, drop, take-append-drop,
}
use libsdlog.Outcome.{Outcome, Status, Ends, Cmd, ◌>>◌}
use libsdlog.Outcome.Ends.{Ends-mono, Ends-and_then}
use libsdlog.Stream.{Env, OStreamSpec}
use libsdlog.Stream.Quiet.{QuietSink}
use libsdlog.Writer.{
  Writer, WriterState, ensure_session_started, write_format_if_needed, write_record_va,
  writer_write_va,
}
use libsdlog.Writer.Ready.{Log, more, Ready, Reached, Partly, LogFails, start, write_record-Reached}
use libsdlog.Writer.Spec.{Entry, IsEntry, data_record, id_of, describe, added, with_header}
use libsdlog.Writer.Entries.{described_log, fmt_part, write_format_if_needed-Reached}
use libsdlog.Writer.Opening.{opened_log, Untouched, ensure_session_started-Reached}

-- The log after a call.
abbrev pub after_entry : Log → Entry → Log
after_entry a n = record {
  session = true;
  formats = describe a.formats n;
  bytes = a.bytes ++ added a.formats n;
}

-- The log in a call behind the FMT record, and after the call put `bytes` behind that.
abbrev pub formatted : Log → Entry → Log
formatted a n = more (described_log (opened_log a) n) (fmt_part a n)

abbrev pub after_call : Log → Entry → List ℕ → Log
after_call a n bytes = more (described_log (opened_log a) n) (fmt_part a n ++ bytes)

abbrev pub IsPrefix : List ℕ → List ℕ → Type 0
IsPrefix xs ys = (rest : List ℕ) × (ys ≡ xs ++ rest)

IsPrefix-take : (k : ℕ) (xs ys : List ℕ) → IsPrefix (take k xs) (xs ++ ys)
IsPrefix-take k xs ys = (
  drop k xs ++ ys,
  ap (λ zs. zs ++ ys) (sym (take-append-drop k xs)) ∙ append_assoc (take k xs) (drop k xs) ys,
)

pub IsPrefix-append : (xs ys zs : List ℕ) → IsPrefix ys zs → IsPrefix (xs ++ ys) (xs ++ zs)
IsPrefix-append xs ys zs (rest, e) = (rest, ap (λ t. xs ++ t) e ∙ sym (append_assoc xs ys rest))

module _ {C : Type 0} {spec : OStreamSpec C} (q : QuietSink spec) (grant : ℕ → ℕ → Bool) where
  -- A call stopped with an error: a first part of `bytes` is on the stream, and the writer stands for
  -- some log that ends there.
  pub record Halted (live : ℕ) (a : Log) (bytes : List ℕ) (status : Status) (s : WriterState C)
      : Type 0 where
    pub code : LogFails q grant status
    pub part : List ℕ
    pub is_part : IsPrefix part bytes
    pub left : Log
    pub seen : left.bytes ≡ a.bytes ++ part
    pub reached : Reached q grant live left s

  -- What the stream takes behind the FMT record, seen from the start of the call.
  behind_format :
      (n : Entry) (live : ℕ) (a : Log) (bytes : List ℕ) (r : Outcome (Unit {0}) × WriterState C)
      → Ends
          (λ _ s. Reached q grant live (more (formatted a n) bytes) s)
          (Partly q grant live (formatted a n) bytes)
          r
      → Ends
          (λ _ s. Reached q grant live (after_call a n bytes) s)
          (Halted live a (fmt_part a n ++ bytes))
          r
  behind_format n live a bytes r h =
      let front = fmt_part a n in
      Ends-mono (λ _ s. Reached q grant live (more (formatted a n) bytes) s)
        (λ _ s. Reached q grant live (after_call a n bytes) s)
        (Partly q grant live (formatted a n) bytes) (Halted live a (front ++ bytes)) r h
        (λ _ s k.
          subst (λ bs. Reached q grant live (record (formatted a n) { bytes = bs }) s)
            (append_assoc a.bytes front bytes) k)
        (λ status s k. record {
          code = k.code;
          part = front ++ take k.count bytes;
          is_part =
              IsPrefix-append front (take k.count bytes) bytes
                (drop k.count bytes, sym (take-append-drop k.count bytes));
          left = more (formatted a n) (take k.count bytes);
          seen = append_assoc a.bytes front (take k.count bytes);
          reached = k.reached;
        })

  module _ (to_float : ℕ → ℕ) (fuel : ℕ) (enough : 256 + q.patience ≤ fuel) where
    -- A call that opens the session, describes the format and then puts `bytes` on the stream.
    pub call-Reached :
        (n : Entry) (live : ℕ) (a : Log) (w : Writer) (e : Env C) (bytes : List ℕ)
        (m : Cmd (WriterState C) (Unit {0}))
        → IsEntry to_float n
        → ((w' : Writer) (e' : Env C)
            → Ready q grant live (formatted a n) w' e'
            → Ends
                (λ _ s. Reached q grant live (more (formatted a n) bytes) s)
                (Partly q grant live (formatted a n) bytes)
                (m (start q grant w' e')))
        → Ready q grant live a w e
        → Ends
            (λ _ s. Reached q grant live (after_call a n bytes) s)
            (Halted live a (fmt_part a n ++ bytes))
            ((ensure_session_started >> (write_format_if_needed to_float fuel n.ref >> m))
              (start q grant w e))
    call-Reached n live a w e bytes m v put r =
        let after = λ (s : WriterState C). Reached q grant live (after_call a n bytes) s in
        let halted = Halted live a (fmt_part a n ++ bytes) in
        Ends-and_then (λ _ s. Reached q grant live (opened_log a) s) (Untouched q grant live a)
          (λ _ s. after s) halted (ensure_session_started (start q grant w e)) _
          (ensure_session_started-Reached q grant live a w e r)
          (λ _ s k. rw k.form (
            Ends-and_then (λ _ s'. Reached q grant live (formatted a n) s')
              (Partly q grant live (described_log (opened_log a) n) (fmt_part a n))
              (λ _ s'. after s') halted
              (write_format_if_needed to_float fuel n.ref (start q grant k.writer k.env)) _
              (write_format_if_needed-Reached q grant to_float fuel enough n live (opened_log a)
                k.writer k.env v k.ready)
              (λ _ s' k'. rw k'.form (
                behind_format n live a bytes (m (start q grant k'.writer k'.env))
                  (put k'.writer k'.env k'.ready)))
              (λ status s' k'. record {
                code = k'.code;
                part = take k'.count (fmt_part a n);
                is_part = IsPrefix-take k'.count (fmt_part a n) bytes;
                left = more (described_log (opened_log a) n) (take k'.count (fmt_part a n));
                seen = refl;
                reached = k'.reached;
              })))
          (λ status s k. record {
            code = inl k.0;
            part = [];
            is_part = (fmt_part a n ++ bytes, refl);
            left = a;
            seen = sym (append-nil a.bytes);
            reached = k.1;
          })

    -- A call of `sdlog_writer_write_va` by a writer that stands for a log, for a call that it can serve:
    -- on success the log has grown by the record, behind the FMT record of its format if the format at
    -- this address is not described under its id, the session is open and the format described. On an
    -- error, of the stream or ENOMEM after a refusal of the allocator, a first part of that was added
    -- and the writer stands for a log that ends there. The loops end and all strings are freed.
    pub writer_write_va-Reached :
        (n : Entry) (live : ℕ) (a : Log) (w : Writer) (e : Env C)
        → IsEntry to_float n
        → Ready q grant live a w e
        → Ends
            (λ _ s. Reached q grant live (after_entry a n) s)
            (Halted live a (added a.formats n))
            (writer_write_va to_float fuel n.ref n.args (start q grant w e))
    unfolding writer_write_va added data_record
    writer_write_va-Reached n live a w e v r =
        call-Reached n live a w e (with_header (id_of n) n.fields)
          (write_record_va to_float fuel n.ref.format n.args) v
          (λ w' e' r'.
            write_record-Reached q grant to_float fuel enough (id_of n) _ n.cols n.ref.format n.args
              n.fields live (formatted a n) w' e' v.described v.encodes v.record_fits r')
          r
