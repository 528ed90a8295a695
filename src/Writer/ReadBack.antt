-- ===== src/Writer/ReadBack.antt =====
-- A log that core/writer.c makes describes itself: the reader gives back all that was written.
use mathlib.Core.Path.{subst}
use libsdlog.Prelude.{
  Option, ℕ, ◌%◌, ◌≤◌, ◌≡◌, refl, ap, sym, ◌∙◌, Bool, true, false, none, some, List, [], ◌∷◌, ◌++◌,
  append_assoc, length, take, take_all, All, if◌then◌else◌, arith,
}
use libsdlog.Encoder.Decode.{values_of}
use libsdlog.Model.{Column}
use libsdlog.Writer.Agree.{Agrees, knows, known-Agrees, learned-Agrees}
use libsdlog.Writer.Reader.{
  Message, Known, columns_of, describe_known, learn, and_rest, read_records, read_log,
}
use libsdlog.Writer.Spec.{
  Entry, IsEntry, id_of, types_of, fmt_record, data_record, described_by, describe, added, log,
}
use libsdlog.Writer.ReadOne.{fmt_message, messages, IsReadable, read_fmt, read_data}
use libsdlog.Outcome.{enomem, Ends}
use libsdlog.Outcome.Ends.{Ends-mono}
use libsdlog.Buffer.{OStreamContext}
use libsdlog.Buffer.Growing.{BoundedGrants}
use libsdlog.Writer.{WriterState}
use libsdlog.Writer.Buffered.{Shown, log_in_buffer, log_in_buffer-Shown}
use libsdlog.Writer.Session.{new_entries}

-- What an FMT record tells of the format at an address.
abbrev columns_at : (ℕ → List ℕ) → ℕ → Option (List Column)
columns_at types_at address = some (columns_of (types_at address))

module _ (to_float : ℕ → ℕ) (types_at : ℕ → List ℕ) where
  -- The reader knows the formats that are described.
  abbrev AllKnown : (ℕ → ℕ) → Known → Type 0
  AllKnown = Agrees (columns_at types_at)

  learned-AllKnown :
      (formats : ℕ → ℕ) (known : Known) (n : Entry)
      → IsReadable types_at n
      → AllKnown formats known
      → AllKnown (describe formats n) (learn 128 (fmt_message n).1 known)
  unfolding describe_known fmt_message
  learned-AllKnown formats known n r =
      learned-Agrees (columns_at types_at) formats known (learn 128 (fmt_message n).1 known) n (λ i.
        let byte : id_of n % 256 ≡ id_of n = omega (arith, r.byte) in
        rw (byte, take_all 16 (types_of n.cols) r.few, r.constant) refl)

  -- A reader that knows the described formats reads the rest.
  abbrev Reads : (ℕ → ℕ) → List ℕ → List Message → Type 0
  Reads formats bytes ms =
      (known : Known) (fuel : ℕ)
      → AllKnown formats known
      → length bytes ≤ fuel
      → read_records fuel known bytes ≡ some ms

  abbrev data_message : Entry → Message
  data_message n = (id_of n, values_of to_float n.cols n.args)

  data-Reads :
      (formats : ℕ → ℕ) (n : Entry) (rest : List ℕ) (ms : List Message)
      → IsEntry to_float n
      → IsReadable types_at n
      → Reads (describe formats n) rest ms
      → Reads (describe formats n) (data_record n ++ rest) (data_message n ∷ ms)
  data-Reads formats n rest ms v r next known fuel k h =
      let (fuel', enough, eq) =
        read_data to_float fuel known n rest v r
          (knows (columns_at types_at) formats known n r.there k
            ∙ ap (λ ts. some (columns_of ts)) (sym r.constant))
          h in
      eq ∙ ap (and_rest (data_message n)) (next known fuel' k enough)

  added-Reads :
      (b : Bool) (formats : ℕ → ℕ) (n : Entry) (rest : List ℕ) (ms : List Message)
      → described_by formats n ≡ b
      → IsEntry to_float n
      → IsReadable types_at n
      → Reads (describe formats n) rest ms
      → Reads formats
          (((if b then [] else fmt_record n) ++ data_record n) ++ rest)
          ((if b then [] else fmt_message n ∷ []) ++ (data_message n ∷ ms))
  added-Reads true formats n rest ms d v r next known fuel k h =
      data-Reads formats n rest ms v r next known fuel
        (known-Agrees (columns_at types_at) formats known n d k) h
  added-Reads false formats n rest ms d v r next known fuel k h =
      let assoc = append_assoc (fmt_record n) (data_record n) rest in
      let (fuel', enough, eq) =
        read_fmt to_float fuel known n (data_record n ++ rest) v
          (omega (arith, ap length assoc, h)) in
      ap (read_records fuel known) assoc
      ∙ eq
      ∙ ap (and_rest (fmt_message n)) (
          data-Reads formats n rest ms v r next (learn 128 (fmt_message n).1 known) fuel'
            (learned-AllKnown formats known n r k) enough)

  log-Reads :
      (ns : List Entry) (formats : ℕ → ℕ)
      → All (IsReadable types_at) ns
      → All (IsEntry to_float) ns
      → Reads formats (log formats ns) (messages to_float formats ns)
  unfolding log messages read_records added
  log-Reads [] formats r v = λ known fuel k h. refl
  log-Reads (n ∷ ns) formats r v =
      added-Reads (described_by formats n) formats n (log (describe formats n) ns)
        (messages to_float (describe formats n) ns) refl v.0 r.0
        (log-Reads ns (describe formats n) r.1 v.1)

  -- The log of calls that can be served and read back, made by a writer that starts with no
  -- format described: the reader gives back the values of all records and FMT records in order,
  -- and nothing else. A format is given by its address, whose columns do not change; it is not
  -- NULL, has at most sixteen columns and an id other than that of FMT.
  pub read_log-log :
      (ns : List Entry)
      → All (IsReadable types_at) ns
      → All (IsEntry to_float) ns
      → read_log (log (λ _. 0) ns) ≡ some (messages to_float (λ _. 0) ns)
  unfolding read_log
  read_log-log ns r v =
      log-Reads ns (λ _. 0) r v (λ _. none) (length (log (λ _. 0) ns)) (λ i ne. absurd (ne refl))
        (omega arith)

  -- A client makes a buffer stream and a writer, writes entries, ends the session, destroys the
  -- writer and asks for the buffer. On success a reader that knows no format but FMT gets back
  -- from these bytes the values of all entries, in order, with those of an FMT record in front
  -- of each entry whose format was not the last one described under its id, and nothing else;
  -- ENOMEM is the only error. The entries are such that the writer can serve them, their strings
  -- have no zero byte, and the format at an address keeps its columns, of which it has at most
  -- sixteen, is not NULL and has an id other than that of FMT. The allocator gives no block of 2
  -- ^ 63 bytes or more.
  pub log_in_buffer-read_log :
      (fuel : ℕ) (ns : List Entry) (s : WriterState OStreamContext)
      → 256 ≤ fuel
      → BoundedGrants s.out.mem
      → All (IsReadable types_at) ns
      → All (IsEntry to_float) ns
      → Ends
          (λ seen _. read_log (take seen.1 seen.0) ≡ some (messages to_float (λ _. 0) ns))
          (λ status _. status ≡ enomem)
          (log_in_buffer to_float fuel ns s)
  log_in_buffer-read_log fuel ns s enough b r v =
      let said : List ℕ × ℕ → Type 0 =
        λ seen. read_log (take seen.1 seen.0) ≡ some (messages to_float (λ _. 0) ns) in
      Ends-mono (λ seen s'. Shown (new_entries ns) s.out.mem.live seen s') (λ seen _. said seen)
        (λ status _. status ≡ enomem) (λ status _. status ≡ enomem)
        (log_in_buffer to_float fuel ns s) (log_in_buffer-Shown to_float fuel enough ns s b v)
        (λ seen s' k. subst said (sym k.shown) (
          ap read_log (take_all (length (new_entries ns)) (new_entries ns) (omega arith))
          ∙ read_log-log ns r v))
        (λ status s' e. e)
