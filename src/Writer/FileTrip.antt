-- ===== src/Writer/FileTrip.antt =====
-- core/writer.c over both streams of io/file.c: a log is written to a file and read back from it.
use mathlib.Core.Path.{subst}
use libsdlog.Prelude.{
  ℕ, ◌-◌, ◌+◌, ◌≤◌, ◌<◌, ◌≡◌, ◌⊎◌, inl, inr, refl, ap, sym, ◌∙◌, Bool-cases, false, if◌then◌else◌,
  Option, some, none, List, [], ◌++◌, length, take, take_all, All, arith,
}
use libsdlog.Outcome.{
  Status, enomem, ewrite, eread, Ends, Cmd, crash, deref, throw, ◌>>◌, ◌>>=◌, finally,
}
use libsdlog.Outcome.Ends.{Ends-mono, Ends-and_then}
use libsdlog.Memory.{Mem, sdlog_free}
use libsdlog.Stream.{Env, OState, closed, ostream_destroy}
use libsdlog.Stream.Sink.{at_env}
use libsdlog.File.{
  Stdio, FileContext, opened_file, file_context_size, ostream_file_methods, ostream_init_file,
  file_destroy,
}
use libsdlog.File.Quiet.{Flushes, Saves}
use libsdlog.File.Reading.{read_file, ReadFails, read_file_lem}
use libsdlog.File.Sink.{Writes}
use libsdlog.File.Source.{Reads}
use libsdlog.Writer.{Writer, WriterState, zero_writer, on_stream, on_heap}
use libsdlog.Writer.Filed.{Logged, CutShort, opened_step}
use libsdlog.Writer.Known.{Ends-on_heap}
use libsdlog.Writer.ReadBack.{read_log-log}
use libsdlog.Writer.Reader.{read_log}
use libsdlog.Writer.ReadOne.{IsReadable, messages}
use libsdlog.Writer.Rounds.{Round, Back, Lost, Gone, Destroys, use_and_destroy}
use libsdlog.Writer.Session.{write_log, new_entries}
use libsdlog.Writer.Spec.{Entry, IsEntry}

-- `reopen` opens the file that a FILE writes to once more, for reading, and may fail; `size` is the
-- number of bytes in that file.
module _ {F : Type 0} (stdio : Stdio F) (reopen : F → Option F) (size : F → ℕ) where
  -- The file behind the client's own pointer, which is the one in the context.
  abbrev current_file : Cmd (OState (FileContext F)) F
  current_file s = elim s.stream.context [ none ↦ crash s | some c ↦ deref c.fp s ]

  abbrev read_opened : Option F → ℕ → Cmd (WriterState (FileContext F)) (List ℕ)
  read_opened none n = throw eread
  read_opened (some g) n = on_heap (read_file stdio g n)

  -- All of the bytes in the file, unless an error was recorded when it was written.
  abbrev read_back : Cmd (WriterState (FileContext F)) (List ℕ)
  read_back = on_stream current_file >>= λ f.
      if stdio.ferror f then throw ewrite else read_opened (reopen f) (size f)

  -- A client that writes a log to an empty file, opens the file once more and reads it through an input
  -- stream; the output stream is destroyed last, also after an error.
  unfoldable pub log_and_read_file :
      (to_float : ℕ → ℕ) (fuel : ℕ) → F → List Entry → Cmd (WriterState (FileContext F)) (List ℕ)
  log_and_read_file to_float fuel f ns =
      on_stream (ostream_init_file stdio f)
      >> finally (write_log to_float fuel ns >> read_back) (on_stream ostream_destroy)

-- What is documented of a file that is opened for reading, and of its size: what can be read are the
-- bytes that stand in the file then, and the size is their number.
pub record Opens {F : Type 0} (saved left : F → List ℕ) (reopen : F → Option F) (size : F → ℕ)
    : Type 0 where
  pub opens : (f g : F) → reopen f ≡ some g → left g ≡ saved f
  pub sizes : (f : F) → size f ≡ length (saved f)

module _ {F : Type 0} (stdio : Stdio F) (written saved left : F → List ℕ) (reopen : F → Option F)
    (size : F → ℕ) (writes : Writes stdio written) (flushes : Flushes stdio written)
    (saves : Saves stdio written saved) (reads : Reads stdio left)
    (opens : Opens saved left reopen size) where
  -- The output stream is there; its end leaves `live` blocks.
  abbrev IsOpen : ℕ → WriterState (FileContext F) → Type 0
  IsOpen live s =
      (e : Env (FileContext F)) × (s.out ≡ at_env (ostream_file_methods stdio) e)
      × (e.mem.live - 1 ≡ live)

  abbrev pub FailsWith : Status → Type 0
  FailsWith status = (status ≡ enomem) ⊎ ((status ≡ ewrite) ⊎ (status ≡ eread))

  abbrev FileBack : ℕ → List ℕ → List ℕ → WriterState (FileContext F) → Type 0
  FileBack = Back IsOpen FailsWith

  abbrev FileLost : Status → WriterState (FileContext F) → Type 0
  FileLost = Lost IsOpen FailsWith

  read_code :
      (f : F) (n : ℕ) (status : Status)
      → n ≤ length (left f)
      → ReadFails stdio left reads f n status
      → FailsWith status
  read_code f n status le (inl memory) = inl memory
  read_code f n status le (inr (inl error)) = inr (inr error)
  read_code f n status le (inr (inr (at_end, short))) = absurd (omega arith)

  abbrev at_file : Writer → F → Mem → WriterState (FileContext F)
  at_file w f m = record {
    writer = w;
    out = at_env (ostream_file_methods stdio) (record { context = opened_file f; mem = m });
  }

  read_opened-Back :
      (live : ℕ) (w : Writer) (f : F) (m : Mem) (bytes : List ℕ) (o : Option F)
      → reopen f ≡ o
      → m.live ≡ live + 1
      → w ≡ zero_writer
      → saved f ≡ bytes
      → Ends
          (FileBack live bytes)
          FileLost
          (read_opened stdio reopen size o (size f) (at_file w f m))
  read_opened-Back live w f m bytes none is_o one_more cleared holds =
      (inr (inr refl), (m.live - 1, (record { context = opened_file f; mem = m }, refl, refl)))
  read_opened-Back live w f m bytes (some g) is_o one_more cleared holds =
      let n = size f in
      let all : left g ≡ bytes = opens.opens f g is_o ∙ holds in
      let whole : n ≡ length bytes = opens.sizes f ∙ ap length holds in
      let le : n ≤ length (left g) = omega (arith, whole, ap length all) in
      let s = at_file w f m in
      Ends-mono _ (FileBack live bytes) _ FileLost (on_heap (read_file stdio g n) s)
        (Ends-on_heap s _ _ (read_file stdio g n m) (read_file_lem stdio left reads g n m))
        (λ got s' (m', is_s, ((is_got, enough), balanced)).
          subst (FileBack live bytes got) (sym is_s) (
            is_got ∙ (ap (take n) all ∙ take_all n bytes (omega (arith, whole))),
            (record { context = opened_file f; mem = m' }, refl, omega (arith, balanced.0)),
            cleared,
          ))
        (λ status s' (m', is_s, (fails, balanced)). subst (FileLost status) (sym is_s) (
          read_code g n status le fails,
          (m'.live - 1, (record { context = opened_file f; mem = m' }, refl, refl)),
        ))

  read_at :
      (live : ℕ) (w : Writer) (f : F) (m : Mem) (bytes : List ℕ)
      → m.live ≡ live + 1
      → w ≡ zero_writer
      → (stdio.ferror f ≡ false → saved f ≡ bytes)
      → Ends (FileBack live bytes) FileLost (read_back stdio reopen size (at_file w f m))
  read_at live w f m bytes one_more cleared holds = elim (Bool-cases (stdio.ferror f)) [
    | inl error ↦
        rw error
          (inr (inl refl), (m.live - 1, (record { context = opened_file f; mem = m }, refl, refl)))
    | inr fine ↦
        rw fine (read_opened-Back live w f m bytes (reopen f) refl one_more cleared (holds fine))
  ]

  read_back-Back :
      (live : ℕ) (f : F) (ns : List Entry) (s : WriterState (FileContext F))
      → 0 < length ns
      → written f ≡ []
      → Logged stdio written saved writes flushes saves (live + 1) f ns s
      → Ends (FileBack live (new_entries ns)) FileLost (read_back stdio reopen size s)
  read_back-Back live f ns s some_entry empty l =
      let m = l.env.mem in
      let at_f : s.out ≡ (at_file s.writer l.now m).out =
        l.form
        ∙ ap
            (λ fp.
              at_env (ostream_file_methods stdio)
                (record { context = record { fp = fp }; mem = m }))
            l.is_now in
      subst
        (λ o.
          Ends (FileBack live (new_entries ns)) FileLost
            (read_back stdio reopen size (record { writer = s.writer; out = o })))
        (sym at_f)
        (read_at live s.writer l.now m (new_entries ns) l.blocks l.cleared (λ no_error.
          elim l.in_file [
            | inl no_entry ↦ absurd (omega (arith, some_entry, ap length no_entry))
            | inr (inl error) ↦ absurd (cc (error, no_error))
            | inr (inr held) ↦ held ∙ ap (λ xs. xs ++ new_entries ns) empty
          ]))

  destroys_file : Destroys IsOpen FailsWith
  unfolding ostream_destroy file_destroy sdlog_free
  destroys_file live s (e, form, blocks) = rw form (refl, blocks, refl)

  module _ (to_float : ℕ → ℕ) (fuel : ℕ) (enough : 256 ≤ fuel) (f : F) (ns : List Entry)
      (some_entry : 0 < length ns) (empty : written f ≡ []) (v : All (IsEntry to_float) ns) where
    -- Between the making of the output stream and its end.
    use-Back :
        (live : ℕ) (w : Writer) (m : Mem)
        → m.live ≡ live + 1
        → Ends
            (FileBack live (new_entries ns))
            FileLost
            ((write_log to_float fuel ns >> read_back stdio reopen size) (at_file w f m))
    use-Back live w m one_more =
        let bytes = new_entries ns in
        Ends-and_then (λ _ s. Logged stdio written saved writes flushes saves (live + 1) f ns s)
          (CutShort stdio written saved writes flushes saves f bytes) (FileBack live bytes) FileLost
          (write_log to_float fuel ns (at_file w f m)) (λ _. read_back stdio reopen size)
          (rw (← one_more)
            (opened_step stdio written saved writes flushes saves to_float fuel enough f ns w m v))
          (λ _ s l. read_back-Back live f ns s some_entry empty l)
          (λ status s c. (
            elim c.code [ inl is_write ↦ inr (inl is_write) | inr is_memory ↦ inl is_memory ],
            (c.file.0.mem.live - 1, (c.file.0, c.file.1, refl)),
          ))

    -- A whole round over a file. A client makes an output stream on an empty file and a writer, writes
    -- entries, at least one, ends the session, destroys the writer, opens the file once more for
    -- reading unless an error is recorded for it, makes an input stream on it, reads as many bytes as
    -- are in the file and destroys both streams, also after an error. On success the bytes are the log
    -- of the entries, and a reader that knows no format but FMT gets back their values, in order, with
    -- those of an FMT record in front of each entry whose format was not the last one described under
    -- its id; writer and stream are cleared, and as many blocks are allocated as before all calls. The
    -- only errors are ENOMEM, EWRITE and EREAD; the output stream then was not made, or is cleared. Of
    -- stdio it is supposed that fwrite takes as many bytes as it says, that fflush takes none, and that a
    -- fflush that succeeds on a file without a recorded error brings what was taken into the file; that
    -- fread gives the next bytes, and fewer than wanted only after an error or at the end; and that a
    -- file opened for reading has the bytes that stand in it, whose number is its size. write_all has
    -- 256 rounds at least. The entries are such that the writer can serve them, their strings have no
    -- zero byte, and the format at an address keeps its columns, of which it has at most sixteen, is
    -- not NULL and has an id other than that of FMT.
    pub log_and_read_file-Round :
        (types_at : ℕ → List ℕ) (s : WriterState (FileContext F))
        → All (IsReadable types_at) ns
        → Ends
            (λ got s'.
              Round (new_entries ns) s.out.mem.live got s'
              × (read_log got ≡ some (messages to_float (λ _. 0) ns)))
            (λ status s'.
              FailsWith status × ((s'.out.stream ≡ s.out.stream) ⊎ (s'.out ≡ closed s'.out.mem)))
            (log_and_read_file stdio reopen size to_float fuel f ns s)
    unfolding log_and_read_file ostream_init_file
    log_and_read_file-Round types_at s r =
        elim (Bool-cases (s.out.mem.grant s.out.mem.calls file_context_size)) [
          | inr denied ↦ rw denied (inl refl, inl refl)
          | inl granted ↦
              let live = s.out.mem.live in
              let m : Mem = record s.out.mem { calls = s.out.mem.calls + 1; live = live + 1 } in
              rw granted (
                Ends-mono (Round (new_entries ns) live)
                  (λ got s'.
                    Round (new_entries ns) live got s'
                    × (read_log got ≡ some (messages to_float (λ _. 0) ns)))
                  (Gone IsOpen FailsWith)
                  (λ status s'.
                    FailsWith status
                    × ((s'.out.stream ≡ s.out.stream) ⊎ (s'.out ≡ closed s'.out.mem)))
                  _
                  (use_and_destroy IsOpen FailsWith (new_entries ns) live
                    (write_log to_float fuel ns >> read_back stdio reopen size)
                    (at_file s.writer f m) destroys_file (use-Back live s.writer m refl))
                  (λ got s' k. (k, ap read_log k.same ∙ read_log-log to_float types_at ns r v))
                  (λ status s' k. (k.0, inr k.1)))
        ]
