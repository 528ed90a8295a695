-- ===== src/Writer/Filed.antt =====
-- core/writer.c over io/file.c: a whole log in a file of the caller.
use mathlib.Core.Path.{subst}
use libsdlog.Prelude.{
  ℕ, ◌+◌, ◌≤◌, ◌<◌, ◌≡◌, ◌⊎◌, inl, inr, refl, ap, sym, ◌∙◌, Bool, true, false, Bool-cases, Option,
  none, some, List, [], ◌∷◌, ◌++◌, append-nil, length, All, arith,
}
use libsdlog.Outcome.{Status, enomem, ewrite, Ends, Cmd, ◌>>◌}
use libsdlog.Outcome.Ends.{Ends-mono, Ends-both}
use libsdlog.Memory.{Mem}
use libsdlog.Stream.{Env, OState}
use libsdlog.Stream.Sink.{at_env}
use libsdlog.File.{
  Stdio, FileContext, opened_file, file_context_size, ostream_file_methods, ostream_init_file,
}
use libsdlog.File.Sink.{Writes, InFile, written_opt}
use libsdlog.File.Quiet.{Flushes, Saves, JustFlushed, quiet_file, closes_file}
use libsdlog.Writer.{Writer, WriterState, zero_writer, on_stream}
use libsdlog.Writer.Calls.{IsPrefix}
use libsdlog.Writer.Closing.{write_log-Ended}
use libsdlog.Writer.End.{Destroyed}
use libsdlog.Writer.Life.{InitFailed}
use libsdlog.Writer.Ready.{start}
use libsdlog.Writer.Session.{write_log, new_entries, Whole, Cut, write_log-Whole}
use libsdlog.Writer.Spec.{Entry, IsEntry}

module _ {F : Type 0} (stdio : Stdio F) where
  -- A client that writes a log to an open file.
  unfoldable pub log_in_file :
      (to_float : ℕ → ℕ) (fuel : ℕ) → F → List Entry → Cmd (WriterState (FileContext F)) (Unit {0})
  log_in_file to_float fuel f ns =
      on_stream (ostream_init_file stdio f) >> write_log to_float fuel ns

module _ {F : Type 0} (stdio : Stdio F) (written saved : F → List ℕ) (writes : Writes stdio written)
    (flushes : Flushes stdio written) (saves : Saves stdio written saved) where
  -- `fwrite` has taken the log of the entries, and `live` blocks are allocated. The log stands in the
  -- file, or there was no entry, or an error is recorded for the file.
  pub record Logged (live : ℕ) (f : F) (ns : List Entry) (s : WriterState (FileContext F))
      : Type 0 where
    pub env : Env (FileContext F)
    pub form : s.out ≡ at_env (ostream_file_methods stdio) env
    pub now : F
    pub is_now : env.context.fp ≡ some now
    pub taken : written now ≡ written f ++ new_entries ns
    pub in_file :
        (ns ≡ []) ⊎ ((stdio.ferror now ≡ true) ⊎ (saved now ≡ written f ++ new_entries ns))
    pub blocks : env.mem.live ≡ live
    pub cleared : s.writer ≡ zero_writer

  abbrev fp_of : Option (FileContext F) → Option F
  fp_of none = none
  fp_of (some c) = c.fp

  -- What the last flush left in the file.
  saved_by_flush :
      (e : Env (FileContext F)) (f g : F)
      → e.context.fp ≡ some f
      → (stdio.fflush g).0 ≡ false
      → some e.context ≡ some (opened_file (stdio.fflush g).1)
      → stdio.ferror f ≡ false
      → saved f ≡ written f
  saved_by_flush e f g is_f fine at_g =
      let same : some (stdio.fflush g).1 ≡ some f = sym (ap fp_of at_g) ∙ is_f in
      subst (λ (h : F). stdio.ferror h ≡ false → saved h ≡ written h) (some_inj _ _ same)
        (saves g fine)
    where
      some_inj : (x y : F) → some x ≡ some y → x ≡ y
      some_inj x y h = cc h

  for_some : {P : Type 0} (ns : List Entry) → (0 < length ns → P) → (ns ≡ []) ⊎ P
  for_some [] p = inl refl
  for_some (n ∷ ns) p = inr (p (omega arith))

  closed_file :
      (live : ℕ) (f : F) (ns : List Entry) (grant : ℕ → ℕ → Bool) (s : WriterState (FileContext F))
      → Destroyed
          (quiet_file stdio written writes flushes)
          grant
          live
          (written f ++ new_entries ns)
          s
      → (0 < length ns → JustFlushed stdio written writes flushes s.out)
      → Logged live f ns s
  closed_file live f ns grant s d flushed =
      let (now, is_now) = d.inv in
      let view : written now ≡ written f ++ new_entries ns =
        ap (written_opt stdio written writes) (sym is_now) ∙ d.view in
      record {
        env = d.env;
        form = d.form;
        now = now;
        is_now = is_now;
        taken = view;
        in_file = for_some ns (λ some_entry.
            (let (g, fine, at_g) = flushed some_entry in
              elim (Bool-cases (stdio.ferror now)) [
                | inl error ↦ inl error
                | inr no_error ↦ inr (
                    saved_by_flush d.env now g is_now fine
                      (sym (ap (λ (o : OState (FileContext F)). o.stream.context) d.form) ∙ at_g)
                      no_error
                    ∙ view)
              ]));
        blocks = d.blocks;
        cleared = d.cleared;
      }

  -- `fwrite` has taken only a first part of the log, perhaps nothing.
  pub record CutShort (f : F) (bytes : List ℕ) (status : Status) (s : WriterState (FileContext F))
      : Type 0 where
    pub code : (status ≡ ewrite) ⊎ (status ≡ enomem)
    pub part : List ℕ
    pub is_part : IsPrefix part bytes
    pub file : InFile stdio written writes f part s.out

  abbrev pub NotOpened : WriterState (FileContext F) → Status → WriterState (FileContext F) → Type 0
  NotOpened s status s' = (status ≡ enomem) × (s'.out.stream ≡ s.out.stream)

  module _ (to_float : ℕ → ℕ) (fuel : ℕ) (enough : 256 ≤ fuel) where
    pub opened_step :
        (f : F) (ns : List Entry) (w : Writer) (m : Mem)
        → All (IsEntry to_float) ns
        → Ends
            (λ _ s. Logged m.live f ns s)
            (CutShort f (new_entries ns))
            (write_log to_float fuel ns (record {
              writer = w;
              out =
                  at_env (ostream_file_methods stdio) (record { context = opened_file f; mem = m });
            }))
    opened_step f ns w m v =
        let e : Env (FileContext F) = record { context = opened_file f; mem = m } in
        let q = quiet_file stdio written writes flushes in
        let c = closes_file stdio written writes flushes in
        Ends-mono _ (λ _ s. Logged m.live f ns s) _ (CutShort f (new_entries ns))
          (write_log to_float fuel ns (start q m.grant w e))
          (Ends-both (λ _ s. Whole q m.grant m.live (written f) (new_entries ns) s)
            (λ _ s. 0 < length ns → c.Ended s.out)
            (λ status s.
              InitFailed q m.grant e status s
              ⊎ Cut q m.grant m.live (written f) (new_entries ns) status s)
            (λ _ _. Unit {0}) (write_log to_float fuel ns (start q m.grant w e))
            (write_log-Whole q m.grant to_float fuel enough ns w e (f, refl) refl v)
            (write_log-Ended q c m.grant to_float fuel enough ns w e (f, refl) refl v))
          (λ _ s (d, flushed). closed_file m.live f ns m.grant s d flushed)
          (λ status s (k, _). elim k [
            | inl i ↦
                let (e', form, v', seen) = i.2 in
                record {
                  code = inr i.0;
                  part = [];
                  is_part = (new_entries ns, refl);
                  file = (e', form, v', seen ∙ sym (append-nil (written f)));
                }
            | inr c' ↦ record {
              code = elim c'.code [ inl x ↦ inl x.0 | inr x ↦ inr x.0 ];
              part = c'.part;
              is_part = c'.is_part;
              file = (c'.left.env, c'.left.form, c'.left.inv, c'.left.view);
            }
          ])

    -- A client opens a stream on a file, makes a writer, writes entries that the writer can serve, ends
    -- the session and destroys the writer. On success `fwrite` has taken the log of the entries behind
    -- what it took before, the writer is cleared and one block more is allocated, that of the stream;
    -- all of this stands in the file itself, unless there was no entry or stdio has recorded an error
    -- for the file. If opening the stream fails, that is with ENOMEM and no stream was made. A later error is
    -- EWRITE or ENOMEM, and `fwrite` has taken a first part of the log, perhaps nothing. Of stdio it is
    -- supposed that fwrite takes as many bytes as it says, that fflush takes none, and that a fflush that
    -- succeeds on a file without a recorded error brings what was taken into the file; write_all has 256
    -- rounds at least.
    pub log_in_file-Logged :
        (f : F) (ns : List Entry) (s : WriterState (FileContext F))
        → All (IsEntry to_float) ns
        → Ends
            (λ _ s'. Logged (s.out.mem.live + 1) f ns s')
            (λ status s'. NotOpened s status s' ⊎ CutShort f (new_entries ns) status s')
            (log_in_file stdio to_float fuel f ns s)
    unfolding log_in_file ostream_init_file
    log_in_file-Logged f ns s v =
        elim (Bool-cases (s.out.mem.grant s.out.mem.calls file_context_size)) [
          | inr denied ↦ rw denied (inl (refl, refl))
          | inl granted ↦
              let m : Mem = record s.out.mem {
                calls = s.out.mem.calls + 1;
                live = s.out.mem.live + 1;
              } in
              rw granted (
                Ends-mono (λ _ s'. Logged m.live f ns s') (λ _ s'. Logged m.live f ns s')
                  (CutShort f (new_entries ns))
                  (λ status s'. NotOpened s status s' ⊎ CutShort f (new_entries ns) status s') _
                  (opened_step f ns s.writer m v) (λ _ _ k. k) (λ _ _ k. inr k))
        ]
