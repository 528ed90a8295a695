-- ===== src/File/Sink.antt =====
-- The output stream of io/file.c keeps the contract of an output stream, whatever the C library does
-- within its documentation of `fwrite`.
use libsdlog.Prelude.{
  ℕ, ◌≤◌, ◌≡◌, ◌≢◌, refl, ap, sym, ◌∙◌, Option, none, some, List, [], ◌∷◌, ◌++◌, length, take, ◌==◌,
  Bool-cases, true, false, ◌⊎◌, inl, inr, arith,
}
use libsdlog.Outcome.{Status, success, ewrite, Ends}
use libsdlog.Outcome.Ends.{Ends-mono}
use libsdlog.Stream.{Env, OState, ostream_write_all}
use libsdlog.Stream.Sink.{Sink, Wrote, accepted, refused, at_env, Took, TookSome, write_all-Took}
use libsdlog.File.{Stdio, FileContext, opened_file, file_write, ostream_file_methods}

-- What the C library says of `fwrite`: it returns the number of items that it wrote, which are the
-- first ones, and at most as many as there were. `written` is what `fwrite` has taken since the file
-- was opened, behind what the file had then; some of it may still be in the buffer of the FILE.
pub record Writes {F : Type 0} (stdio : Stdio F) (written : F → List ℕ) : Type 0 where
  pub at_most : (f : F) (bytes : List ℕ) → (stdio.fwrite f bytes).0 ≤ length bytes
  pub appends :
      (f : F) (bytes : List ℕ)
      → written (stdio.fwrite f bytes).1 ≡ written f ++ take (stdio.fwrite f bytes).0 bytes

pub ewrite-ne : (s : Status) → s ≡ ewrite → s ≢ success
ewrite-ne s e h = cc

module _ {F : Type 0} (stdio : Stdio F) (written : F → List ℕ) (writes : Writes stdio written) where
  abbrev pub IsOpen : Env (FileContext F) → Type 0
  IsOpen e = (f : F) × (e.context.fp ≡ some f)

  abbrev pub written_opt : Option F → List ℕ
  written_opt none = []
  written_opt (some f) = written f

  abbrev pub file_view : Env (FileContext F) → List ℕ
  file_view e = written_opt e.context.fp

  -- The only code is EWRITE, and the C library has failed at some call.
  abbrev pub FileFails : Status → Type 0
  FileFails s =
      (s ≡ ewrite)
      × (((f : F) × (bytes : List ℕ) × (((stdio.fwrite f bytes).0 == length bytes) ≡ false))
          ⊎ ((f : F) × ((stdio.fflush f).0 ≡ true)))

  pub file_write-Wrote :
      (b : ℕ) (bytes : List ℕ) (e : Env (FileContext F))
      → IsOpen e
      → Wrote IsOpen file_view FileFails (b ∷ bytes) e (file_write stdio (b ∷ bytes) e)
  unfolding file_write
  file_write-Wrote b bytes e (f, is_f) =
      let data_bytes = b ∷ bytes in
      let (n, f') = stdio.fwrite f data_bytes in
      let e' : Env (FileContext F) = record e { context = opened_file f' } in
      let view : written f' ≡ file_view e ++ take n data_bytes =
        writes.appends f data_bytes ∙ ap (λ o. written_opt o ++ take n data_bytes) (sym is_f) in
      elim (Bool-cases (n == length data_bytes)) [
        | inl all ↦
            accepted n e' (rw (is_f, all) refl) (ground arith) (writes.at_most f data_bytes)
              (f', refl) view
        | inr short ↦
            refused ewrite (some n) n e' (rw (is_f, short) refl) (refl, inl (f, data_bytes, short))
              (f', refl) view
      ]

  abbrev pub file_sink : Sink (ostream_file_methods stdio)
  file_sink = record {
    Inv = IsOpen;
    view = file_view;
    Fails = FileFails;
    fails_ne = λ s f. ewrite-ne s f.0;
    write = file_write stdio;
    has_write = refl;
    wrote = file_write-Wrote;
  }

  -- What `fwrite` has taken for the file, which is open still.
  abbrev pub InFile : F → List ℕ → OState (FileContext F) → Type 0
  InFile f bytes s =
      (e : Env (FileContext F)) × (s ≡ at_env (ostream_file_methods stdio) e)
      × IsOpen e
      × (file_view e ≡ written f ++ bytes)

  -- `sdlog_ostream_write_all` on a file ends. Either `fwrite` has taken all of the bytes, after what it
  -- took before and in order; or the code is EWRITE, which is the only error, and it has taken a first
  -- part of them.
  pub write_all-InFile :
      (fuel : ℕ) (bytes : List ℕ) (f : F) (e : Env (FileContext F))
      → length bytes ≤ fuel
      → e.context.fp ≡ some f
      → Ends
          (λ _ s. InFile f bytes s)
          (λ status s. (status ≡ ewrite) × ((n : ℕ) × InFile f (take n bytes) s))
          (ostream_write_all fuel bytes (at_env (ostream_file_methods stdio) e))
  write_all-InFile fuel bytes f e enough is_f =
      let methods = ostream_file_methods stdio in
      let view : (xs : List ℕ) → file_view e ++ xs ≡ written f ++ xs =
        λ xs. ap (λ o. written_opt o ++ xs) is_f in
      Ends-mono (λ _ s. Took methods file_sink e bytes s) (λ _ s. InFile f bytes s)
        (TookSome methods file_sink e bytes)
        (λ status s. (status ≡ ewrite) × ((n : ℕ) × InFile f (take n bytes) s))
        (ostream_write_all fuel bytes (at_env methods e))
        (write_all-Took methods file_sink fuel bytes e enough (f, is_f))
        (λ _ s t. (t.env, t.form, t.inv, t.seen ∙ view bytes))
        (λ status s t. (
          t.fails.0,
          (t.count, (t.took.env, t.took.form, t.took.inv, t.took.seen ∙ view (take t.count bytes))),
        ))
