-- ===== src/File/Source.antt =====
-- The input stream of io/file.c keeps the contract of an input stream, whatever the C library does
-- within its documentation of `fread`.
use libsdlog.Prelude.{
  ℕ, suc, ◌≤◌, ◌<◌, ◌≡◌, ◌≢◌, ◌⊎◌, refl, ap, sym, ◌∙◌, true, Option, none, some, List, [], ◌++◌,
  take, length, length_zero, ltb, ltb→lt, ◌==◌, Bool-cases, inl, inr, arith,
}
use libsdlog.Outcome.{Status, success, eread, eof, Ends}
use libsdlog.Stream.{Env, istream_read_exactly}
use libsdlog.Stream.Source.{
  Source, Delivered, delivered, failed, at_env, ReadFully, Ended, read_exactly-ReadFully,
}
use libsdlog.Outcome.Ends.{Ends-mono}
use libsdlog.Buffer.Input.{given, ended}
use libsdlog.File.{Stdio, FileContext, opened_file, read_status, file_read, istream_file_methods}

-- What the C library says of `fread`: it gives the next bytes of the file, at most as many as were
-- asked for; if fewer, there was an error or the end of the file, and at the end nothing is left.
-- `left` is what has not been read.
pub record Reads {F : Type 0} (stdio : Stdio F) (left : F → List ℕ) : Type 0 where
  pub at_most : (f : F) (n : ℕ) → length (stdio.fread f n).0 ≤ n
  pub takes : (f : F) (n : ℕ) → left f ≡ (stdio.fread f n).0 ++ left (stdio.fread f n).1
  pub why_short :
      (f : F) (n : ℕ)
      → length (stdio.fread f n).0 < n
      → (stdio.ferror (stdio.fread f n).1 ≡ true)
        ⊎ ((stdio.feof (stdio.fread f n).1 ≡ true) × (left (stdio.fread f n).1 ≡ []))

module _ {F : Type 0} (stdio : Stdio F) (left : F → List ℕ) (reads : Reads stdio left) where
  abbrev pub IsOpen : Env (FileContext F) → Type 0
  IsOpen e = (f : F) × (e.context.fp ≡ some f)

  abbrev left_opt : Option F → List ℕ
  left_opt none = []
  left_opt (some f) = left f

  abbrev pub file_rest : Env (FileContext F) → List ℕ
  file_rest e = left_opt e.context.fp

  -- Either stdio reports an error, or the file is at its end.
  abbrev pub FileFails : Status → Env (FileContext F) → Type 0
  FileFails status e = (status ≡ eread) ⊎ ((status ≡ eof) × (file_rest e ≡ []))

  pub FileFails-ne :
      (status : Status) (e : Env (FileContext F)) → FileFails status e → status ≢ success
  FileFails-ne status e (inl h) k = cc
  FileFails-ne status e (inr h) k = cc

  pub file_read-Delivered :
      (n : ℕ) (e : Env (FileContext F))
      → IsOpen e
      → Delivered IsOpen file_rest FileFails (suc n) e (file_read stdio (suc n) e)
  unfolding file_read read_status
  file_read-Delivered n e (f, is_f) =
      let (bytes, f') = stdio.fread f (suc n) in
      let e' : Env (FileContext F) = record e { context = opened_file f' } in
      let seen : file_rest e ≡ bytes ++ left f' =
        ap (λ o. left_opt o) is_f ∙ reads.takes f (suc n) in
      let le = reads.at_most f (suc n) in
      elim (Bool-cases (ltb (length bytes) (suc n))) [
        | inr full ↦ delivered bytes e' (rw (is_f, full) refl) (ground arith) le (f', refl) seen
        | inl short ↦ elim (Bool-cases (stdio.ferror f')) [
          | inl error ↦
              failed eread (some bytes) bytes e' (rw (is_f, short, error) refl) (inl refl)
                (f', refl) seen
          | inr fine ↦ elim (reads.why_short f (suc n) (ltb→lt (length bytes) (suc n) short)) [
            | inl error ↦ absurd cc
            | inr (at_end, nothing) ↦ elim (Bool-cases (length bytes == 0)) [
              | inl no_bytes ↦
                  failed eof (some bytes) bytes e' (rw (is_f, short, fine, at_end, no_bytes) refl)
                    (inr (
                      refl,
                      seen ∙ ap (λ xs. xs ++ left f') (length_zero bytes (ground arith)) ∙ nothing,
                    ))
                    (f', refl) seen
              | inr some_bytes ↦
                  delivered bytes e' (rw (is_f, short, fine, some_bytes) refl) (ground arith) le
                    (f', refl) seen
            ]
          ]
        ]
      ]

  abbrev pub file_source : Source (istream_file_methods stdio)
  file_source = record {
    Inv = IsOpen;
    rest = file_rest;
    Fails = FileFails;
    fails_ne = FileFails-ne;
    read = file_read stdio;
    has_read = refl;
    reads = file_read-Delivered;
  }

  -- `sdlog_istream_read_exactly` on a file ends. It gives the next `n` bytes of the file where there
  -- are so many and no error occurs; otherwise the code is EREAD, or EOF where there are fewer.
  pub read_exactly_file :
      (fuel n : ℕ) (f : F) (e : Env (FileContext F))
      → n ≤ fuel
      → e.context.fp ≡ some f
      → Ends
          (λ bytes s. (bytes ≡ take n (left f)) × (n ≤ length (left f)))
          (λ status s. (status ≡ eread) ⊎ ((status ≡ eof) × (length (left f) < n)))
          (istream_read_exactly fuel n (at_env (istream_file_methods stdio) e))
  read_exactly_file fuel n f e enough is_f =
      let methods = istream_file_methods stdio in
      let at_f : left f ≡ file_rest e = ap (λ o. left_opt o) (sym is_f) in
      Ends-mono (ReadFully methods file_source e n)
        (λ bytes s. (bytes ≡ take n (left f)) × (n ≤ length (left f)))
        (Ended methods file_source e n)
        (λ status s. (status ≡ eread) ⊎ ((status ≡ eof) × (length (left f) < n)))
        (istream_read_exactly fuel n (at_env methods e))
        (read_exactly-ReadFully methods file_source fuel n e enough (f, is_f))
        (λ bytes s g. given n bytes (file_rest g.gave.env) (left f) g.count (at_f ∙ g.gave.seen))
        (λ status s g. elim g.fails [
          | inl error ↦ inl error
          | inr (at_end, nothing) ↦ inr (
            at_end,
            ended n g.bytes (file_rest g.before) (left f) g.short (at_f ∙ g.seen) nothing,
          )
        ])
