-- ===== src/Buffer/Output.antt =====
-- The growing buffer of io/buffer.c keeps the contract of an output stream.
use libsdlog.Prelude.{
  ℕ, ◌+◌, ◌≤◌, ◌<◌, ◌≡◌, ◌≢◌, refl, ap, sym, ◌∙◌, Option, none, some, List, ◌∷◌, ◌++◌, append-nil,
  length, length-append, take_all, arith,
}
use libsdlog.Outcome.{Outcome, ok, fail, Status, success, enomem, Ends, and_then}
use libsdlog.Model.StringLaws.{append_to_lem}
use libsdlog.Stream.{Env}
use libsdlog.Stream.Sink.{Sink, Wrote, accepted, refused}
use libsdlog.Buffer.{
  OStreamContext, grow_loop, grow_fuel, append_bytes, buffer_write, returning,
  ostream_buffer_methods,
}
use libsdlog.Buffer.Growing.{
  IsValid, contents, env, Later, Exhausted, Grown, NotGrown, grow_loop-Grown,
}

-- A call of `buffer_write`: either all of the data is behind the bytes that were there, or the
-- allocator refused the larger block and they are as before. Either way as many blocks are allocated.
pub data BufferWritten (bytes : List ℕ) (e : Env OStreamContext)
    (r : Outcome (Status × Option ℕ) × Env OStreamContext) : Type 0 where
  written :
      (e' : Env OStreamContext)
      → r ≡ (ok (success, some (length bytes)), e')
      → IsValid e'
      → contents e' ≡ contents e ++ bytes
      → Later e.mem e'.mem
      → BufferWritten bytes e r
  no_memory :
      (e' : Env OStreamContext)
      → r ≡ (ok (enomem, none), e')
      → IsValid e'
      → contents e' ≡ contents e
      → Later e.mem e'.mem
      → Exhausted (length bytes) e e'
      → BufferWritten bytes e r

append_bytes_lem :
    (bytes : List ℕ) (e : Env OStreamContext)
    → length (contents e) + length bytes ≤ e.context.block.size
    → append_bytes bytes e
      ≡ (ok (success, some (length bytes)), env e.context.block.size (contents e ++ bytes) e.mem)
unfolding append_bytes
append_bytes_lem bytes e h = ground (arith, append_to_lem e.context.block bytes h)

-- From the outcome of the loop.
after_loop :
    (bytes : List ℕ) (e : Env OStreamContext) (r : Outcome (Unit {0}) × Env OStreamContext)
    → Ends (λ _ e'. Grown e (length bytes) e') (NotGrown e (length bytes)) r
    → BufferWritten bytes e (returning (and_then r (λ _. append_bytes bytes)))
after_loop bytes e (ok a, e') g =
    let bs = contents e' in
    let same_length : length (contents e') ≡ length (contents e) = ap length g.same.items in
    written (env e'.context.block.size (bs ++ bytes) e'.mem)
      (rw (append_bytes_lem bytes e' (omega (arith, same_length, g.room))))
      (record {
        fits = omega (arith, length-append bs bytes, same_length, g.room);
        least = g.same.valid.least;
        most = g.same.valid.most;
        owned = g.same.valid.owned;
        bounded = g.same.valid.bounded;
      })
      (ap (λ xs. xs ++ bytes) g.same.items) g.same.later
after_loop bytes e (fail s, e') g =
    no_memory e' (ap (λ c. (ok (c, none), e')) g.code) g.same.valid g.same.items g.same.later
      g.exhausted
after_loop bytes e (Outcome.fault, e') g = absurd g
after_loop bytes e (Outcome.out_of_fuel, e') g = absurd g

-- Every call of `buffer_write` on a valid stream ends. Either it returns SDLOG_SUCCESS with the number
-- of all of the bytes, and they stand behind those that were there; or it returns SDLOG_ENOMEM, the
-- bytes are as before, those given do not fit into the block, and the last request for memory, which
-- was made in the call for a block of twice the size, was refused. Either way the stream is valid and
-- as many blocks are allocated as before.
pub buffer_write-BufferWritten :
    (bytes : List ℕ) (e : Env OStreamContext)
    → IsValid e
    → BufferWritten bytes e (buffer_write bytes e)
unfolding buffer_write
buffer_write-BufferWritten bytes e v = after_loop bytes e (grow_loop grow_fuel (length bytes) e) (
    grow_loop-Grown grow_fuel (length bytes) e.context.block.size (contents e) e.mem v
      (omega (arith, v.least)))

contents_kept :
    (bytes : List ℕ) (e : Env OStreamContext) (r : Outcome (Status × Option ℕ) × Env OStreamContext)
    → 0 < length bytes
    → BufferWritten bytes e r
    → Wrote IsValid contents (λ s. s ≡ enomem) bytes e r
contents_kept bytes e r pos (written e' eq v c l) =
    accepted (length bytes) e' eq pos (omega arith) v
      (c ∙ ap (λ xs. contents e ++ xs) (sym (take_all (length bytes) bytes (omega arith))))
contents_kept bytes e r pos (no_memory e' eq v c l x) =
    refused enomem none 0 e' eq refl v (c ∙ sym (append-nil (contents e)))

pub enomem-ne : (s : Status) → s ≡ enomem → s ≢ success
enomem-ne s e h = cc

pub buffer-Wrote :
    (b : ℕ) (bytes : List ℕ) (e : Env OStreamContext)
    → IsValid e
    → Wrote IsValid contents (λ s. s ≡ enomem) (b ∷ bytes) e (buffer_write (b ∷ bytes) e)
buffer-Wrote b bytes e v =
    contents_kept (b ∷ bytes) e (buffer_write (b ∷ bytes) e) (omega arith)
      (buffer_write-BufferWritten (b ∷ bytes) e v)

-- So the buffer is an output stream whose only error is ENOMEM.
abbrev pub buffer_sink : Sink ostream_buffer_methods
buffer_sink = record {
  Inv = IsValid;
  view = contents;
  Fails = λ s. s ≡ enomem;
  fails_ne = enomem-ne;
  write = buffer_write;
  has_write = refl;
  wrote = buffer-Wrote;
}
