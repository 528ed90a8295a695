-- ===== src/Writer/Each.antt =====
-- core/writer.c: a sequence of calls of `sdlog_writer_write`, up to the first error.
use libsdlog.Prelude.{
  ◌+◌, ℕ, ◌≤◌, ◌≡◌, refl, ap, sym, ◌∙◌, Bool, List, [], ◌∷◌, ◌++◌, append-nil, append_assoc, All,
}
use libsdlog.Outcome.{Status, Ends, Cmd, pure, ◌>>◌}
use libsdlog.Outcome.Ends.{Ends-mono, Ends-and_then}
use libsdlog.Stream.{Env, OStreamSpec}
use libsdlog.Stream.Quiet.{QuietSink}
use libsdlog.Writer.{Writer, WriterState, writer_write_va, writer_write}
use libsdlog.Writer.Ready.{Log, Ready, Reached, start}
use libsdlog.Writer.Spec.{Entry, IsEntry, describe, added, log}
use libsdlog.Writer.Calls.{after_entry, IsPrefix, IsPrefix-append, Halted, writer_write_va-Reached}

-- The log after all calls.
abbrev pub after_all : Log → List Entry → Log
after_all a [] = a
after_all a (n ∷ ns) = after_all (after_entry a n) ns

-- It is what was there and then the log of the calls.
pub bytes-after_all :
    (a : Log) (ns : List Entry) → (after_all a ns).bytes ≡ a.bytes ++ log a.formats ns
unfolding log
bytes-after_all a [] = sym (append-nil a.bytes)
bytes-after_all a (n ∷ ns) =
    bytes-after_all (after_entry a n) ns
    ∙ append_assoc a.bytes (added a.formats n) (log (describe a.formats n) ns)

IsPrefix-more : (xs ys zs : List ℕ) → IsPrefix xs ys → IsPrefix xs (ys ++ zs)
IsPrefix-more xs ys zs (rest, e) = (rest ++ zs, ap (λ t. t ++ zs) e ∙ append_assoc xs rest zs)

module _ {C : Type 0} where
  -- A client that writes the entries one after the other and stops at the first error.
  unfoldable pub write_each :
      (to_float : ℕ → ℕ) (fuel : ℕ) → List Entry → Cmd (WriterState C) (Unit {0})
  write_each to_float fuel [] = pure tt
  write_each to_float fuel (n ∷ ns) =
      writer_write to_float fuel n.ref n.args >> write_each to_float fuel ns

module _ {C : Type 0} {spec : OStreamSpec C} (q : QuietSink spec) (grant : ℕ → ℕ → Bool) where
  later-Halted :
      (n : Entry) (live : ℕ) (a : Log) (bytes : List ℕ) (status : Status) (s : WriterState C)
      → Halted q grant live (after_entry a n) bytes status s
      → Halted q grant live a (added a.formats n ++ bytes) status s
  later-Halted n live a bytes status s h = record {
    code = h.code;
    part = added a.formats n ++ h.part;
    is_part = IsPrefix-append (added a.formats n) h.part bytes h.is_part;
    left = h.left;
    seen = h.seen ∙ append_assoc a.bytes (added a.formats n) h.part;
    reached = h.reached;
  }

  -- A sequence of calls adds the log of the entries or, after an error, a first part of it.
  pub write_each-Reached :
      (to_float : ℕ → ℕ) (fuel : ℕ) (enough : 256 + q.patience ≤ fuel) (ns : List Entry) (live : ℕ)
      (a : Log) (w : Writer) (e : Env C)
      → All (IsEntry to_float) ns
      → Ready q grant live a w e
      → Ends
          (λ _ s. Reached q grant live (after_all a ns) s)
          (Halted q grant live a (log a.formats ns))
          (write_each to_float fuel ns (start q grant w e))
  unfolding write_each writer_write log
  write_each-Reached to_float fuel enough [] live a w e v r = record {
    writer = w;
    env = e;
    form = refl;
    ready = r;
  }
  write_each-Reached to_float fuel enough (n ∷ ns) live a w e v r =
      Ends-and_then (λ _ s. Reached q grant live (after_entry a n) s)
        (Halted q grant live a (added a.formats n))
        (λ _ s. Reached q grant live (after_all (after_entry a n) ns) s)
        (Halted q grant live a (added a.formats n ++ log (describe a.formats n) ns))
        (writer_write_va to_float fuel n.ref n.args (start q grant w e)) _
        (writer_write_va-Reached q grant to_float fuel enough n live a w e v.0 r)
        (λ _ s k. rw k.form (
          Ends-mono (λ _ s'. Reached q grant live (after_all (after_entry a n) ns) s')
            (λ _ s'. Reached q grant live (after_all (after_entry a n) ns) s')
            (Halted q grant live (after_entry a n) (log (describe a.formats n) ns))
            (Halted q grant live a (added a.formats n ++ log (describe a.formats n) ns))
            (write_each to_float fuel ns (start q grant k.writer k.env))
            (write_each-Reached to_float fuel enough ns live (after_entry a n) k.writer k.env v.1
              k.ready)
            (λ _ s' k'. k')
            (λ status s' k'. later-Halted n live a (log (describe a.formats n) ns) status s' k')))
        (λ status s k. record {
          code = k.code;
          part = k.part;
          is_part =
              IsPrefix-more k.part (added a.formats n) (log (describe a.formats n) ns) k.is_part;
          left = k.left;
          seen = k.seen;
          reached = k.reached;
        })
