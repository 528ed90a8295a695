-- ===== src/Stream/Quiet.antt =====
-- Output streams that share the heap with their user: what they allocate they count, and they bear
-- what the user allocates and frees between two calls.
use libsdlog.Prelude.{ℕ, ◌≤◌, ◌≡◌, sym, ap, ◌∙◌, Bool, List, ◌∷◌}
use libsdlog.Outcome.{Status, Ends}
use libsdlog.Memory.{Mem}
use libsdlog.Stream.{
  Env, OStreamSpec, OState, ostream_begin_session, ostream_end_session, ostream_flush,
}
use libsdlog.Stream.SlowSink.{SlowSink, SlowWrote, accepted, refused, at_env}

-- The stream after a call that is no write.
pub record Kept {C : Type 0} {spec : OStreamSpec C} (sink : SlowSink spec) (e : Env C)
    (s : OState C) : Type 0 where
  pub env : Env C
  pub form : s ≡ at_env spec env
  pub inv : sink.Inv env
  pub seen : sink.view env ≡ sink.view e
  pub live : env.mem.live ≡ e.mem.live
  pub grant : env.mem.grant ≡ e.mem.grant

-- Such a call fails with a code of the stream, or succeeds.
abbrev pub Answers :
    {C : Type 0} {spec : OStreamSpec C} → SlowSink spec → Env C → Status → OState C → Type 0
Answers sink e status s = sink.Fails status × Kept sink e s

-- `blocks` is the number of blocks that the stream owns, `patience` that of the calls in a row in which
-- it may accept nothing.
pub record QuietSink {C : Type 0} (spec : OStreamSpec C) : Type 1 where
  pub sink : SlowSink spec
  pub blocks : ℕ
  pub patience : ℕ
  pub most_waits : (e : Env C) → sink.Inv e → sink.waits e ≤ patience
  pub owns : (e : Env C) → sink.Inv e → blocks ≤ e.mem.live
  pub moved :
      (e : Env C) (m : Mem)
      → sink.Inv e
      → m.grant ≡ e.mem.grant
      → blocks ≤ m.live
      → sink.Inv (record e { mem = m })
  pub same_view : (e : Env C) (m : Mem) → sink.view (record e { mem = m }) ≡ sink.view e
  pub keeps :
      (b : ℕ) (bytes : List ℕ) (e : Env C)
      → sink.Inv e
      → ((sink.write (b ∷ bytes) e).1.mem.live ≡ e.mem.live)
        × ((sink.write (b ∷ bytes) e).1.mem.grant ≡ e.mem.grant)
  pub begins :
      (e : Env C)
      → sink.Inv e
      → Ends (λ _ s. Kept sink e s) (Answers sink e) (ostream_begin_session (at_env spec e))
  pub flushes :
      (e : Env C)
      → sink.Inv e
      → Ends (λ _ s. Kept sink e s) (Answers sink e) (ostream_flush (at_env spec e))
  pub ends :
      (e : Env C)
      → sink.Inv e
      → Ends (λ _ s. Kept sink e s) (Answers sink e) (ostream_end_session (at_env spec e))

-- What a stream promises of a flush and of the end of a session behind it: `Flushed` holds after the
-- one if it succeeds, `Ended` after the other, whatever its user allocates and frees then.
pub record Closes {C : Type 0} {spec : OStreamSpec C} (q : QuietSink spec) : Type 1 where
  pub Flushed : OState C → Type 0
  pub Ended : OState C → Type 0
  pub flushed :
      (e : Env C)
      → q.sink.Inv e
      → Ends (λ _ s. Flushed s) (λ _ _. Unit {0}) (ostream_flush (at_env spec e))
  pub ended :
      (e : Env C)
      → q.sink.Inv e
      → Flushed (at_env spec e)
      → Ends (λ _ s. Ended s) (λ _ _. Unit {0}) (ostream_end_session (at_env spec e))
  pub moved :
      (e e' : Env C) → e'.context ≡ e.context → Ended (at_env spec e) → Ended (at_env spec e')

module _ {C : Type 0} {spec : OStreamSpec C} (q : QuietSink spec) (live : ℕ)
    (grant : ℕ → ℕ → Bool) where
  -- The stream while `live` blocks are allocated.
  abbrev pub AtHeap : Env C → Type 0
  AtHeap e = q.sink.Inv e × (e.mem.live ≡ live) × (e.mem.grant ≡ grant)

  pub Wrote-AtHeap :
      (b : ℕ) (bytes : List ℕ) (e : Env C)
      → AtHeap e
      → SlowWrote AtHeap q.sink.view q.sink.Fails q.sink.waits
          (b ∷ bytes)
          e
          (q.sink.write (b ∷ bytes) e)
  Wrote-AtHeap b bytes e (i, l, g) =
      let (kept_live, kept_grant) = q.keeps b bytes e i in
      elim (q.sink.wrote b bytes e i) [
        | accepted n e' eq le less i' v ↦
            accepted n e' eq le less
              (
                i',
                sym (ap (λ r. r.1.mem.live) eq) ∙ kept_live ∙ l,
                sym (ap (λ r. r.1.mem.grant) eq) ∙ kept_grant ∙ g,
              )
              v
        | refused status count k e' eq f i' v ↦
            refused status count k e' eq f
              (
                i',
                sym (ap (λ r. r.1.mem.live) eq) ∙ kept_live ∙ l,
                sym (ap (λ r. r.1.mem.grant) eq) ∙ kept_grant ∙ g,
              )
              v
      ]

  abbrev pub at_heap : SlowSink spec
  at_heap = record {
    Inv = AtHeap;
    view = q.sink.view;
    Fails = q.sink.Fails;
    fails_ne = q.sink.fails_ne;
    waits = q.sink.waits;
    write = q.sink.write;
    has_write = q.sink.has_write;
    wrote = Wrote-AtHeap;
  }
