-- ===== src/Stream/Still.antt =====
-- Reading a whole stream of io/base.c and destroying it, where reading leaves the heap alone.
use libsdlog.Prelude.{ℕ, suc, ◌-◌, ◌<◌, ◌≡◌, refl, ap, sym, ◌∙◌, List, ◌++◌, length, arith}
use libsdlog.Outcome.{Outcome, ok, fail, Status, Ends, finally}
use libsdlog.Outcome.Ends.{Ends-then_clean}
use libsdlog.Memory.{Mem}
use libsdlog.Stream.{Env, IState, IStreamSpec, closed, istream_destroy, istream_read_exactly}
use libsdlog.Stream.Source.{
  Source, Delivered, delivered, failed, at_env, ReadFully, Ended, read_exactly-ReadFully,
}

-- The heap without one block, that of a context.
abbrev pub dropped : Mem → Mem
dropped m = record m { live = m.live - 1 }

-- What a client that opened and closed a stream leaves of the heap.
abbrev pub Balanced : Mem → Mem → Type 0
Balanced m m' = (m'.live ≡ m.live) × (m'.grant ≡ m.grant)

pub Ends-heap :
    {A C : Type 0} (Q : A → Mem → Type 0) (E : Status → Mem → Type 0) (r : Outcome A × IState C)
    → Ends (λ a s. Q a s.mem) (λ e s. E e s.mem) r
    → Ends Q E (r.0, r.1.mem)
Ends-heap Q E (ok a, s) h = h
Ends-heap Q E (fail e, s) h = h
Ends-heap Q E (Outcome.fault, s) h = absurd h
Ends-heap Q E (Outcome.out_of_fuel, s) h = absurd h

module _ {C : Type 0} {spec : IStreamSpec C} (source : Source spec)
    (keeps : (n : ℕ) (e : Env C) → (source.read n e).1.mem ≡ e.mem) where
  abbrev InHeap : Mem → Env C → Type 0
  InHeap m e = source.Inv e × (e.mem ≡ m)

  heap_calls :
      (m : Mem) (n : ℕ) (e : Env C)
      → InHeap m e
      → Delivered (InHeap m) source.rest source.Fails (suc n) e (source.read (suc n) e)
  heap_calls m n e (i, same) =
      let kept : (source.read (suc n) e).1.mem ≡ m = keeps (suc n) e ∙ same in
      elim (source.reads n e i) [
        | delivered bytes e' eq pos le i' v ↦
            delivered bytes e' eq pos le (i', sym (ap (λ p. p.1.mem) eq) ∙ kept) v
        | failed status got lost e' eq f i' v ↦
            failed status got lost e' eq f (i', sym (ap (λ p. p.1.mem) eq) ∙ kept) v
      ]

  -- The stream while the heap is as it was.
  abbrev source_in : Mem → Source spec
  source_in m = record {
    Inv = InHeap m;
    rest = source.rest;
    Fails = source.Fails;
    fails_ne = source.fails_ne;
    read = source.read;
    has_read = source.has_read;
    reads = heap_calls m;
  }

  -- The stream gave `n` bytes.
  pub record AllRead (e : Env C) (n : ℕ) (got : List ℕ) : Type 0 where
    pub count : length got ≡ n
    pub left : List ℕ
    pub seen : source.rest e ≡ got ++ left

  -- The stream failed behind fewer than `n` bytes.
  pub record FewRead (e : Env C) (n : ℕ) (status : Status) : Type 0 where
    pub bytes : List ℕ
    pub before : Env C
    pub seen : source.rest e ≡ bytes ++ source.rest before
    pub short : length bytes < n
    pub fails : source.Fails status before

  -- `sdlog_istream_read_exactly` and `sdlog_istream_destroy`, also after an error: the stream is gone, and
  -- of the heap only the block of the context.
  pub read_and_destroy :
      (n : ℕ) (e : Env C)
      → source.Inv e
      → ((e' : Env C)
          → source.Inv e'
          → istream_destroy (at_env spec e') ≡ (ok tt, closed (dropped e'.mem)))
      → Ends
          (λ got s. AllRead e n got × (s ≡ closed (dropped e.mem)))
          (λ status s. FewRead e n status × (s ≡ closed (dropped e.mem)))
          (finally (istream_read_exactly n n) istream_destroy (at_env spec e))
  read_and_destroy n e i destroys =
      let src = source_in e.mem in
      let gone : (s : IState C) (e' : Env C)
          → s ≡ at_env spec e'
          → InHeap e.mem e'
          → istream_destroy s ≡ (ok tt, closed (dropped e.mem)) =
        λ s e' form inv.
          ap istream_destroy form
          ∙ (destroys e' inv.0 ∙ ap (λ m. (ok tt, closed (dropped m))) inv.1) in
      Ends-then_clean (ReadFully spec src e n)
        (λ got s. AllRead e n got × (s ≡ closed (dropped e.mem))) (Ended spec src e n)
        (λ status s. FewRead e n status × (s ≡ closed (dropped e.mem)))
        (istream_read_exactly n n (at_env spec e)) istream_destroy
        (read_exactly-ReadFully spec src n n e (omega arith) (i, refl))
        (λ got s g. (
          closed (dropped e.mem),
          gone s g.gave.env g.gave.form g.gave.inv,
          (record { count = g.count; left = source.rest g.gave.env; seen = g.gave.seen }, refl),
        ))
        (λ status s g. (
          closed (dropped e.mem),
          gone s g.gave.env g.gave.form g.gave.inv,
          (
            record {
              bytes = g.bytes;
              before = g.before;
              seen = g.seen;
              short = g.short;
              fails = g.fails;
            },
            refl,
          ),
        ))
