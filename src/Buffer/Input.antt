-- ===== src/Buffer/Input.antt =====
-- The fixed buffer of io/buffer.c keeps the contract of an input stream.
use libsdlog.Prelude.{
  ℕ, suc, ◌+◌, ◌≤◌, ◌<◌, ◌≡◌, ◌≢◌, refl, ap, sym, ◌∙◌, some, List, [], ◌++◌, length, length-drop,
  length-take, take, drop, take-append-drop, take-length_append, length-append, drop-add,
  length_zero, ◌==◌, if◌then◌else◌, arith, Bool-cases, inl, inr, min,
}
use libsdlog.Outcome.{ok, Status, success, eof, Ends}
use libsdlog.Outcome.Ends.{Ends-mono}
use libsdlog.Stream.{Env, istream_read_exactly}
use libsdlog.Stream.Source.{
  Source, Delivered, delivered, failed, at_env, ReadFully, Ended, read_exactly-ReadFully,
}
use libsdlog.Buffer.{IStreamContext, buffer_read, istream_buffer_methods}

abbrev pub InRange : Env IStreamContext → Type 0
InRange e = e.context.read_ptr ≤ length e.context.data_bytes

-- What has not been read.
abbrev pub remaining : Env IStreamContext → List ℕ
remaining e = drop e.context.read_ptr e.context.data_bytes

abbrev pub AtEnd : Status → Env IStreamContext → Type 0
AtEnd status e = (status ≡ eof) × (remaining e ≡ [])

abbrev moved : Env IStreamContext → ℕ → Env IStreamContext
moved e n = record e { context = record e.context { read_ptr = e.context.read_ptr + n } }

buffer_read_lem :
    (n : ℕ) (e : Env IStreamContext)
    → InRange e
    → buffer_read n e ≡ (
        if length (remaining e) == 0
        then (ok (eof, some []), e)
        else (let k = min n (length (remaining e)) in
            (ok (success, some (take k (remaining e))), moved e k)))
unfolding buffer_read
buffer_read_lem n e r = ground (arith, length-drop e.context.read_ptr e.context.data_bytes)

pub buffer_read-Delivered :
    (n : ℕ) (e : Env IStreamContext)
    → InRange e
    → Delivered InRange remaining AtEnd (suc n) e (buffer_read (suc n) e)
buffer_read-Delivered n e r =
    let left = remaining e in
    let k = min (suc n) (length left) in
    let l = length-take k left in
    elim (Bool-cases (length left == 0)) [
      | inl stop ↦
          failed eof (some []) [] e (rw (buffer_read_lem (suc n) e r, stop))
            (refl, length_zero left (ground arith)) r refl
      | inr go ↦
          delivered (take k left) (moved e k) (rw (buffer_read_lem (suc n) e r, go))
            (ground (arith, l)) (ground (arith, l))
            (ground (arith, length-drop e.context.read_ptr e.context.data_bytes))
            (sym (
              ap (λ xs. take k left ++ xs) (drop-add e.context.read_ptr k e.context.data_bytes)
              ∙ take-append-drop k left))
    ]

pub AtEnd-ne : (status : Status) (e : Env IStreamContext) → AtEnd status e → status ≢ success
AtEnd-ne status e h k = cc

-- The fixed buffer is an input stream that fails only at its end, with EOF.
abbrev pub buffer_source : Source istream_buffer_methods
buffer_source = record {
  Inv = InRange;
  rest = remaining;
  Fails = AtEnd;
  fails_ne = AtEnd-ne;
  read = buffer_read;
  has_read = refl;
  reads = buffer_read-Delivered;
}

pub given :
    (n : ℕ) (bytes left all : List ℕ)
    → length bytes ≡ n
    → all ≡ bytes ++ left
    → (bytes ≡ take n all) × (n ≤ length all)
given n bytes left all c s = (
  sym (
      ap (λ xs. take n xs) s
      ∙ ap (λ k. take k (bytes ++ left)) (sym c)
      ∙ take-length_append bytes left),
  omega (arith, length-append bytes left, ap length s, c),
)

pub ended :
    (n : ℕ) (bytes left all : List ℕ)
    → length bytes < n
    → all ≡ bytes ++ left
    → left ≡ []
    → length all < n
ended n bytes left all c s z = omega (arith, length-append bytes left, ap length s, ap length z, c)

-- The bytes of the array from the read pointer on are read in order: `sdlog_istream_read_exactly`
-- gives the next `n` of them where there are so many, and fails with EOF where there are fewer.
pub read_exactly_buffer :
    (fuel n : ℕ) (e : Env IStreamContext)
    → n ≤ fuel
    → InRange e
    → Ends
        (λ bytes s. (bytes ≡ take n (remaining e)) × (n ≤ length (remaining e)))
        (λ status s. (status ≡ eof) × (length (remaining e) < n))
        (istream_read_exactly fuel n (at_env istream_buffer_methods e))
read_exactly_buffer fuel n e h r =
    Ends-mono (ReadFully istream_buffer_methods buffer_source e n)
      (λ bytes s. (bytes ≡ take n (remaining e)) × (n ≤ length (remaining e)))
      (Ended istream_buffer_methods buffer_source e n)
      (λ status s. (status ≡ eof) × (length (remaining e) < n))
      (istream_read_exactly fuel n (at_env istream_buffer_methods e))
      (read_exactly-ReadFully istream_buffer_methods buffer_source fuel n e h r)
      (λ bytes s g. given n bytes (remaining g.gave.env) (remaining e) g.count g.gave.seen)
      (λ status s g.
        (g.fails.0, ended n g.bytes (remaining g.before) (remaining e) g.short g.seen g.fails.1))
