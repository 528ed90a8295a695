-- ===== src/Buffer/Bounds.antt =====
-- How large the growing buffer of io/buffer.c becomes in a call of `write`.
use libsdlog.Prelude.{
  ℕ, zero, suc, ◌+◌, ◌-◌, ◌*◌, ◌≤◌, ◌<◌, ◌≡◌, ◌⊎◌, inl, inr, refl, ◌∙◌, Bool-cases, List, length,
  ltb, ltb→lt, leb, le→leb, arith,
}
use libsdlog.Outcome.{Outcome, ok, fail, and_then}
use libsdlog.Memory.{Mem, append_to}
use libsdlog.Stream.{Env}
use libsdlog.Buffer.{
  OStreamContext, buffer_write, grow_loop, grow_fuel, append_bytes, returning, buffer_remaining,
}
use libsdlog.Buffer.Growing.{IsValid, contents, env, buffer_grow_lem, doubled}

abbrev size_of : Env OStreamContext → ℕ
size_of e = e.context.block.size

-- The size did not change, or it is less than twice what was asked for.
abbrev Grew : (old wanted new : ℕ) → Type 0
Grew old wanted new = (new ≡ old) ⊎ (new < 2 * wanted)

-- The loop doubles the size only while the bytes that are held and asked for do not fit.
loop-Grew :
    (fuel size alloc : ℕ) (items : List ℕ) (m : Mem)
    → IsValid (env alloc items m)
    → Grew alloc (length items + size) (size_of (grow_loop fuel size (env alloc items m)).1)
unfolding grow_loop buffer_remaining
loop-Grew zero size alloc items m v = inl refl
loop-Grew (suc fuel) size alloc items m v =
    rw (le→leb (length items) alloc v.fits) (elim (Bool-cases (ltb (alloc - length items) size)) [
      | inr enough ↦ rw enough (inl refl)
      | inl small ↦
          rw (small, buffer_grow_lem alloc items m v)
            (elim (Bool-cases (m.grant m.calls (alloc * 2))) [
              | inr denied ↦ rw denied (inl refl)
              | inl granted ↦ rw granted (
                  let less : alloc * 2 < 2 * (length items + size) =
                    omega (arith, ltb→lt (alloc - length items) size small, v.fits) in
                  elim (loop-Grew fuel size (alloc * 2) items _ (doubled v granted)) [
                    | inl same ↦ inr (omega (arith, same))
                    | inr below ↦ inr below
                  ])
            ])
    ])

-- Storing the bytes leaves the block where it is.
append-size :
    (bytes : List ℕ) (r : Outcome (Unit {0}) × Env OStreamContext)
    → size_of (returning (and_then r (λ _. append_bytes bytes))).1 ≡ size_of r.1
unfolding append_bytes
append-size bytes (ok a, e) =
    elim (Bool-cases (leb (length (contents e) + length bytes) (size_of e))) [
      | inl fits ↦ rw (append_to, fits) refl
      | inr full ↦ rw (append_to, full) refl
    ]
append-size bytes (fail status, e) = refl
append-size bytes (Outcome.fault, e) = refl
append-size bytes (Outcome.out_of_fuel, e) = refl

write-Grew :
    (bytes : List ℕ) (e : Env OStreamContext)
    → IsValid e
    → Grew (size_of e) (length (contents e) + length bytes) (size_of (buffer_write bytes e).1)
unfolding buffer_write
write-Grew bytes e v =
    rw (append-size bytes (grow_loop grow_fuel (length bytes) e))
      (loop-Grew grow_fuel (length bytes) (size_of e) (contents e) e.mem v)

-- The block has its first size, or less than twice the room that was needed for `wanted` bytes.
abbrev pub Small : (wanted : ℕ) → Env OStreamContext → Type 0
Small wanted e = (size_of e ≡ 16) ⊎ (size_of e < 2 * wanted)

pub write-Small :
    (wanted : ℕ) (bytes : List ℕ) (e : Env OStreamContext)
    → IsValid e
    → length (contents e) + length bytes ≤ wanted
    → Small wanted e
    → Small wanted (buffer_write bytes e).1
write-Small wanted bytes e v h s = elim (write-Grew bytes e v) [
  | inl same ↦ elim s [ inl first ↦ inl (same ∙ first) | inr below ↦ inr (omega (arith, same)) ]
  | inr below ↦ inr (omega arith)
]
