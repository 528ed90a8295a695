-- ===== src/Buffer/Life.antt =====
-- The growing buffer of io/buffer.c from `sdlog_ostream_init_buffer` to `sdlog_ostream_destroy`.
use mathlib.Core.Path.{subst}
use libsdlog.Prelude.{
  ℕ, zero, suc, ◌+◌, ◌≤◌, ◌≡◌, ◌⊎◌, inl, inr, refl, ap, sym, ◌∙◌, true, false, List, [], ◌∷◌, ◌++◌,
  append-nil, drop_all, le→leb, length, arith, Bool-cases,
}
use libsdlog.Outcome.{ok, Status, enomem, Ends}
use libsdlog.Outcome.Ends.{Ends-mono}
use libsdlog.Memory.{Mem, empty_block}
use libsdlog.Stream.{Env, OState, closed, ostream_destroy, ostream_write_all}
use libsdlog.Stream.Sink.{at_env}
use libsdlog.Stream.SlowSink.{ostream_write_step}
use libsdlog.Buffer.{
  OStreamContext, context_size, ostream_buffer_methods, ostream_init_buffer, ostream_buffer_get,
  buffer_destroy_o, buffer_write,
}
use libsdlog.Buffer.Growing.{IsValid, BoundedGrants, Exhausted, Later, contents}
use libsdlog.Buffer.Output.{written, no_memory, buffer_write-BufferWritten}
use libsdlog.Buffer.Quiet.{slow_buffer}

-- A buffer stream that holds `bytes`, with `live` blocks in the heap.
pub record Holding (bytes : List ℕ) (live : ℕ) (s : OState OStreamContext) : Type 0 where
  pub env : Env OStreamContext
  pub form : s ≡ at_env ostream_buffer_methods env
  pub valid : IsValid env
  pub held : contents env ≡ bytes
  pub blocks : env.mem.live ≡ live

-- A stream that was just made, in a heap that had the blocks of `m` before.
abbrev pub new_env : Mem → Env OStreamContext
new_env m = record {
  context = record { block = empty_block 16 };
  mem = record m { calls = m.calls + 1 + 1; live = m.live + 1 + 1 };
}

pub new_env-IsValid : (m : Mem) → BoundedGrants m → IsValid (new_env m)
new_env-IsValid m b = record {
  fits = omega arith;
  least = omega arith;
  most = omega arith;
  owned = omega arith;
  bounded = b;
}

-- `sdlog_ostream_init_buffer` makes an empty stream in two new blocks. If the first request is
-- refused, nothing is allocated. If the second is, the block of the context is lost: the stream was
-- not touched, so no pointer to the block is left.
pub init_buffer-Holding :
    (s : OState OStreamContext)
    → BoundedGrants s.mem
    → Ends
        (λ _ s'. Holding [] (s.mem.live + 2) s')
        (λ e s'.
          (e ≡ enomem)
          × (s'.stream ≡ s.stream)
          × (((s.mem.grant s.mem.calls context_size ≡ false) × (s'.mem.live ≡ s.mem.live))
              ⊎ ((s.mem.grant s.mem.calls context_size ≡ true)
                  × (s.mem.grant (s.mem.calls + 1) 16 ≡ false)
                  × (s'.mem.live ≡ s.mem.live + 1))))
        (ostream_init_buffer s)
unfolding ostream_init_buffer
init_buffer-Holding s b = elim (Bool-cases (s.mem.grant s.mem.calls context_size)) [
  | inr first ↦ rw first (refl, refl, inl (refl, refl))
  | inl first ↦ rw first (elim (Bool-cases (s.mem.grant (s.mem.calls + 1) 16)) [
    | inr second ↦ rw second (refl, refl, inr (refl, second, refl))
    | inl second ↦ rw second (record {
      env = new_env s.mem;
      form = refl;
      valid = new_env-IsValid s.mem b;
      held = refl;
      blocks = omega arith;
    })
  ])
]

-- The stream after `sdlog_ostream_write_all` with `bytes`.
pub record TookAll (e : Env OStreamContext) (bytes : List ℕ) (s : OState OStreamContext)
    : Type 0 where
  pub now : Env OStreamContext
  pub form : s ≡ at_env ostream_buffer_methods now
  pub valid : IsValid now
  pub held : contents now ≡ contents e ++ bytes
  pub later : Later e.mem now.mem

-- The same where the larger block was refused: nothing was written.
pub record TookNone (e : Env OStreamContext) (bytes : List ℕ) (status : Status)
    (s : OState OStreamContext) : Type 0 where
  pub code : status ≡ enomem
  pub left : TookAll e [] s
  pub exhausted : Exhausted (length bytes) e left.now

-- `sdlog_ostream_write_all` needs one call of `buffer_write`, so what that call leaves is left.
module _ (P : Env OStreamContext → Type 0) (bytes : List ℕ) (e : Env OStreamContext) where
  abbrev pub AllWith : OState OStreamContext → Type 0
  AllWith s = (t : TookAll e bytes s) × P t.now

  abbrev pub NoneWith : Status → OState OStreamContext → Type 0
  NoneWith status s = (t : TookNone e bytes status s) × P t.left.now

module _ (P : Env OStreamContext → Type 0) where
  pub write_all-once :
      (fuel : ℕ) (bytes : List ℕ) (e : Env OStreamContext)
      → length bytes ≤ fuel
      → IsValid e
      → P e
      → P (buffer_write bytes e).1
      → Ends
          (λ _ s. AllWith P bytes e s)
          (NoneWith P bytes e)
          (ostream_write_all fuel bytes (at_env ostream_buffer_methods e))
  unfolding ostream_write_all
  write_all-once fuel [] e f v before after = (
    record {
      now = e;
      form = refl;
      valid = v;
      held = sym (append-nil (contents e));
      later = record { calls = omega arith; live = refl; grant = refl };
    },
    before,
  )
  write_all-once zero (b ∷ bytes) e f v before after = absurd (omega arith)
  write_all-once (suc fuel) (b ∷ bytes) e f v before after =
      elim (buffer_write-BufferWritten (b ∷ bytes) e v) [
        | written e' eq v' c l ↦
            rw
              (
                ostream_write_step ostream_buffer_methods slow_buffer b bytes e _ e' eq,
                le→leb (length (b ∷ bytes)) (length (b ∷ bytes)) (omega arith),
              )
              (subst
                (λ rest.
                  Ends (λ _ s. AllWith P (b ∷ bytes) e s) (NoneWith P (b ∷ bytes) e)
                    (ostream_write_all fuel rest (at_env ostream_buffer_methods e')))
                (sym (drop_all (length bytes) bytes (omega arith)))
                (
                  record { now = e'; form = refl; valid = v'; held = c; later = l },
                  subst (λ r. P r.1) eq after,
                ))
        | no_memory e' eq v' c l x ↦
            rw (ostream_write_step ostream_buffer_methods slow_buffer b bytes e _ e' eq) (
              record {
                code = refl;
                left = record {
                  now = e';
                  form = refl;
                  valid = v';
                  held = c ∙ sym (append-nil (contents e));
                  later = l;
                };
                exhausted = x;
              },
              subst (λ r. P r.1) eq after,
            )
      ]

-- `sdlog_ostream_write_all` on a buffer stream ends within as many rounds as there are bytes. On
-- success all of the bytes stand behind those that the stream held. SDLOG_ENOMEM is the only error:
-- then the stream holds what it held, the bytes do not fit into its block, and the last request for
-- memory, made in the call for a block of twice the size, was refused. Either way the stream is valid
-- and as many blocks are allocated as before.
pub write_all-buffer :
    (fuel : ℕ) (bytes : List ℕ) (e : Env OStreamContext)
    → length bytes ≤ fuel
    → IsValid e
    → Ends
        (λ _ s. TookAll e bytes s)
        (TookNone e bytes)
        (ostream_write_all fuel bytes (at_env ostream_buffer_methods e))
write_all-buffer fuel bytes e h v =
    let Any = λ (e' : Env OStreamContext). Unit {0} in
    Ends-mono (λ _ s. AllWith Any bytes e s) (λ _ s. TookAll e bytes s) (NoneWith Any bytes e)
      (TookNone e bytes) (ostream_write_all fuel bytes (at_env ostream_buffer_methods e))
      (write_all-once Any fuel bytes e h v tt tt) (λ _ s t. t.0) (λ status s t. t.0)

-- `sdlog_ostream_buffer_get` shows the bytes that the stream holds, and their number.
pub buffer_get-contents :
    (bytes : List ℕ) (live : ℕ) (s : OState OStreamContext)
    → Holding bytes live s
    → ostream_buffer_get s ≡ (ok (bytes, length bytes), s)
unfolding ostream_buffer_get
buffer_get-contents bytes live s h =
    subst (λ t. ostream_buffer_get t ≡ (ok (bytes, length bytes), t)) (sym h.form)
      (ap (λ bs. (ok (bs, length bs), at_env ostream_buffer_methods h.env)) h.held)

-- Destroying the stream frees its two blocks.
pub destroy-buffer :
    (bytes : List ℕ) (live : ℕ) (s : OState OStreamContext)
    → Holding bytes (live + 2) s
    → Ends (λ _ s'. (s'.mem.live ≡ live) × (s' ≡ closed s'.mem)) (λ _ _. ⊥) (ostream_destroy s)
unfolding ostream_destroy buffer_destroy_o
destroy-buffer bytes live s h =
    subst
      (λ t.
        Ends (λ _ s'. (s'.mem.live ≡ live) × (s' ≡ closed s'.mem)) (λ _ _. ⊥) (ostream_destroy t))
      (sym h.form) (omega (arith, h.blocks), refl)
