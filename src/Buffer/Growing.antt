-- ===== src/Buffer/Growing.antt =====
-- The loop of io/buffer.c that makes room in the growing buffer.
use native.Mathlib.Nat.{pow-suc}
use libsdlog.Prelude.{
  ℕ, zero, suc, ◌+◌, ◌-◌, ◌*◌, ◌%◌, ◌^◌, ◌≤◌, ◌<◌, ◌≡◌, refl, ap, true, false, List, length, ltb,
  ltb→lt, if◌then◌else◌, arith, le→leb, Bool-cases, inl, inr,
}
use libsdlog.Outcome.{ok, fail, Status, enomem, Ends}
use libsdlog.Outcome.Ends.{Ends-mono}
use libsdlog.Memory.{Mem, Block}
use libsdlog.Memory.Laws.{sdlog_realloc_lem, spend}
use libsdlog.Stream.{Env}
use libsdlog.Buffer.{OStreamContext, buffer_remaining, buffer_grow, grow_loop}

-- An allocator gives no block of 2 ^ 63 bytes or more: no object is larger than PTRDIFF_MAX.
abbrev pub BoundedGrants : Mem → Type 0
BoundedGrants m = (n k : ℕ) → m.grant n k ≡ true → k < 2 ^ 63

abbrev pub contents : Env OStreamContext → List ℕ
contents e = e.context.block.items

-- The stored bytes lie in the block, and the heap counts the block and the context.
pub record IsValid (e : Env OStreamContext) : Type 0 where
  pub fits : length e.context.block.items ≤ e.context.block.size
  pub least : 16 ≤ e.context.block.size
  pub most : e.context.block.size < 2 ^ 63
  pub owned : 2 ≤ e.mem.live
  pub bounded : BoundedGrants e.mem

abbrev pub env : ℕ → List ℕ → Mem → Env OStreamContext
env size items m = record {
  context = record { block = record { size = size; items = items } };
  mem = m;
}

pub buffer_grow_lem :
    (size : ℕ) (items : List ℕ) (m : Mem)
    → IsValid (env size items m)
    → buffer_grow (env size items m) ≡ (
        if m.grant m.calls (size * 2)
        then (ok tt, env (size * 2) items (spend m m.live))
        else (fail enomem, env size items (spend m m.live)))
unfolding buffer_grow
buffer_grow_lem size items m v =
    let b : Block ℕ = record { size = size; items = items } in
    let new : (size * 2) % 2 ^ 64 ≡ size * 2 = omega arith in
    ground (arith, new, sdlog_realloc_lem m b 1 size (size * 2) v.fits (omega arith))

-- The same allocator, after the same requests or more.
pub record Later (m m' : Mem) : Type 0 where
  pub calls : m.calls ≤ m'.calls
  pub live : m'.live ≡ m.live
  pub grant : m'.grant ≡ m.grant

-- What the loop leaves: the same bytes, and the number of blocks as before.
pub record Same (e e' : Env OStreamContext) : Type 0 where
  pub valid : IsValid e'
  pub items : contents e' ≡ contents e
  pub later : Later e.mem e'.mem

-- Memory ran out: `size` bytes more did not fit into the block, and the last request of all was made
-- meanwhile, for a block of twice the size, and was refused.
pub record Exhausted (size : ℕ) (e e' : Env OStreamContext) : Type 0 where
  pub full : e'.context.block.size < length (contents e) + size
  pub request : ℕ
  pub last : e'.mem.calls ≡ request + 1
  pub meanwhile : e.mem.calls ≤ request
  pub refused : e.mem.grant request (e'.context.block.size * 2) ≡ false

pub record Grown (e : Env OStreamContext) (size : ℕ) (e' : Env OStreamContext) : Type 0 where
  pub same : Same e e'
  pub room : length (contents e) + size ≤ e'.context.block.size

pub record NotGrown (e : Env OStreamContext) (size : ℕ) (status : Status) (e' : Env OStreamContext)
    : Type 0 where
  pub code : status ≡ enomem
  pub same : Same e e'
  pub exhausted : Exhausted size e e'

pub spent :
    {alloc : ℕ} {items : List ℕ} {m : Mem}
    → IsValid (env alloc items m)
    → IsValid (env alloc items (spend m m.live))
spent w = record {
  fits = w.fits;
  least = w.least;
  most = w.most;
  owned = w.owned;
  bounded = w.bounded;
}

pub doubled :
    {alloc : ℕ} {items : List ℕ} {m : Mem}
    → IsValid (env alloc items m)
    → m.grant m.calls (alloc * 2) ≡ true
    → IsValid (env (alloc * 2) items (spend m m.live))
doubled {m} w granted = record {
  fits = omega (arith, w.fits);
  least = omega (arith, w.least);
  most = w.bounded m.calls _ granted;
  owned = w.owned;
  bounded = w.bounded;
}

one_more : {m m' : Mem} → Later (spend m m.live) m' → Later m m'
one_more l = record { calls = omega (arith, l.calls); live = l.live; grant = l.grant }

-- The loop ends: the size doubles in each round, and no block is larger than the allocator gives.
pub grow_loop-Grown :
    (fuel size : ℕ) (alloc : ℕ) (items : List ℕ) (m : Mem)
    → IsValid (env alloc items m)
    → 2 ^ 64 ≤ alloc * 2 ^ fuel
    → Ends
        (λ _ e'. Grown (env alloc items m) size e')
        (NotGrown (env alloc items m) size)
        (grow_loop fuel size (env alloc items m))
unfolding grow_loop buffer_remaining
grow_loop-Grown zero size alloc items m v f = absurd (omega (arith, v.most))
grow_loop-Grown (suc fuel) size alloc items m v f =
    rw (le→leb (length items) alloc v.fits) (elim (Bool-cases (ltb (alloc - length items) size)) [
      | inr enough ↦ rw enough (record {
        same = record {
          valid = v;
          items = refl;
          later = record { calls = omega arith; live = refl; grant = refl };
        };
        room = ground (arith, v.fits);
      })
      | inl small ↦
          rw (small, buffer_grow_lem alloc items m v)
            (elim (Bool-cases (m.grant m.calls (alloc * 2))) [
              | inr denied ↦ rw denied (record {
                code = refl;
                same = record {
                  valid = spent v;
                  items = refl;
                  later = record { calls = omega arith; live = refl; grant = refl };
                };
                exhausted = record {
                  full = omega (arith, ltb→lt (alloc - length items) size small, v.fits);
                  request = m.calls;
                  last = refl;
                  meanwhile = omega arith;
                  refused = denied;
                };
              })
              | inl granted ↦ rw granted (
                  Ends-mono (λ _ e'. Grown (env (alloc * 2) items (spend m m.live)) size e')
                    (λ _ e'. Grown (env alloc items m) size e')
                    (NotGrown (env (alloc * 2) items (spend m m.live)) size)
                    (NotGrown (env alloc items m) size)
                    (grow_loop fuel size (env (alloc * 2) items (spend m m.live)))
                    (grow_loop-Grown fuel size (alloc * 2) items (spend m m.live)
                      (doubled v granted) (omega (arith, ap (λ t. alloc * t) (pow-suc 2 fuel), f)))
                    (λ _ e' g. record {
                      same = record {
                        valid = g.same.valid;
                        items = g.same.items;
                        later = one_more g.same.later;
                      };
                      room = g.room;
                    })
                    (λ s e' g. record {
                      code = g.code;
                      same = record {
                        valid = g.same.valid;
                        items = g.same.items;
                        later = one_more g.same.later;
                      };
                      exhausted = record {
                        full = g.exhausted.full;
                        request = g.exhausted.request;
                        last = g.exhausted.last;
                        meanwhile = omega (arith, g.exhausted.meanwhile);
                        refused = g.exhausted.refused;
                      };
                    }))
            ])
    ])
