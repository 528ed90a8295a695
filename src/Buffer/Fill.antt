-- ===== src/Buffer/Fill.antt =====
-- A new growing buffer of io/buffer.c, and all of the data that is written to it.
use libsdlog.Prelude.{
  ℕ, ◌+◌, ◌*◌, ◌≤◌, ◌<◌, ◌≡◌, ◌⊎◌, inl, inr, refl, ap, sym, ◌∙◌, Bool-cases, false, List, [], ◌∷◌,
  ◌++◌, append-nil, append_assoc, length, length-append, take, take-length_append, arith,
}
use libsdlog.Outcome.{Status, enomem, Ends, Cmd, pure, ◌>>◌}
use libsdlog.Outcome.Ends.{Ends-and_then, Ends-mono}
use libsdlog.Memory.{Mem}
use libsdlog.Stream.{Env, OState, ostream_write_all}
use libsdlog.Stream.Sink.{at_env}
use libsdlog.Buffer.{OStreamContext, ostream_init_buffer, context_size, ostream_buffer_methods}
use libsdlog.Buffer.Life.{new_env, new_env-IsValid, AllWith, NoneWith, write_all-once}
use mathlib.Core.Path.{subst}
use libsdlog.Buffer.Growing.{IsValid, contents, BoundedGrants}
use libsdlog.Buffer.Bounds.{Small, write-Small}

abbrev pub concat : List (List ℕ) → List ℕ
concat [] = []
concat (c ∷ cs) = c ++ concat cs

-- The chunks are written one after the other.
abbrev pub write_each : (fuel : ℕ) → List (List ℕ) → Cmd (OState OStreamContext) (Unit {0})
write_each fuel [] = pure tt
write_each fuel (c ∷ cs) = ostream_write_all fuel c >> write_each fuel cs

-- In what follows `m` is the heap in which the stream was made, and `wanted` bounds the bytes.
module _ (m : Mem) (wanted : ℕ) where
  -- A stream that holds `bytes`, in a block that is small enough for `wanted` bytes.
  pub record Room (bytes : List ℕ) (s : OState OStreamContext) : Type 0 where
    pub now : Env OStreamContext
    pub form : s ≡ at_env ostream_buffer_methods now
    pub valid : IsValid now
    pub held : contents now ≡ bytes
    pub small : Small wanted now
    pub calls : m.calls ≤ now.mem.calls
    pub grants : now.mem.grant ≡ m.grant

  -- What is left when memory runs out: the first `count` bytes of `bytes`. The block is smaller than
  -- all of them, and the last request, for a block of twice the size, was refused.
  pub record RoomPart (bytes : List ℕ) (s : OState OStreamContext) : Type 0 where
    pub count : ℕ
    pub left : Room (take count bytes) s
    pub full : left.now.context.block.size < wanted
    pub request : ℕ
    pub last : left.now.mem.calls ≡ request + 1
    pub meanwhile : m.calls ≤ request
    pub refused : m.grant request (left.now.context.block.size * 2) ≡ false

  abbrev pub PartLeft : List ℕ → Status → OState OStreamContext → Type 0
  PartLeft bytes status s = (status ≡ enomem) × RoomPart bytes s

  -- One chunk. `after` is what is to follow it.
  write_all-Room :
      (fuel : ℕ) (bytes after : List ℕ) (before : List ℕ) (s : OState OStreamContext)
      → length bytes ≤ fuel
      → length before + length bytes ≤ wanted
      → Room before s
      → Ends
          (λ _ s'. Room (before ++ bytes) s')
          (PartLeft (before ++ (bytes ++ after)))
          (ostream_write_all fuel bytes s)
  write_all-Room fuel bytes after before s f w r =
      let e = r.now in
      let same_length : length (contents e) ≡ length before = ap length r.held in
      let fits : length (contents e) + length bytes ≤ wanted = omega (arith, same_length, w) in
      rw r.form (
        Ends-mono (λ _ s'. AllWith (Small wanted) bytes e s') (λ _ s'. Room (before ++ bytes) s')
          (NoneWith (Small wanted) bytes e) (PartLeft (before ++ (bytes ++ after)))
          (ostream_write_all fuel bytes (at_env ostream_buffer_methods e))
          (write_all-once (Small wanted) fuel bytes e f r.valid r.small
            (write-Small wanted bytes e r.valid fits r.small))
          (λ _ s' (t, small). record {
            now = t.now;
            form = t.form;
            valid = t.valid;
            held = t.held ∙ ap (λ bs. bs ++ bytes) r.held;
            small = small;
            calls = omega (arith, r.calls, t.later.calls);
            grants = t.later.grant ∙ r.grants;
          })
          (λ status s' (t, small). (
            t.code,
            record {
              count = length before;
              left = record {
                now = t.left.now;
                form = t.left.form;
                valid = t.left.valid;
                held =
                    t.left.held
                    ∙ (append-nil (contents e)
                        ∙ (r.held ∙ sym (take-length_append before (bytes ++ after))));
                small = small;
                calls = omega (arith, r.calls, t.left.later.calls);
                grants = t.left.later.grant ∙ r.grants;
              };
              full = omega (arith, t.exhausted.full, fits);
              request = t.exhausted.request;
              last = t.exhausted.last;
              meanwhile = omega (arith, r.calls, t.exhausted.meanwhile);
              refused =
                  ap (λ g. g t.exhausted.request (t.left.now.context.block.size * 2)) (sym r.grants)
                  ∙ t.exhausted.refused;
            },
          )))

  write_each-Room :
      (fuel : ℕ) (before : List ℕ) (cs : List (List ℕ)) (s : OState OStreamContext)
      → length before + length (concat cs) ≤ wanted
      → length (concat cs) ≤ fuel
      → Room before s
      → Ends
          (λ _ s'. Room (before ++ concat cs) s')
          (PartLeft (before ++ concat cs))
          (write_each fuel cs s)
  write_each-Room fuel before [] s w f r = subst (λ bs. Room bs s) (sym (append-nil before)) r
  write_each-Room fuel before (c ∷ cs) s w f r =
      let sum : length (c ++ concat cs) ≡ length c + length (concat cs) =
        length-append c (concat cs) in
      let whole = before ++ (c ++ concat cs) in
      Ends-and_then (λ _ s'. Room (before ++ c) s') (PartLeft whole) (λ _ s'. Room whole s')
        (PartLeft whole) (ostream_write_all fuel c s) (λ _. write_each fuel cs)
        (write_all-Room fuel c (concat cs) before s (omega (arith, sum)) (omega (arith, sum, w)) r)
        (λ _ s' q.
          subst (λ bs. Ends (λ _ s''. Room bs s'') (PartLeft bs) (write_each fuel cs s'))
            (append_assoc before c (concat cs))
            (write_each-Room fuel (before ++ c) cs s'
              (omega (arith, sum, length-append before c, w)) (omega (arith, sum)) q))
        (λ status s' q. q)

-- The stream was not made, since the first or the second request was refused.
abbrev pub NotMade : OState OStreamContext → Status → OState OStreamContext → Type 0
NotMade s status s' =
    (status ≡ enomem)
    × (s'.stream ≡ s.stream)
    × ((s.mem.grant s.mem.calls context_size ≡ false) ⊎ (s.mem.grant (s.mem.calls + 1) 16 ≡ false))

made :
    (wanted : ℕ) (s : OState OStreamContext)
    → BoundedGrants s.mem
    → Ends (λ _ s'. Room s.mem wanted [] s') (NotMade s) (ostream_init_buffer s)
unfolding ostream_init_buffer
made wanted s b = elim (Bool-cases (s.mem.grant s.mem.calls context_size)) [
  | inr first ↦ rw first (refl, refl, inl first)
  | inl first ↦ rw first (elim (Bool-cases (s.mem.grant (s.mem.calls + 1) 16)) [
    | inr second ↦ rw second (refl, refl, inr second)
    | inl second ↦ rw second (record {
      now = new_env s.mem;
      form = refl;
      valid = new_env-IsValid s.mem b;
      held = refl;
      small = inl refl;
      calls = omega arith;
      grants = refl;
    })
  ])
]

-- A new stream, and what is written to it.
abbrev pub fill : (fuel : ℕ) → List (List ℕ) → Cmd (OState OStreamContext) (Unit {0})
fill fuel cs = ostream_init_buffer >> write_each fuel cs

-- `sdlog_ostream_init_buffer` and then `sdlog_ostream_write_all` for each of some chunks of data end.
-- On success the stream holds the chunks in order and nothing else. The only error is ENOMEM, after
-- the allocator refused a request: then the stream was not made, since one of the first two requests
-- was refused; or it holds a first part of the data, its block is smaller than all of the data, and
-- the last request, for a block of twice the size, was refused. The block of a stream that was made
-- has its first 16 bytes or less than twice the length of all of the data. The allocator gives no
-- block of 2 ^ 63 bytes or more.
pub fill-Room :
    (fuel : ℕ) (cs : List (List ℕ)) (s : OState OStreamContext)
    → length (concat cs) ≤ fuel
    → BoundedGrants s.mem
    → Ends
        (λ _ s'. Room s.mem (length (concat cs)) (concat cs) s')
        (λ status s'.
          NotMade s status s' ⊎ PartLeft s.mem (length (concat cs)) (concat cs) status s')
        (fill fuel cs s)
fill-Room fuel cs s f b =
    let wanted = length (concat cs) in
    let Error = λ (status : Status) (s' : OState OStreamContext).
      NotMade s status s' ⊎ PartLeft s.mem wanted (concat cs) status s' in
    Ends-and_then (λ _ s'. Room s.mem wanted [] s') (NotMade s)
      (λ _ s'. Room s.mem wanted (concat cs) s') Error (ostream_init_buffer s)
      (λ _. write_each fuel cs) (made wanted s b)
      (λ _ s' r.
        Ends-mono (λ _ s''. Room s.mem wanted (concat cs) s'')
          (λ _ s''. Room s.mem wanted (concat cs) s'') (PartLeft s.mem wanted (concat cs)) Error
          (write_each fuel cs s') (write_each-Room s.mem wanted fuel [] cs s' (omega arith) f r)
          (λ _ s'' q. q) (λ status s'' q. inr q))
      (λ status s' q. inl q)
