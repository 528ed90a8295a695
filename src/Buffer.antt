-- ===== src/Buffer.antt =====
-- io/buffer.c: a stream that reads from a fixed array of bytes, and one that writes to an array that
-- grows. The pointers into an array are the numbers of the bytes before them.
pub mod Bounds
pub mod Fill
pub mod Growing
pub mod Input
pub mod Life
pub mod Output
pub mod Quiet
pub mod Reading
pub mod Tests
use libsdlog.Prelude.{
  ℕ, zero, suc, ◌+◌, ◌-◌, ◌*◌, ◌%◌, ◌^◌, Bool, Option, none, some, List, [], ◌∷◌, length, take,
  drop, ltb, leb, ◌==◌, if◌then◌else◌, is_some,
}
use libsdlog.Outcome.{
  Outcome, ok, Status, success, enomem, eof, Cmd, pure, spin, deref, crash, ◌>>=◌, ◌>>◌, check_oom,
  assert, fail, fault, out_of_fuel,
}
use libsdlog.Memory.{Mem, Block, empty_block, append_to, sdlog_malloc, sdlog_free, sdlog_realloc}
use libsdlog.Stream.{
  Env, IStreamSpec, OStreamSpec, IState, OState, StreamState, istream_init, ostream_init,
}

-- `istream_context_t`: `read_ptr` is `read_ptr - data`, and `end` is the length of `data`.
pub record IStreamContext : Type 0 where
  pub data_bytes : List ℕ
  pub read_ptr : ℕ

-- `ostream_context_t`: the block holds the bytes from `data` to `end`, its size is `alloc_end - data`.
pub record OStreamContext : Type 0 where
  pub block : Block ℕ

-- `sizeof` of the two structs, of three pointers each
abbrev pub context_size : ℕ
context_size = 24

abbrev pub in_heap : {C A : Type 0} → Cmd Mem A → Cmd (Env C) A
in_heap m e = let (r, mem) = m e.mem in (r, record e { mem = mem })

abbrev pub get_context : {C : Type 0} → Cmd (Env C) C
get_context e = (ok e.context, e)

abbrev pub set_context : {C : Type 0} → C → Cmd (Env C) (Unit {0})
set_context c e = (ok tt, record e { context = c })

unfoldable pub buffer_destroy_i : Cmd (Env IStreamContext) (Unit {0})
unfolding sdlog_free
buffer_destroy_i = do
  set_context (record { data_bytes = []; read_ptr = 0 })
  in_heap (sdlog_free (some tt))

unfoldable pub buffer_read : ℕ → Cmd (Env IStreamContext) (Status × Option (List ℕ))
buffer_read size = do
  ctx ← get_context
  assert (leb ctx.read_ptr (length ctx.data_bytes))
  let left = length ctx.data_bytes - ctx.read_ptr
  let to_read = if ltb size left then size else left
  if left == 0 then pure (eof, some []) else (do
    set_context (record ctx { read_ptr = ctx.read_ptr + to_read })
    pure (success, some (take to_read (drop ctx.read_ptr ctx.data_bytes))))

abbrev pub istream_buffer_methods : IStreamSpec IStreamContext
istream_buffer_methods = record {
  init = none;
  destroy = some buffer_destroy_i;
  read = some buffer_read;
}

abbrev pub in_stream_heap : {Spec C A : Type 0} → Cmd Mem A → Cmd (StreamState Spec C) A
in_stream_heap m s = let (r, mem) = m s.mem in (r, record s { mem = mem })

unfoldable pub istream_init_buffer : List ℕ → Cmd (IState IStreamContext) (Unit {0})
unfolding sdlog_malloc istream_init
istream_init_buffer bytes = do
  granted ← in_stream_heap (sdlog_malloc context_size)
  check_oom granted
  istream_init istream_buffer_methods (record { data_bytes = bytes; read_ptr = 0 })

unfoldable pub buffer_destroy_o : Cmd (Env OStreamContext) (Unit {0})
unfolding sdlog_free
buffer_destroy_o = do
  ctx ← get_context
  in_heap (sdlog_free (some ctx.block))
  set_context (record { block = empty_block 0 })
  in_heap (sdlog_free (some tt))

unfoldable pub buffer_remaining : OStreamContext → ℕ
buffer_remaining ctx = ctx.block.size - length ctx.block.items

unfoldable pub buffer_grow : Cmd (Env OStreamContext) (Unit {0})
unfolding sdlog_realloc
buffer_grow = do
  ctx ← get_context
  let alloc_length = ctx.block.size
  let new_alloc_length = (alloc_length * 2) % 2 ^ 64
  new_data ← in_heap (sdlog_realloc (some ctx.block) 1 alloc_length new_alloc_length)
  check_oom (is_some new_data)
  block ← deref new_data
  set_context (record { block = block })

-- `while (buffer_remaining(stream) < length) SDLOG_CHECK(buffer_grow(stream));`
unfoldable pub grow_loop : (fuel size : ℕ) → Cmd (Env OStreamContext) (Unit {0})
unfolding buffer_remaining buffer_grow
grow_loop zero size = spin
grow_loop (suc fuel) size = do
  ctx ← get_context
  assert (leb (length ctx.block.items) ctx.block.size)
  let rest = grow_loop fuel size
  if ltb (buffer_remaining ctx) size then buffer_grow >> rest else pure tt

-- The size doubles in each round and cannot exceed what an allocator gives.
abbrev pub grow_fuel : ℕ
grow_fuel = 64

-- The code that a method returns, with its output argument.
abbrev pub returning :
    {S A : Type 0} → Outcome (Status × Option A) × S → Outcome (Status × Option A) × S
returning (ok a, s) = (ok a, s)
returning (fail status, s) = (ok (status, none), s)
returning (fault, s) = (fault, s)
returning (out_of_fuel, s) = (out_of_fuel, s)

unfoldable pub append_bytes : List ℕ → Cmd (Env OStreamContext) (Status × Option ℕ)
unfolding append_to
append_bytes bytes = do
  ctx ← get_context
  block ← deref (append_to ctx.block bytes)
  set_context (record { block = block })
  pure (success, some (length bytes))

unfoldable pub buffer_write : List ℕ → Cmd (Env OStreamContext) (Status × Option ℕ)
unfolding grow_loop append_bytes
buffer_write bytes e = returning ((grow_loop grow_fuel (length bytes) >> append_bytes bytes) e)

abbrev pub ostream_buffer_methods : OStreamSpec OStreamContext
ostream_buffer_methods = record {
  init = none;
  destroy = some buffer_destroy_o;
  begin = none;
  write = some buffer_write;
  flush = none;
  end = none;
}

unfoldable pub ostream_init_buffer : Cmd (OState OStreamContext) (Unit {0})
unfolding sdlog_malloc ostream_init
ostream_init_buffer = do
  granted_context ← in_stream_heap (sdlog_malloc context_size)
  check_oom granted_context
  granted_data ← in_stream_heap (sdlog_malloc 16)
  check_oom granted_data
  ostream_init ostream_buffer_methods (record { block = empty_block 16 })

-- The bytes and their number.
unfoldable pub ostream_buffer_get : Cmd (OState OStreamContext) (List ℕ × ℕ)
ostream_buffer_get s = elim s.stream.context [
  | none ↦ crash s
  | some ctx ↦ (ok (ctx.block.items, length ctx.block.items), s)
]
