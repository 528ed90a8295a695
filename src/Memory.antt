-- ===== src/Memory.antt =====
-- core/memory.c: the allocation functions, and the blocks that they give.
pub mod Laws
use libsdlog.Prelude.{
  ℕ, ◌+◌, ◌-◌, ◌*◌, ◌≤◌, Bool, true, false, ◌&&◌, Option, none, some, List, [], ◌∷◌, ◌++◌, length,
  take, drop, ltb, leb, if◌then◌else◌,
}
use libsdlog.Outcome.{Outcome, ok, fail, fault, out_of_fuel, Cmd, pure, deref, ◌>>=◌, ◌>>◌}

-- Which macros the build defines: neither SDLOG_MALLOC nor SDLOG_FREE nor SDLOG_REALLOC, then
-- `realloc` is that of the C library; SDLOG_REALLOC; or one of the others without SDLOG_REALLOC.
pub data Build : Type 0 where
  system custom_realloc malloc_free : Build

-- The heap. The allocator is not part of the library: `grant n size` is its answer to the n-th
-- request, for `size` bytes. `live` counts the blocks that are allocated and not yet freed.
pub record Mem : Type 0 where
  pub build : Build
  pub grant : ℕ → ℕ → Bool
  pub calls : ℕ
  pub live : ℕ

-- A block of room for `size` items, of which the first ones have been stored. What was never stored
-- is indeterminate and has no value here.
pub record Block (A : Type 0) : Type 0 where
  pub size : ℕ
  pub items : List A

module _ {A : Type 0} where
  abbrev pub empty_block : ℕ → Block A
  empty_block n = record { size = n; items = [] }

  -- What `memcpy` to the place behind the stored items does: nothing is written out of bounds.
  unfoldable pub append_to : Block A → List A → Option (Block A)
  append_to b xs =
      if leb (length b.items + length xs) b.size
      then some (record b { items = b.items ++ xs })
      else none

  -- `p[i] = x`, for an index in the block that leaves no gap behind the stored items.
  unfoldable pub store_at : Block A → ℕ → A → Option (Block A)
  store_at b i x =
      if ltb i b.size && leb i (length b.items)
      then some (record b { items = take i b.items ++ x ∷ drop (i + 1) b.items })
      else none

  abbrev pub items_of : Option (Block A) → List A
  items_of none = []
  items_of (some b) = b.items

  abbrev pub count_of : Option A → ℕ
  count_of none = 0
  count_of (some _) = 1

-- The flag says that the pointer is not NULL.
unfoldable pub sdlog_malloc : ℕ → Cmd Mem Bool
sdlog_malloc size m =
    if m.grant m.calls size
    then (ok true, record m { calls = m.calls + 1; live = m.live + 1 })
    else (ok false, record m { calls = m.calls + 1 })

-- `free(NULL)` does nothing.
unfoldable pub sdlog_free : {A : Type 0} → Option A → Cmd Mem (Unit {0})
sdlog_free p m = (ok tt, record m { live = m.live - count_of p })

-- `realloc` of the C library, or SDLOG_REALLOC: a new block with the old contents as far as they fit,
-- or NULL and the old block untouched. With NULL it allocates.
unfoldable pub system_realloc : {A : Type 0} → Option (Block A) → ℕ → ℕ → Cmd Mem (Option (Block A))
system_realloc p item_size new_size m =
    if m.grant m.calls (new_size * item_size)
    then (
      ok (some (record { size = new_size; items = take new_size (items_of p) })),
      record m { calls = m.calls + 1; live = m.live + 1 - count_of p },
    )
    else (ok none, record m { calls = m.calls + 1 })

-- The replacement for builds without a `realloc`: `memcpy` of `old_size` into the new block.
unfoldable pub copying_realloc :
    {A : Type 0} → Option (Block A) → ℕ → ℕ → ℕ → Cmd Mem (Option (Block A))
unfolding sdlog_malloc append_to sdlog_free
copying_realloc p item_size old_size new_size = do
  granted ← sdlog_malloc (new_size * item_size)
  if granted
      then (do
        new_p ← deref (append_to (empty_block new_size) (take old_size (items_of p)))
        sdlog_free p
        pure (some new_p))
      else pure none

-- The sizes are given in items of `item_size` bytes.
unfoldable pub sdlog_realloc :
    {A : Type 0} → Option (Block A) → ℕ → ℕ → ℕ → Cmd Mem (Option (Block A))
unfolding system_realloc copying_realloc
sdlog_realloc p item_size old_size new_size m = elim m.build [
  | system ↦ system_realloc p item_size new_size m
  | custom_realloc ↦ system_realloc p item_size new_size m
  | malloc_free ↦ copying_realloc p item_size old_size new_size m
]
