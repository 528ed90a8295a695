-- ===== src/Memory/Laws.antt =====
-- What the allocation functions of core/memory.c promise in every build.
use libsdlog.Prelude.{
  ℕ, ◌+◌, ◌*◌, ◌≤◌, ◌<◌, ◌≡◌, none, some, length, take_all, arith, if◌then◌else◌,
}
use libsdlog.Outcome.{ok}
use libsdlog.Memory.{Mem, Block, sdlog_realloc}

abbrev pub spend : Mem → ℕ → Mem
spend m live = record m { calls = m.calls + 1; live = live }

-- `sdlog_realloc` that grows a block: if the allocator refuses, NULL is returned, and no block is
-- allocated or freed. If it grants the request, the new block has the new size and the old contents,
-- and takes the place of the old one. So it is in every build.
pub sdlog_realloc_lem :
    {A : Type 0} (m : Mem) (b : Block A) (item_size old_size new_size : ℕ)
    → length b.items ≤ old_size
    → old_size ≤ new_size
    → 0 < m.live
    → sdlog_realloc (some b) item_size old_size new_size m ≡ (
        if m.grant m.calls (new_size * item_size)
        then (ok (some (record { size = new_size; items = b.items })), spend m m.live)
        else (ok none, spend m m.live))
unfolding sdlog_realloc
sdlog_realloc_lem m b k old new h g l =
    ground (arith, take_all new b.items (omega arith), take_all old b.items h)
