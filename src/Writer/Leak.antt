-- ===== src/Writer/Leak.antt =====
-- core/writer.c: what `sdlog_writer_init` leaves behind when it fails.
use libsdlog.Prelude.{ℕ, ◌+◌, ◌-◌, ◌≡◌, inl, inr, refl, Bool-cases, some, codes, arith}
use libsdlog.Outcome.{ok, enomem, Ends, ◌>>◌, check_oom, ◌>>=◌}
use libsdlog.Outcome.Ends.{Ends-and_then}
use libsdlog.Memory.{Mem, empty_block, sdlog_malloc, sdlog_free}
use libsdlog.Model.{Format, FormatState, zero_format, max_message_length}
use libsdlog.Model.Invariant.{at}
use libsdlog.Model.AddColumn.{Holds}
use libsdlog.Model.Lifecycle.{type_array, destroy-Holds}
use libsdlog.Stream.{Env, OStreamSpec}
use libsdlog.Writer.{
  Writer, WriterState, zero_writer, set_writer, on_heap, on_format, writer_init, writer_destroy,
}
use libsdlog.Writer.FmtFormat.{make_fmt, FmtRefused, FmtLeft, make_fmt-Holds}
use libsdlog.Writer.Life.{on, Ends-put_format}
use libsdlog.Writer.Spec.{fmt_columns}

module _ {C : Type 0} (spec : OStreamSpec C) where
  -- A failure of `sdlog_writer_init`, started with the writer `w` in the state `e`. Either the FMT
  -- format was not made: the writer is as it was, so that nothing points to the `left` blocks that
  -- are still allocated. Or its buffer was refused: destroying the writer frees every new block.
  pub data InitLeft (w : Writer) (e : Env C) (s : WriterState C) : Type 0 where
    lost :
        (left : ℕ) (m : Mem)
        → FmtLeft e.mem left
        → m.live ≡ e.mem.live + left
        → s ≡ on spec w (record e { mem = m })
        → InitLeft w e s
    kept :
        (m : Mem)
        → s.out.mem.live ≡ e.mem.live + 6
        → m.live ≡ e.mem.live
        → writer_destroy s ≡ (ok tt, on spec zero_writer (record e { mem = m }))
        → InitLeft w e s

  abbrev FmtHolds : Env C → FormatState → Type 0
  FmtHolds e = Holds e.mem.grant 128 (type_array (codes "FMT")) fmt_columns (e.mem.live + 6)

  -- Destroying the writer whose buffer was refused.
  destroy_without_buf :
      (w : Writer) (e : Env C) (m : Mem) (f : Format)
      → FmtHolds e (at f m)
      → InitLeft w e (
          on spec
            (record zero_writer { fmt_message_format = f })
            (record e { mem = record m { calls = m.calls + 1 } }))
  unfolding writer_destroy sdlog_free
  destroy_without_buf w e m f h =
      let m' : Mem = record m { calls = m.calls + 1 } in
      let h' : FmtHolds e (at f m') = record {
        alloc = h.alloc;
        form = h.form;
        fits = h.fits;
        grown = h.grown;
        valid = h.valid;
        blocks = h.blocks;
        owned = h.owned;
        oracle = h.oracle;
      } in
      kept (record m' { live = e.mem.live + 6 - 5 - 1 - 0 }) h.blocks (omega arith)
        (rw (destroy-Holds _ _ _ _ _ (at f m') h') refl)

  -- The seventh block.
  last_block :
      (w : Writer) (e : Env C) (m : Mem) (f : Format)
      → FmtHolds e (at f m)
      → Ends
          (λ _ s. s.out.mem.live ≡ e.mem.live + 7)
          (λ status s. (status ≡ enomem) × InitLeft w e s)
          ((on_heap (sdlog_malloc max_message_length) >>= λ granted.
              check_oom granted
              >> set_writer (record zero_writer {
                fmt_message_format = f;
                buf = some (empty_block max_message_length);
              }))
            (on spec (record zero_writer { fmt_message_format = f }) (record e { mem = m })))
  unfolding sdlog_malloc
  last_block w e m f h = elim (Bool-cases (m.grant m.calls 256)) [
    | inr denied ↦ rw denied (refl, destroy_without_buf w e m f h)
    | inl granted ↦ rw granted (omega (arith, h.blocks))
  ]

  -- `sdlog_writer_init` either succeeds, with seven blocks more than before, or returns ENOMEM. If it
  -- fails while it makes the FMT format then the writer and the stream are as they were and the blocks
  -- made so far stay allocated: none if the very first request, for the array of the columns, was
  -- refused, otherwise between one and five, which nothing points to. If it fails for its buffer then
  -- six blocks are left, and destroying the writer frees all of them.
  pub writer_init-InitLeft :
      (w : Writer) (e : Env C)
      → Ends
          (λ _ s. s.out.mem.live ≡ e.mem.live + 7)
          (λ status s. (status ≡ enomem) × InitLeft w e s)
          (writer_init (on spec w e))
  unfolding writer_init
  writer_init-InitLeft w e =
      Ends-and_then
        (λ f s. (m : Mem) × (s ≡ on spec w (record e { mem = m })) × FmtHolds e (at f m))
        (λ status s.
          (t : FormatState) × (s ≡ on spec w (record e { mem = t.mem }))
          × FmtRefused e.mem status t)
        (λ _ s. s.out.mem.live ≡ e.mem.live + 7) (λ status s. (status ≡ enomem) × InitLeft w e s)
        (on_format make_fmt zero_format (on spec w e)) _
        (Ends-put_format spec (FmtHolds e) (FmtRefused e.mem) w e (make_fmt (at zero_format e.mem))
          (make_fmt-Holds e.mem))
        (λ f s (m, is_s, h). rw is_s (last_block w e m f h))
        (λ status s (t, is_s, r). (r.0, lost r.3.0 t.mem r.3.1 r.3.2 is_s))
