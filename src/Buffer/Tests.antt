-- ===== src/Buffer/Tests.antt =====
-- Runs of io/buffer.c and io/base.c on small buffers.
use libsdlog.Prelude.{
  Bool, ℕ, ◌≤◌, ◌<◌, ◌≡◌, ◌⊎◌, refl, true, false, List, [], ◌∷◌, length, leb, leb→le, arith, codes,
}
use libsdlog.Outcome.{ok, fail, enomem, eof, Ends}
use libsdlog.Memory.{Mem, system}
use libsdlog.Stream.{Env, OState, istream_read_exactly, ostream_write_all, opened, closed}
use libsdlog.Stream.Sink
use libsdlog.Stream.Sink.{Took, TookSome, write_all-Took}
use libsdlog.Stream.Source
use libsdlog.Stream.Source.{ReadFully, Ended, read_exactly-ReadFully}
use libsdlog.Buffer.{
  IStreamContext, OStreamContext, context_size, buffer_write, istream_buffer_methods,
  ostream_buffer_methods, ostream_init_buffer,
}
use libsdlog.Buffer.Growing.{IsValid, BoundedGrants}
use libsdlog.Buffer.Output.{BufferWritten, buffer_write-BufferWritten}
use libsdlog.Buffer.Fill.{concat, Room, NotMade, PartLeft, fill, fill-Room}
use libsdlog.Buffer.Input.{read_exactly_buffer}
use libsdlog.Buffer.Life.{Holding, TookAll, TookNone, init_buffer-Holding, write_all-buffer}
use libsdlog.Null.{istream_null_methods, ostream_null_methods, null_streams}

abbrev pub grants : ℕ → ℕ → Bool
grants n k = leb k 1000

abbrev pub heap : ℕ → Mem
heap live = record { build = system; grant = grants; calls = 0; live = live }

pub heap-BoundedGrants : (live : ℕ) → BoundedGrants (heap live)
heap-BoundedGrants live n k h = omega (arith, leb→le k 1000 h)

-- A block of 16 bytes with two bytes in it.
abbrev pub two : Env OStreamContext
two = record { context = record { block = record { size = 16; items = 7 ∷ 8 ∷ [] } }; mem = heap 4 }

pub two-IsValid : IsValid two
two-IsValid = record {
  fits = omega arith;
  least = omega arith;
  most = omega arith;
  owned = omega arith;
  bounded = heap-BoundedGrants 4;
}

abbrev closing : OState OStreamContext
closing = Sink.at_env ostream_buffer_methods two

two-Holding : Holding (7 ∷ 8 ∷ []) 4 closing
two-Holding = record { env = two; form = refl; valid = two-IsValid; held = refl; blocks = refl }

abbrev pub text : List ℕ
text = codes "more than sixteen bytes"

buffer_write-BufferWritten_example : BufferWritten text two (buffer_write text two)
buffer_write-BufferWritten_example = buffer_write-BufferWritten text two two-IsValid

write_all-buffer_example :
    Ends (λ _ s. TookAll two text s) (TookNone two text) (ostream_write_all 30 text closing)
write_all-buffer_example = write_all-buffer 30 text two (omega arith) two-IsValid

abbrev unopened : OState OStreamContext
unopened = closed (heap 5)

init_buffer-Holding_example :
    Ends
      (λ _ s. Holding [] 7 s)
      (λ e s.
        (e ≡ enomem)
        × (s.stream ≡ unopened.stream)
        × (((grants 0 context_size ≡ false) × (s.mem.live ≡ 5))
            ⊎ ((grants 0 context_size ≡ true) × (grants 1 16 ≡ false) × (s.mem.live ≡ 6))))
      (ostream_init_buffer unopened)
init_buffer-Holding_example = init_buffer-Holding unopened (heap-BoundedGrants 5)

-- The second of four bytes is the next to read.
abbrev four : Env IStreamContext
four = record { context = record { data_bytes = 1 ∷ 2 ∷ 3 ∷ 4 ∷ []; read_ptr = 1 }; mem = heap 1 }

read_exactly_buffer_example :
    Ends
      (λ bytes s. (bytes ≡ 2 ∷ 3 ∷ []) × (2 ≤ 3))
      (λ status s. (status ≡ eof) × (3 < 2))
      (istream_read_exactly 2 2 (Source.at_env istream_buffer_methods four))
read_exactly_buffer_example = read_exactly_buffer 2 2 four (omega arith) (omega arith)

null_streams_example :
    (ostream_write_all 1 (1 ∷ 2 ∷ []) (opened ostream_null_methods tt (heap 0))
      ≡ (ok tt, opened ostream_null_methods tt (heap 0)))
    × (istream_read_exactly 1 3 (opened istream_null_methods tt (heap 0))
        ≡ (fail eof, opened istream_null_methods tt (heap 0)))
null_streams_example = null_streams 0 2 (1 ∷ 2 ∷ []) (heap 0)

-- Three chunks of 60 bytes in all: the block has grown twice when they are written.
abbrev chunks : List (List ℕ)
chunks = text ∷ [] ∷ codes "a few bytes more than are in the first" ∷ []

fill-Room_example :
    Ends
      (λ _ s. Room unopened.mem (length (concat chunks)) (concat chunks) s)
      (λ status s.
        NotMade unopened status s
        ⊎ PartLeft unopened.mem (length (concat chunks)) (concat chunks) status s)
      (fill 100 chunks unopened)
fill-Room_example = fill-Room 100 chunks unopened (omega arith) (heap-BoundedGrants 5)

-- The run itself succeeds, in a block of 64 bytes.
fill_run :
    Ends
      (λ _ s.
        s
        ≡ Sink.at_env ostream_buffer_methods (record {
          context = record { block = record { size = 64; items = concat chunks } };
          mem = record (heap 7) { calls = 4 };
        }))
      (λ _ _. ⊥)
      (fill 100 chunks unopened)
unfolding ostream_init_buffer ostream_write_all buffer_write
fill_run = refl
