-- ===== src/Writer/Lifecycle.antt =====
-- core/writer.c: the end of a writer.
use libsdlog.Prelude.{ℕ, ◌-◌, ◌≡◌, refl, false, Bool, some, List, length}
use libsdlog.Outcome.{ok}
use libsdlog.Memory.{Block, sdlog_free}
use libsdlog.Model.{Column}
use libsdlog.Model.Invariant.{at}
use libsdlog.Model.AddColumn.{Holds}
use libsdlog.Model.Lifecycle.{destroy-Holds}
use libsdlog.Stream.{OState}
use libsdlog.Writer.{Writer, zero_writer, writer_destroy}

-- Destroying a writer that is in no session, and whose FMT format is valid, frees the blocks of that
-- format and the buffer, leaves the stream alone and clears the writer.
pub writer_destroy-Holds :
    {C : Type 0} (grant : ℕ → ℕ → Bool) (id : ℕ) (type : List ℕ) (cols : List Column) (live : ℕ)
    (w : Writer) (out : OState C) (b : Block ℕ)
    → Holds grant id type cols live (at w.fmt_message_format out.mem)
    → w.has_session ≡ false
    → w.buf ≡ some b
    → writer_destroy (record { writer = w; out = out }) ≡ (
      ok tt,
      record {
        writer = zero_writer;
        out = record out { mem = record out.mem { live = live - length cols - 1 - 1 } };
      },
    )
unfolding writer_destroy sdlog_free
writer_destroy-Holds grant id type cols live w out b h session has_buf =
    rw (session, destroy-Holds grant id type cols live (at w.fmt_message_format out.mem) h, has_buf)
      refl
