-- ===== src/Writer/Rounds.antt =====
-- core/writer.c over any stream: a client that uses a stream and destroys it, also after an error.
use libsdlog.Prelude.{ℕ, ◌≡◌, ◌∙◌, List}
use libsdlog.Outcome.{Status, Ends, Cmd, finally}
use libsdlog.Outcome.Ends.{Ends-mono, Ends-then_clean_total}
use libsdlog.Stream.{closed, ostream_destroy}
use libsdlog.Writer.{WriterState, zero_writer, on_stream}

-- Nothing is left but the bytes.
pub record Round {C : Type 0} (bytes : List ℕ) (live : ℕ) (got : List ℕ) (s : WriterState C)
    : Type 0 where
  pub same : got ≡ bytes
  pub blocks : s.out.mem.live ≡ live
  pub gone : s.out ≡ closed s.out.mem
  pub cleared : s.writer ≡ zero_writer

-- `IsOpen live` holds where a stream is open whose end leaves `live` blocks, `Failed` of the codes.
module _ {C : Type 0} (IsOpen : ℕ → WriterState C → Type 0) (Failed : Status → Type 0) where
  -- The stream was destroyed, and nothing else has changed.
  abbrev pub Destroys : Type 0
  Destroys =
      (live : ℕ) (s : WriterState C)
      → IsOpen live s
      → Ends
          (λ _ s'. (s'.writer ≡ s.writer) × (s'.out.mem.live ≡ live) × (s'.out ≡ closed s'.out.mem))
          (λ _ _. ⊥) (on_stream ostream_destroy s)

  -- The bytes were read, and the stream is still there.
  abbrev pub Back : ℕ → List ℕ → List ℕ → WriterState C → Type 0
  Back live bytes got s = (got ≡ bytes) × IsOpen live s × (s.writer ≡ zero_writer)

  abbrev pub Lost : Status → WriterState C → Type 0
  Lost status s = Failed status × ((live : ℕ) × IsOpen live s)

  abbrev pub Gone : Status → WriterState C → Type 0
  Gone status s = Failed status × (s.out ≡ closed s.out.mem)

  pub use_and_destroy :
      (bytes : List ℕ) (live : ℕ) (use_it : Cmd (WriterState C) (List ℕ)) (s : WriterState C)
      → Destroys
      → Ends (Back live bytes) Lost (use_it s)
      → Ends (Round bytes live) Gone (finally use_it (on_stream ostream_destroy) s)
  use_and_destroy bytes live use_it s destroys used =
      Ends-then_clean_total (Back live bytes) (Round bytes live) Lost Gone (use_it s)
        (on_stream ostream_destroy) used
        (λ got s' (same, is_open, cleared).
          Ends-mono _ (λ _ s''. Round bytes live got s'') (λ _ _. ⊥) (λ _ _. ⊥)
            (on_stream ostream_destroy s') (destroys live s' is_open)
            (λ _ s'' k. record { same = same; blocks = k.1; gone = k.2; cleared = k.0 ∙ cleared })
            (λ _ _ k. k))
        (λ status s' (code, (live', is_open)).
          Ends-mono _ (λ _ s''. Gone status s'') (λ _ _. ⊥) (λ _ _. ⊥)
            (on_stream ostream_destroy s') (destroys live' s' is_open) (λ _ s'' k. (code, k.2))
            (λ _ _ k. k))
