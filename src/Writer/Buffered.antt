-- ===== src/Writer/Buffered.antt =====
-- core/writer.c over io/buffer.c: a whole log in the memory of the caller.
use mathlib.Core.Path.{subst}
use libsdlog.Prelude.{Bool, ℕ, ◌+◌, ◌≤◌, ◌≡◌, ◌⊎◌, inl, inr, refl, sym, List, [], ◌++◌, length, All}
use libsdlog.Outcome.{Status, enomem, Ends, Cmd, ◌>>◌}
use libsdlog.Outcome.Ends.{Ends-mono, Ends-and_then}
use libsdlog.Stream.{Env}
use libsdlog.Buffer.{OStreamContext, ostream_init_buffer, ostream_buffer_get}
use libsdlog.Buffer.Growing.{BoundedGrants, contents}
use libsdlog.Buffer.Life.{Holding, init_buffer-Holding, buffer_get-contents}
use libsdlog.Buffer.Quiet.{quiet_buffer}
use libsdlog.Writer.{WriterState, zero_writer, on_stream}
use libsdlog.Writer.Known.{Ends-on_stream}
use libsdlog.Writer.End.{Destroyed}
use libsdlog.Writer.Life.{InitFailed}
use libsdlog.Writer.Ready.{start}
use libsdlog.Writer.Session.{write_log, new_entries, Cut, write_log-Whole}
use libsdlog.Writer.Spec.{Entry, IsEntry}

-- A client that writes a log into a new buffer and looks at the bytes.
unfoldable pub log_in_buffer :
    (to_float : ℕ → ℕ) (fuel : ℕ) → List Entry → Cmd (WriterState OStreamContext) (List ℕ × ℕ)
log_in_buffer to_float fuel ns =
    on_stream ostream_init_buffer >> (write_log to_float fuel ns >> on_stream ostream_buffer_get)

-- The bytes that the client sees, what its stream holds, and the writer that it leaves.
pub record Shown (bytes : List ℕ) (live : ℕ) (seen : List ℕ × ℕ) (s : WriterState OStreamContext)
    : Type 0 where
  pub shown : seen ≡ (bytes, length bytes)
  pub stream : Holding bytes (live + 2) s.out
  pub cleared : s.writer ≡ zero_writer

-- The new stream beside the writer.
pub init_buffer-Held :
    (s : WriterState OStreamContext)
    → BoundedGrants s.out.mem
    → Ends
        (λ _ s'. (s'.writer ≡ s.writer) × Holding [] (s.out.mem.live + 2) s'.out)
        (λ status _. status ≡ enomem)
        (on_stream ostream_init_buffer s)
init_buffer-Held s b =
    Ends-mono (λ _ s'. (s'.writer ≡ s.writer) × Holding [] (s.out.mem.live + 2) s'.out)
      (λ _ s'. (s'.writer ≡ s.writer) × Holding [] (s.out.mem.live + 2) s'.out) _
      (λ status _. status ≡ enomem) (on_stream ostream_init_buffer s)
      (Ends-on_stream s.writer _ _ (ostream_init_buffer s.out) (init_buffer-Holding s.out b))
      (λ _ s' h. h) (λ status s' h. h.1.0)

Destroyed-Holding :
    {grant : ℕ → ℕ → Bool} (live : ℕ) (bytes : List ℕ) (s : WriterState OStreamContext)
    → Destroyed quiet_buffer grant live bytes s
    → Holding bytes live s.out
Destroyed-Holding live bytes s d = record {
  env = d.env;
  form = d.form;
  valid = d.inv;
  held = d.view;
  blocks = d.blocks;
}

get-Shown :
    {grant : ℕ → ℕ → Bool} (live : ℕ) (bytes : List ℕ) (s : WriterState OStreamContext)
    → Destroyed quiet_buffer grant (live + 2) bytes s
    → Ends
        (λ seen s'. Shown bytes live seen s')
        (λ status _. status ≡ enomem)
        (on_stream ostream_buffer_get s)
get-Shown live bytes s d =
    let h = Destroyed-Holding (live + 2) bytes s d in
    rw (buffer_get-contents bytes (live + 2) s.out h)
      (record { shown = refl; stream = h; cleared = d.cleared })

no_other :
    (grant : ℕ → ℕ → Bool) (e : Env OStreamContext) (bytes : List ℕ) (status : Status)
    (s : WriterState OStreamContext)
    → InitFailed quiet_buffer grant e status s
      ⊎ Cut quiet_buffer grant e.mem.live (contents e) bytes status s
    → status ≡ enomem
no_other grant e bytes status s (inl f) = f.0
no_other grant e bytes status s (inr c) = elim c.code [ inl f ↦ f | inr m ↦ m.0 ]

module _ (to_float : ℕ → ℕ) (fuel : ℕ) (enough : 256 ≤ fuel) where
  -- A log into a buffer stream that holds nothing.
  pub write_log-Held :
      (ns : List Entry) (live : ℕ) (s : WriterState OStreamContext)
      → All (IsEntry to_float) ns
      → (h : Holding [] (live + 2) s.out)
      → Ends
          (λ _ s'. Destroyed quiet_buffer h.env.mem.grant (live + 2) (new_entries ns) s')
          (λ status s'.
            InitFailed quiet_buffer h.env.mem.grant h.env status s'
            ⊎ Cut quiet_buffer h.env.mem.grant h.env.mem.live
                (contents h.env)
                (new_entries ns)
                status
                s')
          (write_log to_float fuel ns s)
  write_log-Held ns live s v h =
      let grant = h.env.mem.grant in
      let bytes = new_entries ns in
      let failed = λ (status : Status) (s' : WriterState OStreamContext).
        InitFailed quiet_buffer grant h.env status s'
        ⊎ Cut quiet_buffer grant h.env.mem.live (contents h.env) bytes status s' in
      subst
        (λ out.
          Ends (λ _ s'. Destroyed quiet_buffer grant (live + 2) bytes s') failed
            (write_log to_float fuel ns (record s { out = out })))
        (sym h.form)
        (Ends-mono
          (λ _ s'. Destroyed quiet_buffer grant h.env.mem.live (contents h.env ++ bytes) s')
          (λ _ s'. Destroyed quiet_buffer grant (live + 2) bytes s') failed failed
          (write_log to_float fuel ns (start quiet_buffer grant s.writer h.env))
          (write_log-Whole quiet_buffer grant to_float fuel enough ns s.writer h.env h.valid refl v)
          (λ _ s' d.
            subst (λ bs. Destroyed quiet_buffer grant (live + 2) (bs ++ bytes) s') h.held
              (subst (λ n. Destroyed quiet_buffer grant n (contents h.env ++ bytes) s') h.blocks d))
          (λ _ _ k. k))

  -- Behind `sdlog_ostream_init_buffer`.
  held_step :
      (ns : List Entry) (live : ℕ) (s : WriterState OStreamContext)
      → All (IsEntry to_float) ns
      → Holding [] (live + 2) s.out
      → Ends
          (λ seen s'. Shown (new_entries ns) live seen s')
          (λ status _. status ≡ enomem)
          ((write_log to_float fuel ns >> on_stream ostream_buffer_get) s)
  held_step ns live s v h =
      let grant = h.env.mem.grant in
      let bytes = new_entries ns in
      Ends-and_then (λ _ s'. Destroyed quiet_buffer grant (live + 2) bytes s')
        (λ status s'.
          InitFailed quiet_buffer grant h.env status s'
          ⊎ Cut quiet_buffer grant h.env.mem.live (contents h.env) bytes status s')
        (λ seen s'. Shown bytes live seen s') (λ status _. status ≡ enomem)
        (write_log to_float fuel ns s) _ (write_log-Held ns live s v h)
        (λ _ s' d. get-Shown live bytes s' d)
        (λ status s' k. no_other grant h.env bytes status s' k)

  -- A client that makes a buffer stream and a writer, writes entries that the writer can serve, ends
  -- the session, destroys the writer and asks for the buffer. On success it gets exactly the log of the
  -- entries and its length, the writer is cleared, and of all blocks the two of the stream are left;
  -- ENOMEM is the only error. The allocator gives no block of 2 ^ 63 bytes or more.
  pub log_in_buffer-Shown :
      (ns : List Entry) (s : WriterState OStreamContext)
      → BoundedGrants s.out.mem
      → All (IsEntry to_float) ns
      → Ends
          (λ seen s'. Shown (new_entries ns) s.out.mem.live seen s')
          (λ status _. status ≡ enomem)
          (log_in_buffer to_float fuel ns s)
  unfolding log_in_buffer
  log_in_buffer-Shown ns s b v =
      Ends-and_then (λ _ s'. (s'.writer ≡ s.writer) × Holding [] (s.out.mem.live + 2) s'.out)
        (λ status _. status ≡ enomem) (λ seen s'. Shown (new_entries ns) s.out.mem.live seen s')
        (λ status _. status ≡ enomem) (on_stream ostream_init_buffer s)
        (λ _. write_log to_float fuel ns >> on_stream ostream_buffer_get) (init_buffer-Held s b)
        (λ _ s' h. held_step ns s.out.mem.live s' v h.1) (λ status s' h. h)
