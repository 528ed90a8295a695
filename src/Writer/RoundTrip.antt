-- ===== src/Writer/RoundTrip.antt =====
-- core/writer.c with both buffers of io/buffer.c: a log is written into a growing buffer and read back
-- through an input stream.
use mathlib.Core.Path.{subst}
use libsdlog.Prelude.{
  ◌-◌, Bool, ℕ, ◌+◌, ◌≤◌, ◌≡◌, ◌⊎◌, inl, inr, refl, ap, sym, ◌∙◌, some, List, [], length, take,
  take_all, All, arith,
}
use libsdlog.Outcome.{Status, enomem, Ends, Cmd, ◌>>◌, ◌>>=◌, finally}
use libsdlog.Outcome.Ends.{Ends-mono, Ends-and_then}
use libsdlog.Memory.{Mem}
use libsdlog.Stream.{Env, OState, closed, ostream_destroy}
use libsdlog.Stream.Sink.{at_env}
use libsdlog.Buffer.{
  OStreamContext, ostream_buffer_methods, ostream_init_buffer, ostream_buffer_get,
}
use libsdlog.Buffer.Growing.{IsValid, BoundedGrants, contents}
use libsdlog.Buffer.Life.{Holding, buffer_get-contents, destroy-buffer}
use libsdlog.Buffer.Quiet.{moved-IsValid, quiet_buffer}
use libsdlog.Buffer.Reading.{read_whole, read_whole_lem}
use libsdlog.Stream.Still.{Balanced}
use libsdlog.Writer.{WriterState, zero_writer, on_stream, on_heap}
use libsdlog.Writer.Buffered.{init_buffer-Held, write_log-Held}
use libsdlog.Writer.Known.{Ends-on_stream, Ends-on_heap}
use libsdlog.Writer.End.{Destroyed}
use libsdlog.Writer.Life.{InitFailed}
use libsdlog.Writer.ReadBack.{read_log-log}
use libsdlog.Writer.Reader.{read_log}
use libsdlog.Writer.ReadOne.{IsReadable, messages}
use libsdlog.Writer.Rounds.{Round, Back, Lost, Gone, Destroys, use_and_destroy}
use libsdlog.Writer.Session.{write_log, new_entries, Cut}
use libsdlog.Writer.Spec.{Entry, IsEntry}

-- What a client does with a buffer stream.
abbrev use_stream :
    (to_float : ℕ → ℕ) (fuel : ℕ) → List Entry → Cmd (WriterState OStreamContext) (List ℕ)
use_stream to_float fuel ns =
    write_log to_float fuel ns
    >> (on_stream ostream_buffer_get >>= λ seen. on_heap (read_whole seen.0 seen.1))

-- A client that writes a log into a new buffer, opens the bytes as an input stream, reads them all, and
-- destroys what it has made, also after an error.
unfoldable pub log_and_read :
    (to_float : ℕ → ℕ) (fuel : ℕ) → List Entry → Cmd (WriterState OStreamContext) (List ℕ)
log_and_read to_float fuel ns =
    on_stream ostream_init_buffer
    >> finally (use_stream to_float fuel ns) (on_stream ostream_destroy)

-- The output stream is there, whatever it holds; its end leaves `live` blocks.
abbrev IsOpen : ℕ → WriterState OStreamContext → Type 0
IsOpen live s = (bytes : List ℕ) × Holding bytes (live + 2) s.out

abbrev IsMemory : Status → Type 0
IsMemory status = status ≡ enomem

abbrev BufferBack : ℕ → List ℕ → List ℕ → WriterState OStreamContext → Type 0
BufferBack = Back IsOpen IsMemory

abbrev BufferLost : Status → WriterState OStreamContext → Type 0
BufferLost = Lost IsOpen IsMemory

moved-Holding :
    (bytes : List ℕ) (live : ℕ) (out : OState OStreamContext) (m : Mem)
    → Holding bytes (live + 2) out
    → Balanced out.mem m
    → Holding bytes (live + 2) (record out { mem = m })
moved-Holding bytes live out m h (l, g) =
    let live_same : m.live ≡ live + 2 = l ∙ ap (λ t. t.mem.live) h.form ∙ h.blocks in
    record {
      env = record h.env { mem = m };
      form = ap (λ (t : OState OStreamContext). record t { mem = m }) h.form;
      valid =
          moved-IsValid h.env m h.valid (g ∙ ap (λ t. t.mem.grant) h.form)
            (omega (arith, live_same));
      held = h.held;
      blocks = live_same;
    }

on_heap-Back :
    (bytes : List ℕ) (live : ℕ) (s : WriterState OStreamContext)
    → Holding bytes (live + 2) s.out
    → s.writer ≡ zero_writer
    → Ends (BufferBack live bytes) BufferLost (on_heap (read_whole bytes (length bytes)) s)
on_heap-Back bytes live s h cleared =
    let m = s.out.mem in
    Ends-mono _ (BufferBack live bytes) _ BufferLost (on_heap (read_whole bytes (length bytes)) s)
      (Ends-on_heap s (λ got m'. (got ≡ take (length bytes) bytes) × Balanced m m')
        (λ status m'. (status ≡ enomem) × Balanced m m') (read_whole bytes (length bytes) m)
        (read_whole_lem bytes (length bytes) m (omega arith)))
      (λ got s' (m', is_s, (is_got, balanced)). subst (BufferBack live bytes got) (sym is_s) (
        is_got ∙ take_all (length bytes) bytes (omega arith),
        (bytes, moved-Holding bytes live s.out m' h balanced),
        cleared,
      ))
      (λ status s' (m', is_s, (is_memory, balanced)).
        subst (BufferLost status) (sym is_s)
          (is_memory, (live, (bytes, moved-Holding bytes live s.out m' h balanced))))

destroys_buffer : Destroys IsOpen IsMemory
destroys_buffer live s (bytes, h) =
    Ends-mono _
      (λ _ s'. (s'.writer ≡ s.writer) × (s'.out.mem.live ≡ live) × (s'.out ≡ closed s'.out.mem)) _
      (λ _ _. ⊥) (on_stream ostream_destroy s)
      (Ends-on_stream s.writer (λ _ out. (out.mem.live ≡ live) × (out ≡ closed out.mem)) (λ _ _. ⊥)
        (ostream_destroy s.out) (destroy-buffer bytes live s.out h))
      (λ _ s' k. (k.0, k.1.0, k.1.1)) (λ _ s' k. k.1)

-- A buffer stream that is valid holds what it holds.
valid-IsOpen :
    (e : Env OStreamContext) (s : WriterState OStreamContext)
    → s.out ≡ at_env ostream_buffer_methods e
    → IsValid e
    → (live : ℕ) × IsOpen live s
valid-IsOpen e s form v = (
  e.mem.live - 2,
  (
    contents e,
    record { env = e; form = form; valid = v; held = refl; blocks = omega (arith, v.owned) },
  ),
)

Cut-Lost :
    (grant : ℕ → ℕ → Bool) (e : Env OStreamContext) (bytes : List ℕ) (status : Status)
    (s : WriterState OStreamContext)
    → InitFailed quiet_buffer grant e status s
      ⊎ Cut quiet_buffer grant e.mem.live (contents e) bytes status s
    → BufferLost status s
Cut-Lost grant e bytes status s (inl f) =
    let (e', form, v, seen) = f.2 in (f.0, valid-IsOpen e' s form v)
Cut-Lost grant e bytes status s (inr c) =
    ((elim c.code [ inl f ↦ f | inr m ↦ m.0 ]), valid-IsOpen c.left.env s c.left.form c.left.inv)

read_step :
    {grant : ℕ → ℕ → Bool} (live : ℕ) (bytes : List ℕ) (s : WriterState OStreamContext)
    → Destroyed quiet_buffer grant (live + 2) bytes s
    → Ends
        (BufferBack live bytes)
        BufferLost
        ((on_stream ostream_buffer_get >>= λ seen. on_heap (read_whole seen.0 seen.1)) s)
read_step live bytes s d =
    let h : Holding bytes (live + 2) s.out = record {
      env = d.env;
      form = d.form;
      valid = d.inv;
      held = d.view;
      blocks = d.blocks;
    } in
    rw (buffer_get-contents bytes (live + 2) s.out h) (on_heap-Back bytes live s h d.cleared)

module _ (to_float : ℕ → ℕ) (fuel : ℕ) (enough : 256 ≤ fuel) where
  -- Between the making of the stream and its end.
  use-Back :
      (ns : List Entry) (live : ℕ) (s : WriterState OStreamContext)
      → All (IsEntry to_float) ns
      → Holding [] (live + 2) s.out
      → Ends (BufferBack live (new_entries ns)) BufferLost (use_stream to_float fuel ns s)
  use-Back ns live s v h =
      let grant = h.env.mem.grant in
      let bytes = new_entries ns in
      Ends-and_then (λ _ s'. Destroyed quiet_buffer grant (live + 2) bytes s')
        (λ status s'.
          InitFailed quiet_buffer grant h.env status s'
          ⊎ Cut quiet_buffer grant h.env.mem.live (contents h.env) bytes status s')
        (BufferBack live bytes) BufferLost (write_log to_float fuel ns s) _
        (write_log-Held to_float fuel enough ns live s v h) (λ _ s' d. read_step live bytes s' d)
        (λ status s' k. Cut-Lost grant h.env bytes status s' k)

-- A whole round: a client makes a buffer stream and a writer, writes entries, ends the session, destroys
-- the writer, opens the bytes of the buffer as an input stream, reads as many bytes as the buffer
-- holds and destroys both streams, also after an error. On success the bytes are the log of the
-- entries, and a reader that knows no format but FMT gets back their values, in order, with those of
-- an FMT record in front of each entry whose format was not the last one described under its id;
-- writer and stream are cleared, and as many blocks are allocated as before all calls. ENOMEM is the
-- only error. The entries are such that the writer can serve them, their strings have no zero byte,
-- and the format at an address keeps its columns, of which it has at most sixteen, is not NULL and has
-- an id other than that of FMT. The allocator gives no block of 2 ^ 63 bytes or more, and
-- write_all has 256 rounds at least.
pub log_and_read-Round :
    (to_float : ℕ → ℕ) (types_at : ℕ → List ℕ) (fuel : ℕ) (ns : List Entry)
    (s : WriterState OStreamContext)
    → 256 ≤ fuel
    → BoundedGrants s.out.mem
    → All (IsReadable types_at) ns
    → All (IsEntry to_float) ns
    → Ends
        (λ got s'.
          Round (new_entries ns) s.out.mem.live got s'
          × (read_log got ≡ some (messages to_float (λ _. 0) ns)))
        (λ status _. status ≡ enomem)
        (log_and_read to_float fuel ns s)
unfolding log_and_read
log_and_read-Round to_float types_at fuel ns s enough b r v =
    let bytes = new_entries ns in
    let live = s.out.mem.live in
    Ends-and_then (λ _ s'. (s'.writer ≡ s.writer) × Holding [] (live + 2) s'.out)
      (λ status _. status ≡ enomem)
      (λ got s'. Round bytes live got s' × (read_log got ≡ some (messages to_float (λ _. 0) ns)))
      (λ status _. status ≡ enomem) (on_stream ostream_init_buffer s) _ (init_buffer-Held s b)
      (λ _ s' h.
        Ends-mono (Round bytes live)
          (λ got s''.
            Round bytes live got s'' × (read_log got ≡ some (messages to_float (λ _. 0) ns)))
          (Gone IsOpen IsMemory) (λ status _. status ≡ enomem)
          (finally (use_stream to_float fuel ns) (on_stream ostream_destroy) s')
          (use_and_destroy IsOpen IsMemory bytes live (use_stream to_float fuel ns) s'
            destroys_buffer (use-Back to_float fuel enough ns live s' v h.1))
          (λ got s'' k. (k, ap read_log k.same ∙ read_log-log to_float types_at ns r v))
          (λ status s'' k. k.0))
      (λ status s' k. k)
