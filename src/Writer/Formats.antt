-- ===== src/Writer/Formats.antt =====
-- core/writer.c: which formats a writer takes for described.
use libsdlog.Prelude.{
  codes, none, Option, Option-cases, take, some, ℕ, ◌≡◌, ◌≢◌, refl, ap, ◌∙◌, true, not, Bool-cases,
  inl, inr, List, ◌==◌, if◌then◌else◌, ==_self, ne→==_false, ==_iff,
}
use libsdlog.Outcome.{
  Outcome, ok, fail, fault, out_of_fuel, Cmd, and_then, then_clean, throw, pure, deref, ◌>>◌,
}
use libsdlog.Memory.{Mem, sdlog_free}
use libsdlog.Model.Strings.{message_format_get_column_names, message_format_get_format_string}
use libsdlog.Model.{message_format_get_size, Format}
use libsdlog.Encoder.{Arg, message_format_encode}
use libsdlog.Stream.{ostream_write_all, ostream_begin_session}
use libsdlog.Writer.{
  WriterState, FormatRef, set_address, ensure_session_started, write_format, write_format_if_needed,
  encode_to_buf, write_record_va, writer_write_va, set_writer, fmt_args, write_record, write_texts,
  write_with_names, on_stream, on_heap,
}

pub in_session :
    {C : Type 0} (s : WriterState C)
    → s.writer.has_session ≡ true
    → ensure_session_started s ≡ (ok tt, s)
unfolding ensure_session_started
in_session s h =
    ap
      (λ t.
        (if not t
            then ◌>>◌ {A = Unit {0}} (on_stream ostream_begin_session)
                (set_writer (record s.writer { has_session = true }))
            else pure tt)
          s)
      h

-- What holds of the state after an outcome other than a fault and a loop without end.
module _ {S : Type 0} where
  abbrev pub After : {A : Type 0} → (S → Type 0) → Outcome A × S → Type 0
  After P (ok a, s) = P s
  After P (fail e, s) = P s
  After P (fault, s) = Unit
  After P (out_of_fuel, s) = Unit

  After-and_then :
      {A B : Type 0} (P Q : S → Type 0) (r : Outcome A × S) (k : A → Cmd S B)
      → After P r
      → ((s : S) → P s → Q s)
      → ((a : A) (s : S) → P s → After Q (k a s))
      → After Q (and_then r k)
  After-and_then P Q (ok a, s) k h i j = j a s h
  After-and_then P Q (fail e, s) k h i j = i s h
  After-and_then P Q (fault, s) k h i j = tt
  After-and_then P Q (out_of_fuel, s) k h i j = tt

  After-then_clean :
      {A : Type 0} (P Q : S → Type 0) (r : Outcome A × S) (clean : Cmd S (Unit {0}))
      → After P r
      → ((s : S) → P s → After Q (clean s))
      → After Q (then_clean r clean)
  After-then_clean P Q (ok a, s) clean h j =
      After-and_then Q Q (clean s) (λ _. pure a) (j s h) (λ _ q. q) (λ _ _ q. q)
  After-then_clean {A} P Q (fail e, s) clean h j =
      After-and_then Q Q (clean s) (λ _. throw {A = A} e) (j s h) (λ _ q. q) (λ _ _ q. q)
  After-then_clean P Q (fault, s) clean h j = tt
  After-then_clean P Q (out_of_fuel, s) clean h j = tt

  After-mono :
      {A : Type 0} (P Q : S → Type 0) (r : Outcome A × S)
      → After P r
      → ((s : S) → P s → Q s)
      → After Q r
  After-mono P Q (ok a, s) h i = i s h
  After-mono P Q (fail e, s) h i = i s h
  After-mono P Q (fault, s) h i = tt
  After-mono P Q (out_of_fuel, s) h i = tt

module _ {C : Type 0} where
  abbrev Keeps : (ℕ → ℕ) → WriterState C → Type 0
  Keeps formats s = s.writer.formats ≡ formats

  -- A call of the stream or the heap.
  After-put_back :
      {A S : Type 0} (formats : ℕ → ℕ) (back : S → WriterState C) (r : Outcome A × S)
      → ((t : S) → Keeps formats (back t))
      → After (Keeps formats) (r.0, back r.1)
  After-put_back formats back (ok a, t) h = h t
  After-put_back formats back (fail e, t) h = h t
  After-put_back formats back (fault, t) h = tt
  After-put_back formats back (out_of_fuel, t) h = tt

  encoded-Keeps :
      {B : Type 0} (formats : ℕ → ℕ) (r : Outcome ℕ) (f : ℕ → B) (s : WriterState C)
      → Keeps formats s
      → After (Keeps formats) (and_then (and_then (r, s) pure) (λ n. pure (f n)))
  encoded-Keeps formats (ok n) f s h = h
  encoded-Keeps formats (fail e) f s h = h
  encoded-Keeps formats fault f s h = tt
  encoded-Keeps formats out_of_fuel f s h = tt

module _ {C : Type 0} (to_float : ℕ → ℕ) (fuel : ℕ) (formats : ℕ → ℕ) where
  encode_to_buf-Keeps :
      (format : Format) (args : List Arg) (s : WriterState C)
      → Keeps formats s
      → After (Keeps formats) (encode_to_buf to_float fuel format args s)
  unfolding encode_to_buf
  encode_to_buf-Keeps format args s h = elim (Option-cases s.writer.buf) [
    | inl null ↦ rw null tt
    | inr (b, some_b) ↦
        let (r, es) = message_format_encode to_float format b args in
        rw some_b (
          encoded-Keeps formats r (λ n. take n es.buf.items)
            (record s { writer = record s.writer { buf = some es.buf } }) h)
  ]

  write_record_va-Keeps :
      (format : Format) (args : List Arg) (s : WriterState C)
      → Keeps formats s
      → After (Keeps formats) (write_record_va to_float fuel format args s)
  unfolding write_record_va
  write_record_va-Keeps format args s h =
      After-and_then (Keeps formats) (Keeps formats) (encode_to_buf to_float fuel format args s)
        (λ message. on_stream (ostream_write_all fuel message))
        (encode_to_buf-Keeps format args s h) (λ _ k. k)
        (λ message t k.
          After-put_back formats (λ out. record t { out = out })
            (ostream_write_all fuel message t.out) (λ _. k))

  on_heap-Keeps :
      {A : Type 0} (m : Cmd Mem A) (s : WriterState C)
      → Keeps formats s
      → After (Keeps formats) (on_heap m s)
  on_heap-Keeps m s h =
      After-put_back formats (λ mem. record s { out = record s.out { mem = mem } }) (m s.out.mem)
        (λ _. h)

  -- A command before which and after which the formats are the same.
  abbrev Quiet : {A : Type 0} → Cmd (WriterState C) A → Type 0
  Quiet m = (s : WriterState C) → Keeps formats s → After (Keeps formats) (m s)

  deref-Quiet : {A : Type 0} (o : Option A) → Quiet (deref o)
  deref-Quiet none s p = tt
  deref-Quiet (some a) s p = p

  write_texts-Quiet :
      (format : Format) (format_str column_names : Option (List ℕ))
      → Quiet (write_texts to_float fuel format format_str column_names)
  unfolding write_texts write_record
  write_texts-Quiet format format_str none s p = p
  write_texts-Quiet format format_str (some names) s p =
      After-and_then (Keeps formats) (Keeps formats) (deref (message_format_get_size format) s) _
        (deref-Quiet (message_format_get_size format) s p) (λ _ q. q)
        (λ size t q.
          After-and_then (Keeps formats) (Keeps formats) (deref format_str t) _
            (deref-Quiet format_str t q) (λ _ q'. q')
            (λ text t' q'.
              write_record_va-Keeps t'.writer.fmt_message_format (fmt_args format size text names)
                t' q'))

  write_with_names-Quiet :
      (format : Format) (format_str : Option (List ℕ))
      → Quiet (write_with_names to_float fuel format format_str)
  unfolding write_with_names
  write_with_names-Quiet format none s p = p
  write_with_names-Quiet format (some text) s p =
      After-and_then (Keeps formats) (Keeps formats)
        (on_heap (message_format_get_column_names format (codes ",")) s) _
        (on_heap-Keeps (message_format_get_column_names format (codes ",")) s p) (λ _ q. q)
        (λ names t q.
          After-then_clean (Keeps formats) (Keeps formats)
            (write_texts to_float fuel format (some text) names t) (on_heap (sdlog_free names))
            (write_texts-Quiet format (some text) names t q) (on_heap-Keeps (sdlog_free names)))

  write_format-Quiet : (format : Format) → Quiet (write_format to_float fuel format)
  unfolding write_format
  write_format-Quiet format s p =
      After-and_then (Keeps formats) (Keeps formats)
        (on_heap (message_format_get_format_string format) s) _
        (on_heap-Keeps (message_format_get_format_string format) s p) (λ _ q. q)
        (λ text t q.
          After-then_clean (Keeps formats) (Keeps formats)
            (write_with_names to_float fuel format text t) (on_heap (sdlog_free text))
            (write_with_names-Quiet format text t q) (on_heap-Keeps (sdlog_free text)))

-- The writer takes the format of `ref` for described, and every other id as it did.
abbrev pub Remembers : {C : Type 0} → FormatRef → (ℕ → ℕ) → WriterState C → Type 0
Remembers ref formats s =
    (s.writer.formats ref.format.id ≡ ref.address)
    × ((i : ℕ) → i ≢ ref.format.id → s.writer.formats i ≡ formats i)

Remembers-set :
    {C : Type 0} (ref : FormatRef) (formats : ℕ → ℕ) (s : WriterState C)
    → Keeps formats s
    → Remembers ref formats (record s {
      writer = record s.writer { formats = set_address s.writer.formats ref.format.id ref.address };
    })
Remembers-set ref formats s k = (
  ap (λ b. if b then ref.address else s.writer.formats ref.format.id) (==_self ref.format.id),
  λ i ne.
      ap (λ b. if b then ref.address else s.writer.formats i) (ne→==_false i ref.format.id ne)
      ∙ ap (λ f. f i) k,
)

-- Unless the call faults or does not end: whether the FMT record was written or writing it failed,
-- the writer takes the format for described from then on, at this address, and what it takes the
-- other ids for does not change. So an FMT record that failed is not written again.
pub write_format_if_needed-Remembers :
    {C : Type 0} (to_float : ℕ → ℕ) (fuel : ℕ) (ref : FormatRef) (s : WriterState C)
    → After (Remembers ref s.writer.formats) (write_format_if_needed to_float fuel ref s)
unfolding write_format_if_needed
write_format_if_needed-Remembers to_float fuel ref s =
    elim (Bool-cases (s.writer.formats ref.format.id == ref.address)) [
      | inl same ↦
          rw same ((==_iff (s.writer.formats ref.format.id) ref.address).0 same, λ _ _. refl)
      | inr new ↦ rw new (
          After-then_clean (Keeps s.writer.formats) (Remembers ref s.writer.formats)
            (write_format to_float fuel ref.format s) _
            (write_format-Quiet to_float fuel s.writer.formats ref.format s refl)
            (λ t k. Remembers-set ref s.writer.formats t k))
    ]

-- The same of a whole call of `sdlog_writer_write_va` in a session: unless it faults or does not
-- end, the format is taken for described, and the other ids for what they were, on every error too.
pub writer_write_va-Remembers :
    {C : Type 0} (to_float : ℕ → ℕ) (fuel : ℕ) (ref : FormatRef) (args : List Arg)
    (s : WriterState C)
    → s.writer.has_session ≡ true
    → After (Remembers ref s.writer.formats) (writer_write_va to_float fuel ref args s)
unfolding writer_write_va
writer_write_va-Remembers to_float fuel ref args s session = rw (in_session s session) (
    After-and_then (Remembers ref s.writer.formats) (Remembers ref s.writer.formats)
      (write_format_if_needed to_float fuel ref s) _
      (write_format_if_needed-Remembers to_float fuel ref s) (λ _ r. r)
      (λ _ t r.
        After-mono (λ t'. t'.writer.formats ≡ t.writer.formats) (Remembers ref s.writer.formats)
          (write_record_va to_float fuel ref.format args t)
          (write_record_va-Keeps to_float fuel t.writer.formats ref.format args t refl)
          (λ t' k. (ap (λ f. f ref.format.id) k ∙ r.0, λ i ne. ap (λ f. f i) k ∙ r.1 i ne))))
