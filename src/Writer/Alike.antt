-- ===== src/Writer/Alike.antt =====
-- core/writer.c: what an FMT record cuts off. Calls that differ in nothing else look the same in a log.
use libsdlog.Prelude.{
  ℕ, ◌≤◌, ◌≡◌, refl, ap, ap₂, List, [], ◌∷◌, ◌++◌, map, take, length, length-take, replicate, All,
  codes, arith,
}
use libsdlog.Outcome.{enomem, Ends}
use libsdlog.Model.{strncpy}
use libsdlog.Model.Size.{total_size}
use libsdlog.Model.StringLaws.{join, name_of}
use libsdlog.Buffer.{OStreamContext}
use libsdlog.Buffer.Growing.{BoundedGrants}
use libsdlog.Writer.{WriterState}
use libsdlog.Writer.Buffered.{Shown, log_in_buffer, log_in_buffer-Shown}
use libsdlog.Writer.Session.{new_entries}
use libsdlog.Writer.Spec.{
  Entry, IsEntry, id_of, types_of, fmt_record, data_record, added, log, describe,
}

-- The names of the columns, as an FMT record has them before they are cut.
abbrev pub names_of : Entry → List ℕ
names_of n = join (codes ",") (map name_of n.cols)

-- Two calls of one format, of two formats that have the same id, type and size, and whose columns have
-- the same types up to the sixteenth and the same names in the first 64 bytes of all names; the encoded
-- fields are the same.
pub record Alike (n n' : Entry) : Type 0 where
  pub id : id_of n ≡ id_of n'
  pub address : n.ref.address ≡ n'.ref.address
  pub type : n.type ≡ n'.type
  pub size : total_size n.cols ≡ total_size n'.cols
  pub types : take 16 (types_of n.cols) ≡ take 16 (types_of n'.cols)
  pub names : take 64 (names_of n) ≡ take 64 (names_of n')
  pub fields : n.fields ≡ n'.fields

abbrev pub AllAlike : List Entry → List Entry → Type 0
AllAlike [] [] = Unit
AllAlike (n ∷ ns) (n' ∷ ns') = Alike n n' × AllAlike ns ns'
AllAlike _ _ = ⊥

-- `strncpy` does not look behind the first `n` bytes.
strncpy-take : (n : ℕ) (s t : List ℕ) → take n s ≡ take n t → strncpy n s ≡ strncpy n t
strncpy-take n s t h =
    ap₂ (λ xs k. xs ++ replicate k 0) h
      (omega (arith, length-take n s, length-take n t, ap length h))

same_fmt_record : (n n' : Entry) → Alike n n' → fmt_record n ≡ fmt_record n'
unfolding fmt_record
same_fmt_record n n' a =
    rw
      (
        a.id,
        a.size,
        a.type,
        strncpy-take 16 (types_of n.cols) (types_of n'.cols) a.types,
        strncpy-take 64 (names_of n) (names_of n') a.names,
      )
      refl

same_bytes : (formats : ℕ → ℕ) (n n' : Entry) → Alike n n' → added formats n ≡ added formats n'
unfolding added data_record
same_bytes formats n n' a = rw (same_fmt_record n n' a, a.id, a.address, a.fields) refl

same_description :
    (formats : ℕ → ℕ) (n n' : Entry) → Alike n n' → describe formats n ≡ describe formats n'
same_description formats n n' a = rw (a.id, a.address) refl

pub same_log :
    (ns ns' : List Entry) (formats : ℕ → ℕ) → AllAlike ns ns' → log formats ns ≡ log formats ns'
unfolding log
same_log [] [] formats a = refl
same_log (n ∷ ns) (n' ∷ ns') formats a =
    rw
      (
        same_bytes formats n n' a.0,
        same_description formats n n' a.0,
        same_log ns ns' (describe formats n') a.1,
      )
      refl
same_log [] (n' ∷ ns') formats a = absurd a
same_log (n ∷ ns) [] formats a = absurd a

-- A client writes entries that the writer can serve into a new buffer. If other entries are pairwise
-- alike, that is, their formats stand at the same address with the same id and type, have the same
-- size and differ at most in the types of the columns behind the sixteenth and in the names behind the
-- first 64 bytes, while the encoded fields are the same, then on success it gets exactly the log of
-- the others: nobody can tell from the bytes which ones were written. No error tells of what was cut
-- off; ENOMEM is the only one. The allocator gives no block of 2 ^ 63 bytes or more, and write_all has
-- 256 rounds at least.
pub log_in_buffer_alike :
    (to_float : ℕ → ℕ) (fuel : ℕ) (ns ns' : List Entry) (s : WriterState OStreamContext)
    → 256 ≤ fuel
    → BoundedGrants s.out.mem
    → All (IsEntry to_float) ns
    → AllAlike ns ns'
    → Ends
        (λ seen s'. Shown (new_entries ns') s.out.mem.live seen s')
        (λ status _. status ≡ enomem)
        (log_in_buffer to_float fuel ns s)
log_in_buffer_alike to_float fuel ns ns' s enough b v a =
    rw (← same_log ns ns' (λ _. 0) a) (log_in_buffer-Shown to_float fuel enough ns s b v)
