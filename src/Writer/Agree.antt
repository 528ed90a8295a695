-- ===== src/Writer/Agree.antt =====
-- What a reader of logs has learned of the formats at their addresses, for core/writer.c.
use mathlib.Core.Path.{subst}
use libsdlog.Prelude.{
  ℕ, ◌≡◌, ◌≢◌, fun_ext, refl, ap, sym, ◌∙◌, true, Bool-cases, inl, inr, ◌==◌, ==_iff, if◌then◌else◌,
}
use libsdlog.Writer.Spec.{Entry, id_of, described_by, describe}

-- `says` is what an FMT record tells of the format at an address, `known` what a reader takes from it
-- for each id.
module _ {A : Type 0} (says : ℕ → A) where
  -- The reader knows the formats that are described.
  abbrev pub Agrees : (ℕ → ℕ) → (ℕ → A) → Type 0
  Agrees formats known = (i : ℕ) → formats i ≢ 0 → known i ≡ says (formats i)

  -- What the reader knows once a format is described.
  pub knows :
      (formats : ℕ → ℕ) (known : ℕ → A) (n : Entry)
      → n.ref.address ≢ 0
      → Agrees (describe formats n) known
      → known (id_of n) ≡ says n.ref.address
  knows formats known n there k =
      let same : describe formats n (id_of n) ≡ n.ref.address =
        rw ((==_iff (id_of n) (id_of n)).1 refl) refl in
      k (id_of n) (λ e. there (sym same ∙ e)) ∙ ap says same

  pub known-Agrees :
      (formats : ℕ → ℕ) (known : ℕ → A) (n : Entry)
      → described_by formats n ≡ true
      → Agrees formats known
      → Agrees (describe formats n) known
  known-Agrees formats known n d k = subst (λ f. Agrees f known) (fun_ext (λ i. sym (same i))) k
    where
      same : (i : ℕ) → describe formats n i ≡ formats i
      same i = elim (Bool-cases (i == id_of n)) [
        | inl here ↦ rw here (
            sym ((==_iff (formats (id_of n)) n.ref.address).0 d)
            ∙ ap formats (sym ((==_iff i (id_of n)).0 here)))
        | inr other ↦ rw other refl
      ]

  pub learned-Agrees :
      (formats : ℕ → ℕ) (known learned : ℕ → A) (n : Entry)
      → ((i : ℕ) → learned i ≡ (if i == id_of n then says n.ref.address else known i))
      → Agrees formats known
      → Agrees (describe formats n) learned
  learned-Agrees formats known learned n l k i ne = elim (Bool-cases (i == id_of n)) [
    | inl here ↦ rw (l i, here) refl
    | inr other ↦ rw (l i, other) (k i (λ e. ne (rw other e)))
  ]
