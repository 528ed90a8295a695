-- ===== src/Writer/Entries.antt =====
-- core/writer.c: `write_format_if_needed` from one abstract log to the next.
use mathlib.Core.Path.{subst}
use libsdlog.Prelude.{
  ◌+◌, ℕ, ◌≤◌, ◌≡◌, inl, inr, refl, ap, sym, ◌∙◌, Bool, true, false, Bool-cases, List, [],
  append-nil, take, ◌==◌, if◌then◌else◌, ==_iff,
}
use libsdlog.Outcome.{Ends}
use libsdlog.Outcome.Ends.{Ends-then_clean}
use libsdlog.Stream.{Env, OStreamSpec}
use libsdlog.Stream.Quiet.{QuietSink}
use libsdlog.Writer.{Writer, WriterState, set_address, write_format, write_format_if_needed}
use libsdlog.Writer.Ready.{Log, more, Ready, Reached, Partly, start}
use libsdlog.Writer.Spec.{Entry, IsEntry, fmt_record, id_of, described_by, describe}
use libsdlog.Writer.Describe.{write_format-Reached}

-- The log with the format of a call described.
abbrev pub described_log : Log → Entry → Log
described_log a n = record a { formats = describe a.formats n }

-- The FMT record in front of a record, if there is one.
abbrev pub fmt_part : Log → Entry → List ℕ
fmt_part a n = if described_by a.formats n then [] else fmt_record n

known-described :
    (a : Log) (n : Entry) (formats : ℕ → ℕ)
    → ((i : ℕ) → formats i ≡ a.formats i)
    → (formats (id_of n) == n.ref.address) ≡ true
    → (i : ℕ) → formats i ≡ describe a.formats n i
known-described a n formats k h i = elim (Bool-cases (i == id_of n)) [
  | inl same ↦
      rw same
        (ap formats ((==_iff i (id_of n)).0 same) ∙ (==_iff (formats (id_of n)) n.ref.address).0 h)
  | inr other ↦ rw other (k i)
]

set_address-described :
    (a : Log) (n : Entry) (formats : ℕ → ℕ)
    → ((i : ℕ) → formats i ≡ a.formats i)
    → (i : ℕ) → set_address formats (id_of n) n.ref.address i ≡ describe a.formats n i
set_address-described a n formats k i =
    ap (λ (d : ℕ). if i == id_of n then n.ref.address else d) (k i)

-- The test of the code and that of the abstract log agree.
by_log :
    (n : Entry) (a : Log) (w : Writer) (b : Bool)
    → w.formats (id_of n) ≡ a.formats (id_of n)
    → (w.formats (id_of n) == n.ref.address) ≡ b
    → described_by a.formats n ≡ b
by_log n a w b k h = ap (λ (d : ℕ). d == n.ref.address) (sym k) ∙ h

module _ {C : Type 0} {spec : OStreamSpec C} (q : QuietSink spec) (grant : ℕ → ℕ → Bool) where
  described-Ready :
      (n : Entry) (formats : ℕ → ℕ) (live : ℕ) (a : Log) (w : Writer) (e : Env C)
      → ((i : ℕ) → formats i ≡ describe a.formats n i)
      → Ready q grant live a w e
      → Ready q grant live (described_log a n) (record w { formats = formats }) e
  described-Ready n formats live a w e k r = record {
    inv = r.inv;
    view = r.view;
    grants = r.grants;
    blocks = r.blocks;
    fmt = r.fmt;
    session = r.session;
    known = k;
    block = r.block;
    buf = r.buf;
    size = r.size;
  }

  plus_nothing :
      {live : ℕ} (a : Log) {s : WriterState C}
      → Reached q grant live a s
      → Reached q grant live (more a []) s
  plus_nothing {live} a {s} r =
      subst (λ bs. Reached q grant live (record a { bytes = bs }) s) (sym (append-nil a.bytes)) r

  module _ (to_float : ℕ → ℕ) (fuel : ℕ) (enough : 256 + q.patience ≤ fuel) where
    remembered-Reached :
        (n : Entry) (live : ℕ) (a : Log) (s : WriterState C)
        → Reached q grant live a s
        → Reached q grant live (described_log a n) (record s {
          writer = record s.writer {
            formats = set_address s.writer.formats (id_of n) n.ref.address;
          };
        })
    remembered-Reached n live a s r =
        let formats = set_address r.writer.formats (id_of n) n.ref.address in
        record {
          writer = record r.writer { formats = formats };
          env = r.env;
          form =
              ap
                (λ (t : WriterState C). record t {
                  writer = record t.writer {
                    formats = set_address t.writer.formats (id_of n) n.ref.address;
                  };
                })
                r.form;
          ready =
              described-Ready n formats live a r.writer r.env
                (set_address-described a n r.writer.formats r.ready.known) r.ready;
        }

    -- The FMT record is written if it has to be, and the format is described.
    pub write_format_if_needed-Reached :
        (n : Entry) (live : ℕ) (a : Log) (w : Writer) (e : Env C)
        → IsEntry to_float n
        → Ready q grant live a w e
        → Ends
            (λ _ s. Reached q grant live (more (described_log a n) (fmt_part a n)) s)
            (Partly q grant live (described_log a n) (fmt_part a n))
            (write_format_if_needed to_float fuel n.ref (start q grant w e))
    unfolding write_format_if_needed
    write_format_if_needed-Reached n live a w e v r =
        elim (Bool-cases (w.formats (id_of n) == n.ref.address)) [
          | inl same ↦
              rw (same, by_log n a w true (r.known (id_of n)) same)
                (plus_nothing (described_log a n) (record {
                  writer = w;
                  env = e;
                  form = refl;
                  ready =
                      described-Ready n w.formats live a w e
                        (known-described a n w.formats r.known same) r;
                }))
          | inr new ↦
              rw (new, by_log n a w false (r.known (id_of n)) new)
                (Ends-then_clean (λ _ s. Reached q grant live (more a (fmt_record n)) s)
                  (λ _ s. Reached q grant live (more (described_log a n) (fmt_record n)) s)
                  (Partly q grant live a (fmt_record n))
                  (Partly q grant live (described_log a n) (fmt_record n))
                  (write_format to_float fuel n.ref.format (start q grant w e)) _
                  (write_format-Reached q grant to_float fuel enough n v live a w e r)
                  (λ _ s k. (_, refl, remembered-Reached n live (more a (fmt_record n)) s k))
                  (λ status s k. (
                    _,
                    refl,
                    record {
                      code = k.code;
                      count = k.count;
                      reached =
                          remembered-Reached n live (more a (take k.count (fmt_record n))) s
                            k.reached;
                    },
                  )))
        ]
