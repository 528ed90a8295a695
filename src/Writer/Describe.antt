-- ===== src/Writer/Describe.antt =====
-- core/writer.c: `write_format` and `write_format_if_needed`, from one abstract log to the next.
use mathlib.Core.Path.{subst}
use libsdlog.Prelude.{
  ℕ, suc, ◌+◌, ◌≤◌, ◌≡◌, ◌⊎◌, inl, inr, refl, ap, sym, ◌∙◌, Bool, Bool-cases, none, some, Option,
  List, [], ◌∷◌, ◌++◌, append-nil, length, take, codes, arith, if◌then◌else◌,
}
use libsdlog.Outcome.{ok, fail, Status, enomem, Ends, Cmd, then_clean}
use libsdlog.Outcome.Ends.{Ends-and_then, Ends-then_clean}
use libsdlog.Memory.{Mem, sdlog_free}
use libsdlog.Memory.Laws.{spend}
use libsdlog.Stream.{Env, OStreamSpec}
use libsdlog.Stream.Quiet.{QuietSink}
use libsdlog.Writer.{
  Writer, WriterState, on_heap, write_record, write_texts, write_with_names, write_format,
}
use libsdlog.Writer.Ready.{
  Log, more, Ready, Reached, Partly, start, moved-Ready, free-Reached, write_record-Reached,
}
use libsdlog.Writer.Spec.{Entry, IsEntry, fmt_columns, fmt_record}
use libsdlog.Writer.Texts.{
  fmt_record_fits, types_text, names_text, entry_types, entry_names, entry_size, entry-Encodes,
}
use libsdlog.Model.Strings.{message_format_get_column_names, message_format_get_format_string}
use libsdlog.Model.AddColumn.{Refused}

module _ {C : Type 0} {spec : OStreamSpec C} (q : QuietSink spec) (grant : ℕ → ℕ → Bool)
    (to_float : ℕ → ℕ) (fuel : ℕ) (enough : 256 + q.patience ≤ fuel) (n : Entry)
    (v : IsEntry to_float n) where
  abbrev stored_types : Option (List ℕ)
  stored_types = some (types_text to_float n v ++ 0 ∷ [])

  abbrev stored_names : Option (List ℕ)
  stored_names = some (names_text to_float n v ++ 0 ∷ [])

  -- What is left of the log where an FMT record was to be written.
  abbrev FormatWritten : ℕ → Log → WriterState C → Type 0
  FormatWritten live a s = Reached q grant live (more a (fmt_record n)) s

  abbrev FormatCut : ℕ → Log → Status → WriterState C → Type 0
  FormatCut live a status s = Partly q grant live a (fmt_record n) status s

  write_texts-Reached :
      (live : ℕ) (a : Log) (w : Writer) (e : Env C)
      → Ready q grant live a w e
      → Ends
          (λ _ s. FormatWritten live a s)
          (FormatCut live a)
          (write_texts to_float fuel n.ref.format stored_types stored_names (start q grant w e))
  unfolding write_texts write_record fmt_record
  write_texts-Reached live a w e r = rw (entry_size to_float n v) (
      write_record-Reached q grant to_float fuel enough 128 _ fmt_columns w.fmt_message_format _ _
        live a w e r.fmt (entry-Encodes to_float n v) fmt_record_fits r)

  -- A string that was asked for: it is there, in a block of its own, or NULL.
  abbrev Given : Option (List ℕ) → ℕ → Log → Option (List ℕ) → WriterState C → Type 0
  Given text live a o s =
      ((o ≡ text) × Reached q grant (suc live) a s)
      ⊎ ((o ≡ none) × Refused grant × Reached q grant live a s)

  asked-Given :
      (text : List ℕ) (k live : ℕ) (a : Log) (w : Writer) (e : Env C)
      (m : Cmd Mem (Option (List ℕ)))
      → m e.mem ≡ (
          if e.mem.grant e.mem.calls k
          then (ok (some text), spend e.mem (e.mem.live + 1))
          else (ok none, spend e.mem e.mem.live))
      → Ready q grant live a w e
      → Ends (λ o s. Given (some text) live a o s) (λ _ _. ⊥) (on_heap m (start q grant w e))
  asked-Given text k live a w e m is_m r =
      let owned : q.blocks ≤ live = omega (arith, q.owns e r.inv, r.blocks) in
      elim (Bool-cases (e.mem.grant e.mem.calls k)) [
        | inl granted ↦
            let m' = spend e.mem (e.mem.live + 1) in
            rw (is_m, granted)
              (inl (
                refl,
                record {
                  writer = w;
                  env = record e { mem = m' };
                  form = refl;
                  ready =
                      moved-Ready q grant live (suc live) a w e m' r r.grants
                        (omega (arith, r.blocks)) (omega arith);
                },
              ))
        | inr denied ↦
            let m' = spend e.mem e.mem.live in
            rw (is_m, denied)
              (inr (
                refl,
                (e.mem.calls, k, sym (ap (λ g. g e.mem.calls k) r.grants) ∙ denied),
                record {
                  writer = w;
                  env = record e { mem = m' };
                  form = refl;
                  ready = moved-Ready q grant live live a w e m' r r.grants r.blocks owned;
                },
              ))
      ]

  -- `free` of what was asked for.
  abbrev Freed : ℕ → Log → Option (List ℕ) → WriterState C → Type 0
  Freed live a o s =
      (s' : WriterState C) × (on_heap (sdlog_free o) s ≡ (ok tt, s')) × Reached q grant live a s'

  free_none-Reached :
      (live : ℕ) (a : Log) (s : WriterState C) → Reached q grant live a s → Freed live a none s
  unfolding sdlog_free
  free_none-Reached live a s r = (
    s,
    ap (λ l. (ok tt, record s { out = record s.out { mem = record s.out.mem { live = l } } }))
        (omega arith),
    r,
  )

  no_room-Partly :
      (live : ℕ) (a : Log) (bytes : List ℕ) (s : WriterState C)
      → Refused grant
      → Reached q grant live a s
      → Partly q grant live a bytes enomem s
  no_room-Partly live a bytes s refused r = record {
    code = inr (refl, refused);
    count = 0;
    reached =
        subst (λ bs. Reached q grant live (record a { bytes = bs }) s) (sym (append-nil a.bytes)) r;
  }

  -- The command behind a string that was asked for, and the release of the string.
  with_text :
      (text : List ℕ) (live : ℕ) (a : Log) (o : Option (List ℕ)) (s : WriterState C)
      (m : Cmd (WriterState C) (Unit {0}))
      → q.blocks ≤ live
      → (o ≡ none → m s ≡ (fail enomem, s))
      → (o ≡ some text
          → Reached q grant (suc live) a s
          → Ends (λ _ s'. FormatWritten (suc live) a s') (FormatCut (suc live) a) (m s))
      → Given (some text) live a o s
      → Ends
          (λ _ s'. FormatWritten live a s')
          (FormatCut live a)
          (then_clean (m s) (on_heap (sdlog_free o)))
  with_text text live a o s m owned null there (inl (is_text, r)) = rw is_text (
      Ends-then_clean (λ _ s'. FormatWritten (suc live) a s') (λ _ s'. FormatWritten live a s')
        (FormatCut (suc live) a) (FormatCut live a) (m s) (on_heap (sdlog_free (some text)))
        (there is_text r)
        (λ _ s' k. free-Reached q grant text live (more a (fmt_record n)) s' owned k)
        (λ status s' k.
          let (s'', eq, k') =
            free-Reached q grant text live (more a (take k.count (fmt_record n))) s' owned
              k.reached in
          (s'', eq, record { code = k.code; count = k.count; reached = k' })))
  with_text text live a o s m owned null there (inr (is_none, refused, r)) =
      let (s', eq, r') = free_none-Reached live a s r in
      rw (is_none, null is_none, eq) (no_room-Partly live a (fmt_record n) s' refused r')

  write_texts-none :
      (o : Option (List ℕ)) (s : WriterState C)
      → o ≡ none
      → write_texts to_float fuel n.ref.format stored_types o s ≡ (fail enomem, s)
  unfolding write_texts
  write_texts-none o s e = rw e refl

  write_with_names-none :
      (o : Option (List ℕ)) (s : WriterState C)
      → o ≡ none
      → write_with_names to_float fuel n.ref.format o s ≡ (fail enomem, s)
  unfolding write_with_names
  write_with_names-none o s e = rw e refl

  texts_step :
      (live : ℕ) (a : Log) (o : Option (List ℕ)) (s : WriterState C)
      → q.blocks ≤ live
      → Given stored_names live a o s
      → Ends
          (λ _ s'. FormatWritten live a s')
          (FormatCut live a)
          (then_clean
            (write_texts to_float fuel n.ref.format stored_types o s)
            (on_heap (sdlog_free o)))
  texts_step live a o s owned g =
      with_text (names_text to_float n v ++ 0 ∷ []) live a o s
        (write_texts to_float fuel n.ref.format stored_types o) owned (write_texts-none o s)
        (λ e r. rw (e, r.form) (write_texts-Reached (suc live) a r.writer r.env r.ready)) g

  write_with_names-Reached :
      (live : ℕ) (a : Log) (w : Writer) (e : Env C)
      → q.blocks ≤ live
      → Ready q grant live a w e
      → Ends
          (λ _ s. FormatWritten live a s)
          (FormatCut live a)
          (write_with_names to_float fuel n.ref.format stored_types (start q grant w e))
  unfolding write_with_names
  write_with_names-Reached live a w e owned r =
      Ends-and_then (λ o s. Given stored_names live a o s) (λ _ _. ⊥)
        (λ _ s. FormatWritten live a s) (FormatCut live a)
        (on_heap (message_format_get_column_names n.ref.format (codes ",")) (start q grant w e)) _
        (asked-Given (names_text to_float n v ++ 0 ∷ []) (length (names_text to_float n v) + 1) live
          a w e (message_format_get_column_names n.ref.format (codes ","))
          (entry_names to_float n v e.mem) r)
        (λ o s g. texts_step live a o s owned g) (λ status s h. absurd h)

  -- `write_format` puts the FMT record on the stream and gives its two strings back.
  pub write_format-Reached :
      (live : ℕ) (a : Log) (w : Writer) (e : Env C)
      → Ready q grant live a w e
      → Ends
          (λ _ s. FormatWritten live a s)
          (FormatCut live a)
          (write_format to_float fuel n.ref.format (start q grant w e))
  unfolding write_format
  write_format-Reached live a w e r =
      let owned : q.blocks ≤ live = omega (arith, q.owns e r.inv, r.blocks) in
      Ends-and_then (λ o s. Given stored_types live a o s) (λ _ _. ⊥)
        (λ _ s. FormatWritten live a s) (FormatCut live a)
        (on_heap (message_format_get_format_string n.ref.format) (start q grant w e)) _
        (asked-Given (types_text to_float n v ++ 0 ∷ []) (length n.cols + 1) live a w e
          (message_format_get_format_string n.ref.format) (entry_types to_float n v e.mem) r)
        (λ o s g.
          with_text (types_text to_float n v ++ 0 ∷ []) live a o s
            (write_with_names to_float fuel n.ref.format o) owned (write_with_names-none o s)
            (λ is_text k.
              rw (is_text, k.form)
                (write_with_names-Reached (suc live) a k.writer k.env (omega (arith, owned))
                  k.ready))
            g)
        (λ status s h. absurd h)
