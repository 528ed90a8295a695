-- ===== src/Encoder/Ending.antt =====
-- core/encoder.c: the type checker foretells how every call ends.
use mathlib.Core.Path.{subst}
use libsdlog.Prelude.{
  ℕ, ◌+◌, ◌≤◌, ◌≡◌, ◌≢◌, refl, ap, sym, ◌∙◌, Bool, some, List, [], ◌∷◌, ◌++◌, length, length-append,
  le→leb, arith,
}
use libsdlog.Outcome.{Outcome, ok, fail, fault, Cmd, and_then}
use libsdlog.Memory.{Block}
use libsdlog.Model.{Column, FormatState, message_column_format_get_size}
use libsdlog.Model.AddColumn.{Holds}
use libsdlog.Model.Invariant.{built}
use libsdlog.Model.StringLaws.{column_array-built, append_to_lem}
use libsdlog.Model.Size.{total_size}
use libsdlog.Encoder.{
  Arg, int, int64, double, string, Branch, int8_field, int16_field, int32_field, int64_field,
  float_field, double_field, text_field, EncodeState, branch_of, encode_field, encode_columns,
  message_format_encode_va, message_format_encode,
}
use libsdlog.Encoder.Fields.{branch_of-size, field_bytes, length-field_bytes, encode_field_lem}
use libsdlog.Encoder.Record.{state, header}
use libsdlog.Encoder.Typing.{
  type_of, Verdict, typed, mistyped, no_array, no_type, check_demand, later, and_later, check_call,
  ending, branch_demand, demand-branch_of, known_types,
}

module _ (to_float : ℕ → ℕ) where
  -- A column either is served by the next argument, or ends the call.
  data Served (b : Branch) (args : List Arg) : Type 0 where
    served :
        (a : Arg) (rest : List Arg) (bs : List ℕ)
        → args ≡ a ∷ rest
        → field_bytes to_float b a ≡ some bs
        → check_demand (branch_demand b) args ≡ typed
        → Served b args
    stopped :
        ((buf : Block ℕ)
          → (encode_field to_float b (record { args = args; buf = buf })).0
            ≡ ending (check_demand (branch_demand b) args) tt)
        → check_demand (branch_demand b) args ≢ typed
        → Served b args

  serve : (b : Branch) (args : List Arg) → Served b args
  unfolding encode_field field_bytes type_of
  serve int8_field (int w ∷ args) = served (int w) args _ refl refl refl
  serve int16_field (int w ∷ args) = served (int w) args _ refl refl refl
  serve int32_field (int w ∷ args) = served (int w) args _ refl refl refl
  serve int64_field (int64 w ∷ args) = served (int64 w) args _ refl refl refl
  serve float_field (double d ∷ args) = served (double d) args _ refl refl refl
  serve double_field (double d ∷ args) = served (double d) args _ refl refl refl
  serve (text_field n) (string s ∷ args) = served (string s) args _ refl refl refl
  serve _ _ = stopped (λ buf. refl) (λ e. absurd (cc e))

  ends_early : (v w : Verdict) → v ≢ typed → ending {A = Unit {0}} v tt ≡ ending (and_later v w) tt
  ends_early typed w ne = absurd (ne refl)
  ends_early mistyped w ne = refl
  ends_early no_array w ne = refl
  ends_early no_type w ne = refl

  ok_is_typed : (v : Verdict) → v ≢ typed → ◌≡◌ {A = Outcome (Unit {0})} (ok tt) (ending v tt) → ⊥
  ok_is_typed typed ne h = ne refl
  ok_is_typed mistyped ne h = cc h
  ok_is_typed no_array ne h = cc h
  ok_is_typed no_type ne h = cc h

  not_typed : (v w : Verdict) → v ≢ typed → and_later v w ≢ typed
  not_typed typed w ne = absurd (ne refl)
  not_typed mistyped w ne = λ e. absurd (cc e)
  not_typed no_array w ne = λ e. absurd (cc e)
  not_typed no_type w ne = λ e. absurd (cc e)

  stops :
      (v w : Verdict) (r : Outcome (Unit {0}) × EncodeState) (k : Cmd EncodeState (Unit {0}))
      → v ≢ typed
      → r.0 ≡ ending v tt
      → (and_then r (λ _. k)).0 ≡ ending (and_later v w) tt
  stops typed w r k ne h = absurd (ne refl)
  stops v w (ok a, s) k ne h = absurd (ok_is_typed v ne h)
  stops v w (fail e, s) k ne h = h ∙ ends_early v w ne
  stops v w (fault, s) k ne h = h ∙ ends_early v w ne
  stops v w (Outcome.out_of_fuel, s) k ne h = h ∙ ends_early v w ne

  abbrev Checked : Verdict → ℕ → Outcome (Unit {0}) × EncodeState → Type 0
  Checked v n r = (r.0 ≡ ending v tt) × (v ≡ typed → length r.1.buf.items ≡ n)

  encode_columns-Checked :
      (cs : List Column) (args : List Arg) (size : ℕ) (items : List ℕ)
      → length items + total_size cs ≤ size
      → Checked
          (check_call cs args)
          (length items + total_size cs)
          (encode_columns to_float cs (state to_float args size items))
  unfolding encode_columns check_call total_size message_column_format_get_size
  encode_columns-Checked [] args size items room = (refl, λ e. omega arith)
  encode_columns-Checked (c ∷ cs) args size items room = elim (serve (branch_of c.type) args) [
    | served a rest bs is_args is_bytes is_typed ↦
        let b = branch_of c.type in
        let l = length-field_bytes to_float b a bs is_bytes in
        let n = branch_of-size c.type in
        let fits : length items + length bs ≤ size = omega (arith, l, n, room) in
        rw
          (
            demand-branch_of c.type,
            is_typed,
            is_args,
            encode_field_lem to_float b a rest (record { size = size; items = items }) bs is_bytes,
            le→leb (length items + length bs) size fits,
          )
          (let (ends, count) =
              encode_columns-Checked cs rest size (items ++ bs)
                (omega (arith, l, n, room, length-append items bs)) in
            (ends, λ e. omega (arith, count e, l, n, length-append items bs)))
    | stopped ends ne ↦
        let v = check_demand (branch_demand (branch_of c.type)) args in
        let w = check_call cs (later args) in
        rw (demand-branch_of c.type) (
          stops v w (encode_field to_float (branch_of c.type) (state to_float args size items))
              (encode_columns to_float cs) ne (ends (record { size = size; items = items })),
          λ e. absurd (not_typed v w ne e),
        )
  ]

  abbrev report : Cmd EncodeState ℕ
  report s = (ok (length s.buf.items), s)

  reported :
      (v : Verdict) (n : ℕ) (r : Outcome (Unit {0}) × EncodeState)
      → Checked v n r
      → (and_then r (λ _. report)).0 ≡ ending v n
  reported typed n (ok a, s) (h, count) = ap ok (count refl)
  reported mistyped n (Outcome.fault, s) h = refl
  reported no_array n (fail e, s) (h, count) = cc h
  reported no_type n (fail e, s) (h, count) = cc h
  reported _ n _ (h, count) = absurd (cc h)

  -- The encoder is the loop behind the header.
  behind_header :
      (id : ℕ) (type : List ℕ) (alloc : ℕ) (cols : List Column) (buf : Block ℕ) (args : List Arg)
      → 3 ≤ buf.size
      → message_format_encode to_float (built id type alloc cols) buf args
        ≡ and_then
            (encode_columns to_float cols (state to_float args buf.size (header to_float id)))
            (λ _. report)
  unfolding message_format_encode message_format_encode_va
  behind_header id type alloc cols buf args room = ground (
    arith,
    append_to_lem (record { size = buf.size; items = [] }) (header to_float id) room,
    column_array-built id type alloc cols,
  )

  -- For every valid format, every list of arguments and a buffer with room for a record, the type checker
  -- foretells how `sdlog_message_format_encode` ends. If each column finds an argument of its type, the
  -- call returns the length of a record; further arguments do no harm. Otherwise the first column that
  -- is not served decides: for an array the code is UNIMPLEMENTED, and a missing argument or one of
  -- another type is undefined behaviour.
  pub encode-check_call :
      (grant : ℕ → ℕ → Bool) (id : ℕ) (type : List ℕ) (cols : List Column) (live : ℕ)
      (s : FormatState) (buf : Block ℕ) (args : List Arg)
      → Holds grant id type cols live s
      → 3 + total_size cols ≤ buf.size
      → ((message_format_encode to_float s.format buf args).0
          ≡ ending (check_call cols args) (3 + total_size cols))
        × (check_call cols args ≢ no_type)
  encode-check_call grant id type cols live s buf args holds room = (
    subst
        (λ f.
          (message_format_encode to_float f buf args).0
          ≡ ending (check_call cols args) (3 + total_size cols))
        (sym holds.form)
        (ap (λ r. r.0) (behind_header id type holds.alloc cols buf args (omega arith))
          ∙ reported (check_call cols args) (3 + total_size cols)
              (encode_columns to_float cols (state to_float args buf.size (header to_float id)))
              (encode_columns-Checked cols args buf.size (header to_float id) room)),
    known_types cols args holds.valid,
  )
