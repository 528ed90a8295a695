-- ===== src/Encoder/Typing.antt =====
-- Which arguments the encoder of core/encoder.c accepts: a type checker for calls.
use libsdlog.Prelude.{
  ℕ, ◌≡◌, ◌≢◌, refl, Bool, true, false, List, [], ◌∷◌, arith, if◌then◌else◌, All, codes,
}
use libsdlog.Outcome.{Outcome, ok, fail, fault, einval, unimplemented}
use libsdlog.Model.{Column, is_one_of, get_size_of_column_type}
use libsdlog.Model.Invariant.{IsValidColumn}
use libsdlog.Encoder.{
  Arg, int, int64, double, string, Branch, int8_field, int16_field, int32_field, int64_field,
  float_field, double_field, text_field, array_field, unknown_field, branch_of,
}

-- The types of arguments after the default promotions.
pub data ArgType : Type 0 where
  an_int an_int64 a_double a_string : ArgType

unfoldable pub type_of : Arg → ArgType
type_of (int w) = an_int
type_of (int64 w) = an_int64
type_of (double d) = a_double
type_of (string s) = a_string

abbrev pub same_type : ArgType → ArgType → Bool
same_type an_int an_int = true
same_type an_int64 an_int64 = true
same_type a_double a_double = true
same_type a_string a_string = true
same_type _ _ = false

-- What a column asks for.
pub data Demand : Type 0 where
  an_arg : ArgType → Demand
  an_array nothing_known : Demand

unfoldable pub demand : (type : ℕ) → Demand
demand type =
    if is_one_of type (codes "bBMcChHeELiI")
    then an_arg an_int
    else if is_one_of type (codes "qQ")
    then an_arg an_int64
    else if is_one_of type (codes "fd")
    then an_arg a_double
    else if is_one_of type (codes "nNZ")
    then an_arg a_string
    else if is_one_of type (codes "a")
    then an_array
    else nothing_known

-- How a call ends.
pub data Verdict : Type 0 where
  typed mistyped no_array no_type : Verdict

abbrev pub check_arg : ArgType → List Arg → Verdict
check_arg t [] = mistyped
check_arg t (a ∷ args) = if same_type t (type_of a) then typed else mistyped

abbrev pub check_demand : Demand → List Arg → Verdict
check_demand (an_arg t) args = check_arg t args
check_demand an_array args = no_array
check_demand nothing_known args = no_type

abbrev pub later : List Arg → List Arg
later [] = []
later (a ∷ args) = args

abbrev pub and_later : Verdict → Verdict → Verdict
and_later typed v = v
and_later mistyped v = mistyped
and_later no_array v = no_array
and_later no_type v = no_type

-- Each column is checked against the next argument; the first column that is not served decides.
unfoldable pub check_call : List Column → List Arg → Verdict
unfolding demand
check_call [] args = typed
check_call (c ∷ cs) args =
    and_later (check_demand (demand c.type) args) (check_call cs (later args))

-- `va_arg` of a missing or another argument is undefined behaviour.
abbrev pub ending : {A : Type 0} → Verdict → A → Outcome A
ending typed a = ok a
ending mistyped a = fault
ending no_array a = fail unimplemented
ending no_type a = fail einval

abbrev pub branch_demand : Branch → Demand
branch_demand int8_field = an_arg an_int
branch_demand int16_field = an_arg an_int
branch_demand int32_field = an_arg an_int
branch_demand int64_field = an_arg an_int64
branch_demand float_field = an_arg a_double
branch_demand double_field = an_arg a_double
branch_demand (text_field n) = an_arg a_string
branch_demand array_field = an_array
branch_demand unknown_field = nothing_known

pub demand-branch_of : (type : ℕ) → demand type ≡ branch_demand (branch_of type)
unfolding demand branch_of
demand-branch_of type = ground arith

known_demand : (type : ℕ) → get_size_of_column_type type ≢ 0 → demand type ≢ nothing_known
unfolding get_size_of_column_type demand
known_demand type h e = ground arith

check_demand-ne : (d : Demand) (args : List Arg) → d ≢ nothing_known → check_demand d args ≢ no_type
check_demand-ne (an_arg t) [] ne = λ e. absurd (cc e)
check_demand-ne (an_arg t) (a ∷ args) ne = λ e. ground arith
check_demand-ne an_array args ne = λ e. absurd (cc e)
check_demand-ne nothing_known args ne = absurd (ne refl)

and_later-ne : (v w : Verdict) → v ≢ no_type → w ≢ no_type → and_later v w ≢ no_type
and_later-ne typed w h k = k
and_later-ne mistyped w h k = h
and_later-ne no_array w h k = h
and_later-ne no_type w h k = h

-- No column of a valid format has an unknown type.
pub known_types :
    (cols : List Column) (args : List Arg) → All IsValidColumn cols → check_call cols args ≢ no_type
unfolding check_call
known_types [] args v = λ e. absurd (cc e)
known_types (c ∷ cs) args v =
    and_later-ne (check_demand (demand c.type) args) (check_call cs (later args))
      (check_demand-ne (demand c.type) args (known_demand c.type v.0.0))
      (known_types cs (later args) v.1)
