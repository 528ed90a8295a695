-- ===== src/Outcome.antt =====
-- How a call of the library ends, and the commands that the functions of the other modules are:
-- include/sdlog/error.h with its macros, and core/error.c.
pub mod Ends
pub mod Laws
use libsdlog.Prelude.{ℕ, Bool, true, false, Option, none, some, List, [], ◌∷◌, codes, get_elem?}

-- `sdlog_error_t`
pub data Status : Type 0 where
  success failure enomem einval elimit eread ewrite eio unimplemented eof : Status

-- The number of the enumerator.
unfoldable pub code_of : Status → ℕ
code_of success = 0
code_of failure = 1
code_of enomem = 2
code_of einval = 3
code_of elimit = 4
code_of eread = 5
code_of ewrite = 6
code_of eio = 7
code_of unimplemented = 8
code_of eof = 9

abbrev pub error_messages : List (List ℕ)
error_messages =
    codes "No error"
    ∷ codes "Unspecified failure"
    ∷ codes "Not enough memory"
    ∷ codes "Invalid value"
    ∷ codes "Limit exceeded"
    ∷ codes "Read error"
    ∷ codes "Write error"
    ∷ codes "Generic I/O error"
    ∷ codes "Unimplemented function call"
    ∷ codes "End of file"
    ∷ []

-- An `int`: `negsuc n` is -(n + 1).
pub data ℤ : Type 0 where
  pos : ℕ → ℤ
  negsuc : ℕ → ℤ

-- `none` would be a read behind the table.
unfoldable pub error_to_string : ℤ → Option (List ℕ)
error_to_string (pos code) = elim (get_elem? error_messages code) [
  | some text ↦ some text
  | none ↦ get_elem? error_messages (code_of failure)
]
error_to_string (negsuc n) = get_elem? error_messages (code_of failure)

-- How a call ends. `ok` stands for SDLOG_SUCCESS with the values of the output arguments, `fail` for
-- any other return code. `fault` is undefined behaviour or a failed assertion, and `out_of_fuel` a
-- loop that is still running after the rounds that it was given.
pub data Outcome (A : Type 0) : Type 0 where
  ok : A → Outcome A
  fail : Status → Outcome A
  fault : Outcome A
  out_of_fuel : Outcome A

-- A function that changes a state `S`. The state is there after every outcome.
abbrev pub Cmd : Type 0 → Type 0 → Type 0
Cmd S A = S → Outcome A × S

module _ {S A : Type 0} where
  abbrev pub pure : A → Cmd S A
  pure a s = (ok a, s)

  abbrev pub throw : Status → Cmd S A
  throw e s = (fail e, s)

  abbrev pub crash : Cmd S A
  crash s = (fault, s)

  abbrev pub spin : Cmd S A
  spin s = (out_of_fuel, s)

  -- A value that is missing only where the code would read out of bounds.
  abbrev pub deref : Option A → Cmd S A
  deref none = crash
  deref (some a) = pure a

module _ {S A B : Type 0} where
  abbrev pub and_then : Outcome A × S → (A → Cmd S B) → Outcome B × S
  and_then (ok a, s) k = k a s
  and_then (fail e, s) k = (fail e, s)
  and_then (fault, s) k = (fault, s)
  and_then (out_of_fuel, s) k = (out_of_fuel, s)

  -- SDLOG_CHECK: an error code is returned at once.
  infixl 5 ◌>>=◌ ◌>>◌
  abbrev pub ◌>>=◌ : Cmd S A → (A → Cmd S B) → Cmd S B
  ◌>>=◌ m k s = and_then (m s) k

  abbrev pub ◌>>◌ : Cmd S A → Cmd S B → Cmd S B
  m >> k = m >>= λ _. k

module _ {S A : Type 0} where
  abbrev pub then_clean : Outcome A × S → Cmd S (Unit {0}) → Outcome A × S
  then_clean (ok a, s) clean = and_then (clean s) (λ _. pure a)
  then_clean (fail e, s) clean = and_then (clean s) (λ _. throw e)
  then_clean (fault, s) clean = (fault, s)
  then_clean (out_of_fuel, s) clean = (out_of_fuel, s)

  -- `goto cleanup`: the code behind the label runs after success and after an error.
  abbrev pub finally : Cmd S A → Cmd S (Unit {0}) → Cmd S A
  finally m clean s = then_clean (m s) clean

module _ {S : Type 0} where
  -- SDLOG_CHECK_OOM of a pointer that is not NULL exactly if the flag is set.
  abbrev pub check_oom : Bool → Cmd S (Unit {0})
  check_oom true = pure tt
  check_oom false = throw enomem

  -- SDLOG_CHECK_OOM_NULL of such a pointer, in front of the rest of a function that returns a pointer.
  abbrev pub check_oom_null : {A : Type 0} → Bool → Cmd S (Option A) → Cmd S (Option A)
  check_oom_null true rest = rest
  check_oom_null false rest = pure none

  abbrev pub assert : Bool → Cmd S (Unit {0})
  assert true = pure tt
  assert false = crash

  -- SDLOG_CHECK of a return code.
  abbrev pub check : Status → Cmd S (Unit {0})
  check success = pure tt
  check failure = throw failure
  check enomem = throw enomem
  check einval = throw einval
  check elimit = throw elimit
  check eread = throw eread
  check ewrite = throw ewrite
  check eio = throw eio
  check unimplemented = throw unimplemented
  check eof = throw eof

-- Total correctness: the command ends without a fault and with fuel left, `Q` holds of what it
-- returns and `E` of the error that it reports.
module _ {S A : Type 0} where
  abbrev pub Ends : (A → S → Type 0) → (Status → S → Type 0) → Outcome A × S → Type 0
  Ends Q E (ok a, s) = Q a s
  Ends Q E (fail e, s) = E e s
  Ends Q E (fault, s) = ⊥
  Ends Q E (out_of_fuel, s) = ⊥
