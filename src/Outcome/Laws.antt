-- ===== src/Outcome/Laws.antt =====
-- The messages of core/error.c.
use libsdlog.Prelude.{
  ℕ, ◌≡◌, refl, ap, ◌<◌, ◌≤◌, zero, suc, none, some, List, ◌∷◌, [], codes, get_elem?, arith, length,
}
use libsdlog.Outcome.{
  Status, success, failure, enomem, einval, elimit, eread, ewrite, eio, unimplemented, eof, code_of,
  error_messages, pos, negsuc, error_to_string,
}

beyond : {A : Type 0} (n : ℕ) (xs : List A) → length xs ≤ n → get_elem? xs n ≡ none
beyond n [] h = refl
beyond zero (x ∷ xs) h = absurd (omega arith)
beyond (suc n) (x ∷ xs) h = beyond n xs (omega arith)

-- What the codes of error.h mean, one by one.
pub meaning : Status → List ℕ
meaning success = codes "No error"
meaning failure = codes "Unspecified failure"
meaning enomem = codes "Not enough memory"
meaning einval = codes "Invalid value"
meaning elimit = codes "Limit exceeded"
meaning eread = codes "Read error"
meaning ewrite = codes "Write error"
meaning eio = codes "Generic I/O error"
meaning unimplemented = codes "Unimplemented function call"
meaning eof = codes "End of file"

-- The enumerators in their order.
abbrev enumerators : List Status
enumerators =
    success ∷ failure ∷ enomem ∷ einval ∷ elimit ∷ eread ∷ ewrite ∷ eio ∷ unimplemented ∷ eof ∷ []

listed : (e : Status) → get_elem? enumerators (code_of e) ≡ some e
unfolding code_of
listed success = refl
listed _ = refl

distinct : (e e' : Status) → code_of e ≡ code_of e' → e ≡ e'
distinct e e' h = cc (listed e, listed e', ap (get_elem? enumerators) h)

numbered : (n : ℕ) → n < length error_messages → (e : Status) × (code_of e ≡ n)
unfolding code_of
numbered zero h = (success, refl)
numbered (suc zero) h = (failure, refl)
numbered (suc (suc zero)) h = (enomem, refl)
numbered (suc (suc (suc zero))) h = (einval, refl)
numbered (suc (suc (suc (suc zero)))) h = (elimit, refl)
numbered (suc (suc (suc (suc (suc zero))))) h = (eread, refl)
numbered (suc (suc (suc (suc (suc (suc zero)))))) h = (ewrite, refl)
numbered (suc (suc (suc (suc (suc (suc (suc zero))))))) h = (eio, refl)
numbered (suc (suc (suc (suc (suc (suc (suc (suc zero)))))))) h = (unimplemented, refl)
numbered (suc (suc (suc (suc (suc (suc (suc (suc (suc zero))))))))) h = (eof, refl)
numbered (suc (suc (suc (suc (suc (suc (suc (suc (suc (suc n)))))))))) h = absurd (omega arith)

means : (e : Status) → error_to_string (pos (code_of e)) ≡ some (meaning e)
unfolding error_to_string code_of meaning
means success = refl
means _ = refl

-- Different error codes have different numbers, and every number below the length of the table of
-- messages is that of a code. The message of a code says what the code means; any other number,
-- negative or too large, is given the message of SDLOG_FAILURE.
pub error_to_string_lem :
    ((e e' : Status) → code_of e ≡ code_of e' → e ≡ e')
    × ((n : ℕ) → n < length error_messages → (e : Status) × (code_of e ≡ n))
    × ((e : Status) → error_to_string (pos (code_of e)) ≡ some (meaning e))
    × ((n : ℕ) → length error_messages ≤ n → error_to_string (pos n) ≡ some (meaning failure))
    × ((n : ℕ) → error_to_string (negsuc n) ≡ some (meaning failure))
unfolding error_to_string code_of meaning
error_to_string_lem =
    (distinct, numbered, means, (λ n h. ground (arith, beyond n error_messages h)), (λ n. refl))
