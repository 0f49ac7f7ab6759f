-- ===== src/KissVm/Functions/Signatures.antt =====
-- SIGNEDBY, MULTISIG and the hashes of src/kissvm/functions/Functions.cpp.
use kiss_vm_interpreter.Prelude.{
  ℕ, suc, Bool, false, ◌||◌, ◌&&◌, Option, List, [], ◌∷◌, none, some, Bytes, same, if◌then◌else◌,
}
use kiss_vm_interpreter.Prelude.Int.{int_of, ℤ, pos, leb_ℤ}
use kiss_vm_interpreter.KissVm.Value.{hex, boolean, script}
use kiss_vm_interpreter.KissVm.Functions.{V, Result, with_hex, with_long, FnSignature}

-- The key among those of a signature's proofs
unfoldable pub in_proofs : Bytes → List (Bytes × Bytes) → Bool
unfolding same
in_proofs key [] = false
in_proofs key ((k, s) ∷ proofs) = same k key || in_proofs key proofs

unfoldable pub has_signed : Bytes → List FnSignature → Bool
unfolding in_proofs
has_signed key [] = false
has_signed key (s ∷ sigs) = same s.root_key key || in_proofs key s.proofs || has_signed key sigs

unfoldable pub signed_by : List FnSignature → List V → Result
unfolding has_signed
signed_by sigs (v ∷ []) = with_hex v (λ (key : Bytes). some (boolean (has_signed key sigs)))
signed_by sigs _ = none

-- MULTISIG: how many of the arguments behind the first are keys that have signed
unfoldable pub count_signed : List FnSignature → List V → ℕ
unfolding has_signed
count_signed sigs [] = 0
count_signed sigs (hex key ∷ args) =
    if has_signed key sigs then suc (count_signed sigs args) else count_signed sigs args
count_signed sigs (v ∷ args) = count_signed sigs args

unfoldable pub multi_sig : List FnSignature → List V → Result
unfolding int_of count_signed with_long
multi_sig sigs (n ∷ v ∷ args) = with_long n (λ (required : ℤ).
    some (boolean (leb_ℤ (int_of required) (pos (count_signed sigs (v ∷ args))))))
multi_sig sigs _ = none

-- CHECKSIG, over crypto::RSA::verify(), whose exceptions are false; a build without OpenSSL looks for
-- a proof of the witness with the key and the signature, and does not read the data.
unfoldable pub in_signed : Bytes → Bytes → List (Bytes × Bytes) → Bool
unfolding same
in_signed key sig [] = false
in_signed key sig ((k, s) ∷ proofs) = same k key && same s sig || in_signed key sig proofs

unfoldable pub is_witnessed : Bytes → Bytes → List FnSignature → Bool
unfolding in_signed
is_witnessed key sig [] = false
is_witnessed key sig (s ∷ sigs) = in_signed key sig s.proofs || is_witnessed key sig sigs

unfoldable pub check_sig :
    Option (Bytes → Bytes → Bytes → Bool) → List FnSignature → List V → Result
unfolding is_witnessed
check_sig (some verify) sigs (hex key ∷ hex data' ∷ hex sig ∷ []) =
    some (boolean (verify key data' sig))
check_sig none sigs (hex key ∷ hex data' ∷ hex sig ∷ []) =
    some (boolean (is_witnessed key sig sigs))
check_sig verify sigs _ = none

-- SHA2 and SHA3, over the hash
abbrev pub hashed : (Bytes → Bytes) → List V → Result
hashed h (hex d ∷ []) = some (hex (h d))
hashed h (script s ∷ []) = some (hex (h s))
hashed h _ = none

unfoldable pub sha2 : (Bytes → Bytes) → List V → Result
sha2 h args = hashed h args

unfoldable pub sha3 : (Bytes → Bytes) → List V → Result
sha3 h args = hashed h args
