-- ===== src/KissVm/Interpreter/Hex.antt =====
-- evalHexLit() of src/kissvm/Interpreter.cpp converts every hexadecimal literal of the tokenizer.
use kiss_vm_interpreter.Prelude.{
  ℕ, zero, suc, ◌+◌, ◌-◌, ◌*◌, ◌/◌, ◌%◌, ◌≡◌, refl, true, [], ◌∷◌, some, arith, length, Bytes,
  is_xdigit, Bool-cases, inl, inr, ◌==◌, ==_iff,
}
use kiss_vm_interpreter.KissVm.Tokenizer.Proper.{all, IsHexLiteral}
use kiss_vm_interpreter.KissVm.Interpreter.{nibble, pairs, hex_literal_bytes}

-- The bytes that `cs` is converted to, `m` of them.
abbrev Converts : Bytes → ℕ → Type 0
Converts cs m = (bs : Bytes) × (pairs cs ≡ some bs) × (length bs ≡ m)

pairs-Converts : (m : ℕ) (cs : Bytes) → length cs ≡ 2 * m → all is_xdigit cs ≡ true → Converts cs m
unfolding pairs all
pairs-Converts zero [] e h = ([], refl, refl)
pairs-Converts zero (c ∷ cs) e h = absurd (omega arith)
pairs-Converts (suc m) [] e h = absurd (omega arith)
pairs-Converts (suc m) (c ∷ []) e h = absurd (omega arith)
pairs-Converts (suc m) (c ∷ d ∷ cs) e h =
    let (bs, p, q) = pairs-Converts m cs (omega arith) (ground arith) in
    ((nibble c * 16 + nibble d) ∷ bs, ground (arith, p), omega arith)

with_zero : (h : Bytes) → all is_xdigit h ≡ true → all is_xdigit (b'0' ∷ h) ≡ true
unfolding all is_xdigit
with_zero h e = e

-- A literal of "0x" and hexadecimal digits is converted, to half as many bytes as it has digits,
-- rounded up.
pub hex_literal_bytes_total :
    (v : Bytes)
    → IsHexLiteral v
    → (bs : Bytes) × (hex_literal_bytes v ≡ some bs) × (2 * length bs ≡ length v - 2 + length v % 2)
unfolding hex_literal_bytes
hex_literal_bytes_total v (h, e, ne, digits) = elim (Bool-cases (length h % 2 == 0)) [
  | inl even ↦
      let parity = (==_iff (length h % 2) 0).0 even in
      let (bs, p, q) = pairs-Converts (length h / 2) h (omega (arith, parity)) digits in
      (bs, rw (e, even) p, rw e (omega (arith, parity, q)))
  | inr odd ↦
      let parity : length h % 2 ≡ 1 = ground arith in
      let (bs, p, q) =
        pairs-Converts (length h / 2 + 1) (b'0' ∷ h) (omega (arith, parity)) (with_zero h digits) in
      (bs, rw (e, odd) p, rw e (omega (arith, parity, q)))
]
