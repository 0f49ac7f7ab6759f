-- ===== src/BigInt/Integer.antt =====
-- The integer that the bytes of a BigInt (src/types/MiniNumber.cpp) stand for in two's complement,
-- and what magnitude() and fromSignMag() make of it.
use kiss_vm_interpreter.Prelude.{
  ℕ, zero, suc, ◌+◌, ◌*◌, ◌/◌, ◌≤◌, ◌<◌, ◌≡◌, refl, ap, ◌∙◌, [], ◌∷◌, Bytes, length, ◌==◌,
  if◌then◌else◌, Bool-cases, inl, inr, arith, reverse,
}
use kiss_vm_interpreter.Prelude.Int.{ℤ, pos, sub_ℕ}
use kiss_vm_interpreter.BigInt.Value.{
  little, value, base, AreBytes, AreBytes-reverse, length-reverse,
}
use kiss_vm_interpreter.BigInt.Sum.{value-reverse}
use kiss_vm_interpreter.BigInt.Signed.{
  is_negative, inverted, increment, carry_out, twos, twos_carry,
}

-- Two's complement.
unfoldable pub integer : Bytes → ℤ
unfolding is_negative
integer bs = if is_negative bs then sub_ℕ (value bs) (base (length bs)) else pos (value bs)

-- The bytes of a BigInt: at least one.
abbrev pub IsBigInt : Bytes → Type 0
IsBigInt [] = ⊥
IsBigInt (b ∷ bs) = AreBytes (b ∷ bs)

pub IsBigInt-AreBytes : (bs : Bytes) → IsBigInt bs → AreBytes bs
IsBigInt-AreBytes [] h = absurd h
IsBigInt-AreBytes (b ∷ bs) h = h

inverted-little :
    (bs : Bytes)
    → AreBytes bs
    → (little (inverted bs) + little bs + 1 ≡ base (length bs))
      × AreBytes (inverted bs)
      × (length (inverted bs) ≡ length bs)
unfolding inverted little base
inverted-little [] h = (refl, tt, refl)
inverted-little (b ∷ bs) h =
    let (e, k, l) = inverted-little bs h.1 in (omega (arith, e), (omega arith, k), omega (arith, l))

carry_out-zero : (bs : Bytes) → AreBytes bs → carry_out 0 bs ≡ 0
unfolding carry_out
carry_out-zero [] h = refl
carry_out-zero (b ∷ bs) h =
    let z : (b + 0) / 256 ≡ 0 = omega arith in
    ap (λ (c : ℕ). carry_out c bs) z ∙ carry_out-zero bs h.1

increment-little :
    (carry : ℕ) (bs : Bytes)
    → AreBytes bs
    → carry ≤ 1
    → (little (increment carry bs) + carry_out carry bs * base (length bs) ≡ little bs + carry)
      × (carry_out carry bs ≤ 1)
      × AreBytes (increment carry bs)
      × (length (increment carry bs) ≡ length bs)
unfolding increment carry_out little base
increment-little carry [] h c = (omega arith, c, tt, refl)
increment-little carry (b ∷ bs) h c = elim (Bool-cases (carry == 0)) [
  | inl e ↦
      let z : carry ≡ 0 = ground arith in
      let (n, k, l, m) = increment-little ((b + carry) / 256) bs h.1 (omega arith) in
      let q : (b + carry) / 256 ≡ 0 = omega arith in
      let o : carry_out ((b + carry) / 256) bs ≡ 0 =
        ap (λ (c : ℕ). carry_out c bs) q ∙ carry_out-zero bs h.1 in
      rw e (grind (arith, o, z), k, h, refl)
  | inr e ↦
      let (n, k, l, m) = increment-little ((b + carry) / 256) bs h.1 (omega arith) in
      rw e (grind (arith, n), k, (omega arith, l), omega (arith, m))
]

no_carry : (c b x l : ℕ) → x + c * b + l ≡ b → 0 < l → c ≡ 0
no_carry zero b x l e h = refl
no_carry (suc c) b x l e h = absurd (grind arith)

-- Negating a number of n bytes that is not zero gives what is left to 256 ^ n, without a carry.
pub twos_lem :
    (m : Bytes)
    → AreBytes m
    → 0 < value m
    → (value (twos m) + value m ≡ base (length m))
      × (twos_carry m ≡ 0)
      × AreBytes (twos m)
      × (length (twos m) ≡ length m)
unfolding twos twos_carry
twos_lem m h pos_m =
    let (i, i_bytes, i_len) = inverted-little (reverse m) (AreBytes-reverse m h) in
    let (n, k, bytes, len) = increment-little 1 (inverted (reverse m)) i_bytes (omega arith) in
    let r = increment 1 (inverted (reverse m)) in
    let at : little (reverse m) ≡ value m = unfold value in refl in
    let b : base (length (inverted (reverse m))) ≡ base (length m) =
      ap base (i_len ∙ length-reverse m) in
    let b' : base (length (reverse m)) ≡ base (length m) = ap base (length-reverse m) in
    let c =
      no_carry (carry_out 1 (inverted (reverse m))) (base (length m)) (little r) (value m)
        (grind (arith, i, n, b, b', at)) pos_m in
    (
      grind (arith, value-reverse r, i, n, b, b', at, c),
      c,
      AreBytes-reverse r bytes,
      omega (arith, length-reverse r, len, i_len, length-reverse m),
    )
