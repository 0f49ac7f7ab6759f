-- ===== src/MiniNumber/Quotients.antt =====
-- floor() of class MiniNumber (src/types/MiniNumber.cpp) reads the magnitude of a quotient as the
-- bytes of a signed number.
use kiss_vm_interpreter.Prelude.{
  ℕ, ◌*◌, ◌/◌, ◌<◌, ◌≡◌, refl, ap, ◌∙◌, false, [], ◌∷◌, Bytes, length, if_ind, arith, if◌then◌else◌,
  leb,
}
use kiss_vm_interpreter.Prelude.Int.{ℤ, pos, nat_abs, leb_ℤ, sub_ℕ}
use kiss_vm_interpreter.BigInt.Value.{value, little, base}
use kiss_vm_interpreter.BigInt.Compare.{IsMag, value-ge-base, base-pos}
use kiss_vm_interpreter.BigInt.Signed.{is_negative, from_java_bytes}
use kiss_vm_interpreter.BigInt.Integer.{integer, IsBigInt}
use kiss_vm_interpreter.BigInt.Operators.{quotient}
use kiss_vm_interpreter.BigInt.Printed.{ten_power}
use kiss_vm_interpreter.MiniNumber.{MiniNumber, abs_divmod, pow10, floor}
use kiss_vm_interpreter.MiniNumber.Scaled.{pow10-StandsFor}
use kiss_vm_interpreter.MiniNumber.Room.{HasRoom}
use kiss_vm_interpreter.MiniNumber.Arithmetic.{IsNumber, Computes, make-Computes}
use kiss_vm_interpreter.MiniNumber.Given.{abs_divmod-IsDivision, from_java_bytes-IsBigInt, pow10-ne}

-- A magnitude below 256 is one byte.
one_byte : (q : Bytes) → IsMag q → value q < 256 → q ≡ value q ∷ []
one_byte [] h lt = absurd h
one_byte (b ∷ []) h lt = unfold value little in ap (λ (n : ℕ). n ∷ []) (omega arith)
one_byte (b ∷ c ∷ bs) h lt =
    let big : base (length (c ∷ bs)) ≡ 256 * base (length bs) = unfold base in refl in
    absurd (omega (arith, value-ge-base b (c ∷ bs) h.0, base-pos (length bs), big, lt))

-- The number that a byte stands for with its sign.
abbrev pub signed_byte : ℕ → ℤ
signed_byte v = if leb 128 v then sub_ℕ v 256 else pos v

byte-integer : (v : ℕ) → integer (v ∷ []) ≡ signed_byte v
unfolding integer is_negative base value little
byte-integer v = ground arith

java-integer : (q : Bytes) (v : ℕ) → q ≡ v ∷ [] → integer (from_java_bytes q) ≡ signed_byte v
unfolding from_java_bytes
java-integer q v e = ap (λ (x : Bytes). integer (from_java_bytes x)) e ∙ byte-integer v

-- The quotient by a power of ten.
ten_quotient :
    (u : Bytes) (n : ℕ)
    → IsBigInt u
    → (value (abs_divmod u (pow10 n)).0 ≡ nat_abs (integer u) / ten_power n)
      × IsMag (abs_divmod u (pow10 n)).0
ten_quotient u n h =
    let (i, k) = pow10-StandsFor n in
    let (e, lt, f, g) = abs_divmod-IsDivision u (pow10 n) h k (pow10-ne n) in
    let (x, y) = quotient _ _ _ _ e lt in
    let d : nat_abs (integer (pow10 n)) ≡ ten_power n = ap (λ j. nat_abs j) i ∙ omega arith in
    (x ∙ ap (λ (m : ℕ). nat_abs (integer u) / m) d, f)

three_digits : 999 < ten_power 3
unfolding ten_power
three_digits = omega arith

byte-HasRoom : (v : ℕ) → v < 256 → HasRoom (signed_byte v) (pos 0)
byte-HasRoom v lt =
    let e : nat_abs (signed_byte v) < 256 = ground arith in
    (3, omega (arith, e, three_digits), omega arith)

-- floor() of a well-formed number that is not negative, has a scale above 0 and is below 256 throws
-- nothing and gives the byte of its whole part read with a sign: below 128 the whole part, and from 128 on
-- the whole part less 256.
pub floor-Computes :
    (a : MiniNumber)
    → IsNumber a
    → is_negative a.unscaled ≡ false
    → leb_ℤ a.scale (pos 0) ≡ false
    → nat_abs (integer a.unscaled) / ten_power (nat_abs a.scale) < 256
    → Computes
        (signed_byte (nat_abs (integer a.unscaled) / ten_power (nat_abs a.scale)))
        (pos 0)
        (floor a)
unfolding floor
floor-Computes a h e s lt =
    let v = nat_abs (integer a.unscaled) / ten_power (nat_abs a.scale) in
    let q = (abs_divmod a.unscaled (pow10 (nat_abs a.scale))).0 in
    let (w, mag) = ten_quotient a.unscaled (nat_abs a.scale) h.bytes in
    let byte : q ≡ v ∷ [] = one_byte q mag (omega (arith, w)) ∙ ap (λ (n : ℕ). n ∷ []) w in
    if_ind (λ r. Computes (signed_byte v) (pos 0) r) (leb_ℤ a.scale (pos 0))
      (λ z. absurd (cc (s, z)))
      (λ _.
        if_ind (λ r. Computes (signed_byte v) (pos 0) r) (is_negative a.unscaled)
          (λ z. absurd (cc (e, z)))
          (λ _.
            make-Computes (from_java_bytes q) (signed_byte v) (pos 0)
              (java-integer q v byte, from_java_bytes-IsBigInt q mag) (omega arith)
              (byte-HasRoom v lt)))
