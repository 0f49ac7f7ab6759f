-- ===== src/BigInt/SignMag.antt =====
-- normalise(), fromSignMag() and magnitude() of class BigInt (src/types/MiniNumber.cpp), by the
-- integers that the bytes stand for.
use kiss_vm_interpreter.Prelude.{
  ℕ, suc, ◌+◌, ◌-◌, ◌*◌, ◌<◌, ◌≡◌, ◌≢◌, refl, sym, ap, ◌∙◌, subst, Bool, true, false, not, ◌&&◌, [],
  ◌∷◌, Bytes, length, ◌==◌, if_ind, Bool-cases, inl, inr, arith,
}
use kiss_vm_interpreter.Prelude.Int.{pos, sub_ℕ, signed, is_neg, nat_abs}
use kiss_vm_interpreter.BigInt.Mag.{strip_leading_zeros}
use kiss_vm_interpreter.BigInt.Value.{
  little, value, base, AreBytes, value-cons, value-lt-base, value-strip,
}
use kiss_vm_interpreter.BigInt.Compare.{IsMag, base-pos, value-ge-base, strip-IsMag}
use kiss_vm_interpreter.BigInt.SearchDigit.{strip-IsMag_of_ne}
use kiss_vm_interpreter.BigInt.Signed.{
  top_bit, is_negative, normalise, twos, twos_carry, magnitude, is_zero_mag, with_carry,
  sign_positive, sign_negative, from_sign_mag,
}
use kiss_vm_interpreter.BigInt.Integer.{integer, IsBigInt, twos_lem}

-- A byte that repeats the sign in front.
zero_front : (c : ℕ) (bs : Bytes) → top_bit c ≡ false → integer (0 ∷ c ∷ bs) ≡ integer (c ∷ bs)
unfolding integer
zero_front c bs e =
    let z : value (0 ∷ c ∷ bs) ≡ value (c ∷ bs) = omega (arith, value-cons 0 (c ∷ bs)) in
    rw e (ap pos z)

ones_front :
    (c : ℕ) (bs : Bytes)
    → AreBytes (c ∷ bs)
    → top_bit c ≡ true
    → integer (255 ∷ c ∷ bs) ≡ integer (c ∷ bs)
unfolding integer
ones_front c bs h e =
    let z : value (255 ∷ c ∷ bs) ≡ 255 * base (length (c ∷ bs)) + value (c ∷ bs) =
      value-cons 255 (c ∷ bs) in
    let b : base (length (255 ∷ c ∷ bs)) ≡ 256 * base (length (c ∷ bs)) = unfold base in refl in
    let lt = value-lt-base (c ∷ bs) h in rw e (ground (arith, z, b, lt))

-- normalise() keeps the integer.
pub normalise-integer :
    (bs : Bytes) → IsBigInt bs → (integer (normalise bs) ≡ integer bs) × IsBigInt (normalise bs)
unfolding normalise
normalise-integer [] h = absurd h
normalise-integer (b ∷ []) h = (refl, h)
normalise-integer (b ∷ c ∷ bs) h =
    if_ind (λ r. (integer r ≡ integer (b ∷ c ∷ bs)) × IsBigInt r) ((b == 0) && not (top_bit c))
      (λ e.
        let z : b ≡ 0 = ground arith in
        let (n, k) = normalise-integer (c ∷ bs) h.1 in
        (
          n ∙ (sym (zero_front c bs (ground arith)) ∙ ap (λ (x : ℕ). integer (x ∷ c ∷ bs)) (sym z)),
          k,
        ))
      (λ e.
        if_ind (λ r. (integer r ≡ integer (b ∷ c ∷ bs)) × IsBigInt r) ((b == 255) && top_bit c)
          (λ e.
            let z : b ≡ 255 = ground arith in
            let (n, k) = normalise-integer (c ∷ bs) h.1 in
            (
              n
                  ∙ (sym (ones_front c bs h.1 (ground arith))
                      ∙ ap (λ (x : ℕ). integer (x ∷ c ∷ bs)) (sym z)),
              k,
            ))
          (λ e. (refl, h)))

pub value-zero_mag : (m : Bytes) → is_zero_mag m ≡ true → value m ≡ 0
unfolding value little
value-zero_mag [] e = refl
value-zero_mag (b ∷ []) e = ground arith
value-zero_mag (b ∷ c ∷ bs) e = cc

sign_positive-integer :
    (m : Bytes)
    → AreBytes m
    → is_zero_mag m ≡ false
    → (integer (sign_positive m) ≡ pos (value m)) × IsBigInt (sign_positive m)
sign_positive-integer [] h e = cc
sign_positive-integer (b ∷ bs) h e =
    if_ind (λ r. (integer r ≡ pos (value (b ∷ bs))) × IsBigInt r) (top_bit b)
      (λ t. (unfold integer in ap pos (omega (arith, value-cons 0 (b ∷ bs))), (omega arith, h)))
      (λ t. (unfold integer in rw t refl, h))

sub_below : (x v b : ℕ) → x + v ≡ b → 0 < v → sub_ℕ x b ≡ sub_ℕ 0 v
sub_below x v b e h = ground arith

sign_negative-integer :
    (r : Bytes) (v : ℕ)
    → AreBytes r
    → r ≢ []
    → 0 < v
    → value r + v ≡ base (length r)
    → (integer (sign_negative r) ≡ sub_ℕ 0 v) × IsBigInt (sign_negative r)
sign_negative-integer [] v h n p e = absurd (n refl)
sign_negative-integer (b ∷ bs) v h n p e =
    if_ind (λ r. (integer r ≡ sub_ℕ 0 v) × IsBigInt r) (top_bit b)
      (λ t. (unfold integer in rw t (sub_below (value (b ∷ bs)) v (base (length (b ∷ bs))) e p), h))
      (λ t.
        let z = value-cons 255 (b ∷ bs) in
        let q : base (length (255 ∷ b ∷ bs)) ≡ 256 * base (length (b ∷ bs)) = unfold base in refl in
        (
          unfold integer in
              sub_below (value (255 ∷ b ∷ bs)) v (base (length (255 ∷ b ∷ bs)))
                (omega (arith, z, q, e)) p,
          (omega arith, h),
        ))

twos_ne : (r : Bytes) (n : ℕ) → length r ≡ suc n → r ≢ []
twos_ne [] n l = absurd (omega arith)
twos_ne (c ∷ r) n l = cc

twos_length_ne : (m r : Bytes) → is_zero_mag m ≡ false → length r ≡ length m → r ≢ []
twos_length_ne [] r e l = cc
twos_length_ne (b ∷ m) [] e l = absurd (omega arith)
twos_length_ne (b ∷ m) (c ∷ r) e l = cc

with_carry-zero : (c : ℕ) (r : Bytes) → c ≡ 0 → with_carry c r ≡ r
with_carry-zero c r e = ground arith

-- fromSignMag() makes the integer with that sign and that magnitude, where zero has no sign.
pub from_sign_mag-integer :
    (negative : Bool) (m : Bytes)
    → AreBytes m
    → (negative ≡ true → 0 < value m)
    → (integer (from_sign_mag negative m) ≡ signed negative (value m))
      × IsBigInt (from_sign_mag negative m)
unfolding from_sign_mag
from_sign_mag-integer true m h k =
    let (e, c, bytes, len) = twos_lem m h (k refl) in
    if_ind (λ r. (integer r ≡ signed true (value m)) × IsBigInt r) (is_zero_mag m)
      (λ z. absurd (omega (arith, value-zero_mag m z, k refl)))
      (λ z.
        let w = with_carry-zero (twos_carry m) (twos m) c in
        let (i, big) =
          sign_negative-integer (twos m) (value m) bytes (twos_length_ne m (twos m) z len) (k refl)
            (e ∙ ap base (sym len)) in
        let (n, out) = normalise-integer (sign_negative (twos m)) big in
        subst
          (λ (r : Bytes).
            (integer (normalise (sign_negative r)) ≡ signed true (value m))
            × IsBigInt (normalise (sign_negative r)))
          (sym w) (n ∙ i, out))
from_sign_mag-integer false m h k =
    if_ind (λ r. (integer r ≡ signed false (value m)) × IsBigInt r) (is_zero_mag m)
      (λ z. (
        unfold integer value little in ap pos (sym (unfold value little in value-zero_mag m z)),
        (omega arith, tt),
      ))
      (λ z.
        let (i, big) = sign_positive-integer m h z in
        let (n, out) = normalise-integer (sign_positive m) big in (n ∙ i, out))

sub_parts : (v b : ℕ) → v < b → (b - v ≡ nat_abs (sub_ℕ v b)) × (true ≡ is_neg (sub_ℕ v b))
sub_parts v b h = ground arith

magnitude-negative :
    (b : ℕ) (bs : Bytes)
    → AreBytes (b ∷ bs)
    → top_bit b ≡ true
    → (value (strip_leading_zeros (twos (b ∷ bs))) ≡ base (length (b ∷ bs)) - value (b ∷ bs))
      × IsMag (strip_leading_zeros (twos (b ∷ bs)))
magnitude-negative b bs h e =
    let top = value-ge-base b bs (λ z. ground arith) in
    let (n, c, bytes, len) = twos_lem (b ∷ bs) h (omega (arith, top, base-pos (length bs))) in
    (
      omega (arith, value-strip (twos (b ∷ bs)), n),
      strip-IsMag_of_ne (twos (b ∷ bs)) (twos_ne (twos (b ∷ bs)) (length bs) len) bytes,
    )

-- magnitude() and isNegative() take an integer apart into its absolute value and its sign.
pub magnitude-integer :
    (bs : Bytes)
    → IsBigInt bs
    → (value (magnitude bs) ≡ nat_abs (integer bs))
      × (is_negative bs ≡ is_neg (integer bs))
      × IsMag (magnitude bs)
magnitude-integer [] h = absurd h
magnitude-integer (b ∷ bs) h = elim (Bool-cases (top_bit b)) [
  | inl e ↦
      let (n, mag) = magnitude-negative b bs h e in
      let (m, t) = sub_parts (value (b ∷ bs)) (base (length (b ∷ bs))) (value-lt-base (b ∷ bs) h) in
      unfold magnitude is_negative integer in rw e (n ∙ m, t, mag)
  | inr e ↦
      unfold magnitude is_negative integer in
      rw e (value-strip (b ∷ bs) ∙ omega arith, refl, strip-IsMag b bs h)
]
