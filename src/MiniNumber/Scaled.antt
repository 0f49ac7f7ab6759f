-- ===== src/MiniNumber/Scaled.antt =====
-- The powers of ten and the common scale of class MiniNumber (src/types/MiniNumber.cpp): pow10() and
-- alignScales().
use kiss_vm_interpreter.Prelude.{
  ℕ, zero, suc, ◌*◌, ◌<◌, ◌≡◌, refl, sym, ap, ◌∙◌, subst, false, [], ◌∷◌, if_ind, arith,
}
use kiss_vm_interpreter.Prelude.Int.{
  ℤ, pos, negsuc, ◌-ℤ◌, ◌*ℤ◌, ◌≤ℤ◌, ltb_ℤ, nat_abs, IsInt, int_of, int_of_lem,
}
use kiss_vm_interpreter.BigInt.Value.{value, little, base}
use kiss_vm_interpreter.BigInt.Integer.{integer, IsBigInt}
use kiss_vm_interpreter.BigInt.Printed.{ten_power}
use kiss_vm_interpreter.BigInt.Refinement.{StandsFor}
use kiss_vm_interpreter.BigInt.Operators.{mul-StandsFor}
use kiss_vm_interpreter.MiniNumber.{MiniNumber, pow10, max_ℤ, scaled_up, scaled_to}

one-StandsFor : StandsFor (1 ∷ []) (pos 1)
unfolding integer value little base
one-StandsFor = (refl, (omega arith, tt))

ten-StandsFor : StandsFor (10 ∷ []) (pos 10)
unfolding integer value little base
ten-StandsFor = (refl, (omega arith, tt))

times_ten : (n : ℕ) → pos n *ℤ pos 10 ≡ pos (10 * n)
unfolding ◌*ℤ◌
times_ten n = ap pos (omega arith)

-- pow10() gives the powers of ten.
pub pow10-StandsFor : (n : ℕ) → StandsFor (pow10 n) (pos (ten_power n))
unfolding pow10 ten_power
pow10-StandsFor zero = one-StandsFor
pow10-StandsFor (suc n) =
    let (e, h) = pow10-StandsFor n in
    let (t, k) = ten-StandsFor in
    let (i, out) = mul-StandsFor (pow10 n) (10 ∷ []) h k in
    (i ∙ (cc (e, t) ∙ times_ten (ten_power n)), out)

pub ten_power-pos : (n : ℕ) → 0 < ten_power n
unfolding ten_power
ten_power-pos zero = omega arith
ten_power-pos (suc n) = omega (arith, ten_power-pos n)

pub times_one : (i : ℤ) → i ≡ i *ℤ pos 1
unfolding ◌*ℤ◌
times_one (pos n) = ap pos (omega arith)
times_one (negsuc n) = ground arith

-- A number's whole number at a scale that is not below its own.
unfoldable pub at_scale : ℤ → MiniNumber → ℤ
at_scale s a = integer a.unscaled *ℤ pos (ten_power (nat_abs (s -ℤ a.scale)))

no_difference : (s t : ℤ) → t ≤ℤ s → ltb_ℤ (pos 0) (s -ℤ t) ≡ false → nat_abs (s -ℤ t) ≡ 0
unfolding ◌-ℤ◌
no_difference s t h e = ground arith

scaled_up-StandsFor :
    (s : ℤ) (a : MiniNumber)
    → IsBigInt a.unscaled
    → a.scale ≤ℤ s
    → StandsFor (scaled_up a.unscaled (s -ℤ a.scale)) (at_scale s a)
unfolding scaled_up at_scale
scaled_up-StandsFor s a h le =
    let d = nat_abs (s -ℤ a.scale) in
    if_ind (λ r. StandsFor r (integer a.unscaled *ℤ pos (ten_power d)))
      (ltb_ℤ (pos 0) (s -ℤ a.scale))
      (λ e.
        let (p, k) = pow10-StandsFor d in
        let (i, out) = mul-StandsFor a.unscaled (pow10 d) h k in
        (i ∙ ap (λ j. integer a.unscaled *ℤ j) p, out))
      (λ e.
        let z = no_difference s a.scale le e in
        let one_power : ten_power d ≡ 1 = ap ten_power z ∙ unfold ten_power in refl in
        (
          times_one (integer a.unscaled)
              ∙ ap (λ (n : ℕ). integer a.unscaled *ℤ pos n) (sym one_power),
          h,
        ))

pub scaled_to-StandsFor :
    (s : ℤ) (a : MiniNumber)
    → IsBigInt a.unscaled
    → a.scale ≤ℤ s
    → IsInt (s -ℤ a.scale)
    → StandsFor (scaled_to s a) (at_scale s a)
unfolding scaled_to
scaled_to-StandsFor s a h le i =
    subst (λ d. StandsFor (scaled_up a.unscaled d) (at_scale s a)) (sym (int_of_lem _ i))
      (scaled_up-StandsFor s a h le)

pub scaled_to-IsBigInt : (s : ℤ) (a : MiniNumber) → IsBigInt a.unscaled → IsBigInt (scaled_to s a)
unfolding scaled_to scaled_up
scaled_to-IsBigInt s a h =
    let d = int_of (s -ℤ a.scale) in
    if_ind (λ r. IsBigInt r) (ltb_ℤ (pos 0) d)
      (λ e. (mul-StandsFor a.unscaled (pow10 (nat_abs d)) h (pow10-StandsFor (nat_abs d)).1).1)
      (λ e. h)

pub left-max_ℤ : (a b : ℤ) → a ≤ℤ max_ℤ a b
left-max_ℤ a b = ground arith

pub right-max_ℤ : (a b : ℤ) → b ≤ℤ max_ℤ a b
right-max_ℤ a b = ground arith
