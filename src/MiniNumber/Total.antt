-- ===== src/MiniNumber/Total.antt =====
-- Which operations of class MiniNumber (src/types/MiniNumber.cpp) throw, and what they leave.
use kiss_vm_interpreter.Prelude.{
  ◌≡◌, ◌≢◌, ◌↔◌, ◌⊎◌, inl, inr, refl, sym, ap, ◌∙◌, Bool, Bool-cases, not, ◌&&◌, true, false, [],
  ◌∷◌, Bytes, Option, none, some, if_ind, arith, if◌then◌else◌,
}
use kiss_vm_interpreter.Prelude.Int.{pos, leb_ℤ, nat_abs}
use kiss_vm_interpreter.BigInt.Signed
use kiss_vm_interpreter.BigInt.Signed.{is_zero, is_negative, magnitude, neg, from_java_bytes}
use kiss_vm_interpreter.BigInt.Integer.{integer, IsBigInt}
use kiss_vm_interpreter.BigInt.SignMag.{magnitude-integer}
use kiss_vm_interpreter.BigInt.Refinement.{add-StandsFor}
use kiss_vm_interpreter.BigInt.Operators.{neg-StandsFor, sub-StandsFor, mul-StandsFor}
use kiss_vm_interpreter.BigInt.Signs.{magnitude-pos}
use kiss_vm_interpreter.MiniNumber.{
  MiniNumber, max_digits, abs_divmod, pow10, quotient_signed, add, sub, mult, div, floor, ceil, abs,
  has_rem,
}
use kiss_vm_interpreter.MiniNumber.Scaled.{pow10-StandsFor, scaled_to-IsBigInt}
use kiss_vm_interpreter.MiniNumber.Arithmetic.{IsNumber}
use kiss_vm_interpreter.MiniNumber.Given.{
  absolute, abs_none, Gives, if-IsBigInt, abs_quotient-IsBigInt, ten_quotient-IsBigInt, make-Gives,
}

add-Gives : (a o : MiniNumber) → IsNumber a → IsNumber o → Gives (add a o)
unfolding add
add-Gives a o h k =
    make-Gives _ _
      (add-StandsFor _ _ (scaled_to-IsBigInt _ a h.bytes) (scaled_to-IsBigInt _ o k.bytes)).1

sub-Gives : (a o : MiniNumber) → IsNumber a → IsNumber o → Gives (sub a o)
unfolding sub
sub-Gives a o h k =
    make-Gives _ _
      (sub-StandsFor _ _ (scaled_to-IsBigInt _ a h.bytes) (scaled_to-IsBigInt _ o k.bytes)).1

mult-Gives : (a o : MiniNumber) → IsNumber a → IsNumber o → Gives (mult a o)
unfolding mult
mult-Gives a o h k = make-Gives _ _ (mul-StandsFor a.unscaled o.unscaled h.bytes k.bytes).1

abs-Gives : (a : MiniNumber) → IsNumber a → Gives (abs a)
unfolding abs
abs-Gives a h =
    if_ind (λ r. Gives r) (is_negative a.unscaled)
      (λ e. make-Gives _ _ (neg-StandsFor a.unscaled h.bytes).1) (λ e. h)

one-IsBigInt : IsBigInt (1 ∷ [])
one-IsBigInt = (omega arith, tt)

plus_one-IsBigInt :
    (c : Bool) (q : Bytes) → IsBigInt q → IsBigInt (if c then Signed.add q (1 ∷ []) else q)
plus_one-IsBigInt c q h =
    if_ind (λ w. IsBigInt w) c (λ e. (add-StandsFor q (1 ∷ []) h one-IsBigInt).1) (λ e. h)

floor-Gives : (a : MiniNumber) → IsNumber a → Gives (floor a)
unfolding floor
floor-Gives a h =
    let d = abs_divmod a.unscaled (pow10 (nat_abs a.scale)) in
    let w =
      if has_rem d.1 then Signed.add (from_java_bytes d.0) (1 ∷ []) else from_java_bytes d.0 in
    let q = ten_quotient-IsBigInt a.unscaled (nat_abs a.scale) h.bytes in
    if_ind (λ r. Gives r) (leb_ℤ a.scale (pos 0)) (λ e. h)
      (λ e.
        if_ind (λ r. Gives r) (is_negative a.unscaled)
          (λ e.
            make-Gives (neg w) (pos 0)
              (neg-StandsFor w (plus_one-IsBigInt (has_rem d.1) (from_java_bytes d.0) q)).1)
          (λ e. make-Gives (from_java_bytes d.0) (pos 0) q))

ceil-Gives : (a : MiniNumber) → IsNumber a → Gives (ceil a)
unfolding ceil
ceil-Gives a h =
    let d = abs_divmod a.unscaled (pow10 (nat_abs a.scale)) in
    let w =
      if has_rem d.1 then Signed.add (from_java_bytes d.0) (1 ∷ []) else from_java_bytes d.0 in
    let q = ten_quotient-IsBigInt a.unscaled (nat_abs a.scale) h.bytes in
    if_ind (λ r. Gives r) (leb_ℤ a.scale (pos 0)) (λ e. h)
      (λ e.
        if_ind (λ r. Gives r) (is_negative a.unscaled)
          (λ e.
            make-Gives (neg (from_java_bytes d.0)) (pos 0)
              (neg-StandsFor (from_java_bytes d.0) q).1)
          (λ e. make-Gives w (pos 0) (plus_one-IsBigInt (has_rem d.1) (from_java_bytes d.0) q)))

-- Of two well-formed numbers, add(), sub(), mult(), abs(), floor() and ceil() throw nothing and leave
-- well-formed numbers.
pub arithmetic-IsNumber :
    (a o : MiniNumber)
    → IsNumber a
    → IsNumber o
    → Gives (add a o)
      × Gives (sub a o)
      × Gives (mult a o)
      × Gives (abs a)
      × Gives (floor a)
      × Gives (ceil a)
arithmetic-IsNumber a o h k = (
  add-Gives a o h k,
  sub-Gives a o h k,
  mult-Gives a o h k,
  abs-Gives a h,
  floor-Gives a h,
  ceil-Gives a h,
)

-- A divisor that isZero() does not tell.
not_zero : (u : Bytes) → IsBigInt u → is_zero u ≡ false → integer u ≢ pos 0
not_zero u h e z =
    let m = magnitude-integer u h in
    let v = magnitude-pos u h e in absurd (omega (arith, m.0, v, ap (λ i. nat_abs i) z))

quotient_signed-IsBigInt : (c : Bool) (q : Bytes) → IsBigInt q → IsBigInt (quotient_signed c q)
quotient_signed-IsBigInt c q h = if-IsBigInt (c && not (is_zero q)) q h

div-Gives :
    (a o : MiniNumber) → IsNumber a → IsNumber o → is_zero o.unscaled ≡ false → Gives (div a o)
unfolding div
div-Gives a o h k e =
    let u = Signed.mul a.unscaled (pow10 max_digits) in
    let u_is =
      (mul-StandsFor a.unscaled (pow10 max_digits) h.bytes (pow10-StandsFor max_digits).1).1 in
    let d = if is_negative o.unscaled then neg o.unscaled else o.unscaled in
    let (d_is, d_abs) = absolute o.unscaled k.bytes in
    let nz = not_zero o.unscaled k.bytes e in
    let q =
      abs_quotient-IsBigInt u d u_is d_is
        (λ z. nz (abs_none _ (sym d_abs ∙ ap (λ i. nat_abs i) z))) in
    if_ind (λ r. Gives r) (is_zero o.unscaled) (λ z. absurd (cc (z, e)))
      (λ _. make-Gives _ _ (
        quotient_signed-IsBigInt (not (Signed.same_sign (is_negative u) (is_negative o.unscaled))) _
          q))

given : (o : Option MiniNumber) → Gives o → o ≢ none
given none h e = h
given (some r) h e = cc

-- div() of two well-formed numbers throws for a divisor that is zero and for no other, and else leaves a
-- well-formed number.
pub div-none :
    (a o : MiniNumber)
    → IsNumber a
    → IsNumber o
    → ((div a o ≡ none) ↔ (is_zero o.unscaled ≡ true))
      × ((is_zero o.unscaled ≡ true) ⊎ Gives (div a o))
div-none a o h k = elim (Bool-cases (is_zero o.unscaled)) [
  | inl z ↦ ((λ e. z, λ e. unfold div in rw e refl), inl z)
  | inr z ↦ (
    (λ e. absurd (given (div a o) (div-Gives a o h k z) e), λ e. absurd (cc (z, e))),
    inr (div-Gives a o h k z),
  )
]
