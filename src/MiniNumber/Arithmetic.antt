-- ===== src/MiniNumber/Arithmetic.antt =====
-- Sums, differences, products and comparisons of class MiniNumber (src/types/MiniNumber.cpp) are those
-- of the decimal numbers, cut to 64 digits.
use kiss_vm_interpreter.Prelude.{
  ◌≡◌, ◌≢◌, ◌⊎◌, inl, inr, refl, sym, ap, ◌∙◌, subst, Bool, Bool-cases, true, false, [], ◌∷◌, Bytes,
  Option, some, length, arith, ◌==◌,
}
use kiss_vm_interpreter.Prelude.Int.{ℤ, pos, negsuc, ◌+ℤ◌, ◌-ℤ◌, ◌*ℤ◌, ◌≤ℤ◌, nat_abs, int_of_lem}
use kiss_vm_interpreter.BigInt.Mag.{Order}
use kiss_vm_interpreter.BigInt.Signed
use kiss_vm_interpreter.BigInt.Integer.{integer, IsBigInt}
use kiss_vm_interpreter.BigInt.Refinement.{StandsFor, add-StandsFor}
use kiss_vm_interpreter.BigInt.Operators.{
  sub-StandsFor, mul-StandsFor, TellsInt, compare_to-TellsInt,
}
use kiss_vm_interpreter.BigInt.Decimal.{to_decimal_string}
use kiss_vm_interpreter.BigInt.Printed.{dec}
use kiss_vm_interpreter.MiniNumber.{
  MiniNumber, make, cut_digits, drop_zeros, split_minus, max_ℤ, scaled_to, add, sub, mult,
  compare_to,
}
use kiss_vm_interpreter.MiniNumber.Leading.{AreLeading, drop_zeros-AreLeading, leading-ge}
use kiss_vm_interpreter.MiniNumber.Scaled.{
  at_scale, scaled_to-StandsFor, left-max_ℤ, right-max_ℤ, ten_power-pos,
}
use kiss_vm_interpreter.MiniNumber.Room.{
  HasRoom, IsBounded, difference-IsInt, sum-HasRoom, difference-HasRoom, product-HasRoom, sum-IsInt,
}
use kiss_vm_interpreter.MiniNumber.Context.{RoundsTo, make-RoundsTo, nat_abs-signed}
use kiss_vm_interpreter.MiniNumber.Shows.{to_decimal_string-Shows}

-- A number as the operations leave it: at most 44 places.
pub record IsNumber (a : MiniNumber) : Type 0 where
  pub bytes : IsBigInt a.unscaled
  pub places : a.scale ≤ℤ pos 44

abbrev pub zero_number : MiniNumber
zero_number = record { unscaled = 0 ∷ []; scale = pos 0 }

-- The result for the exact value v at the scale s.
abbrev pub Computes : ℤ → ℤ → Option MiniNumber → Type 0
Computes v s o = ((v ≡ pos 0) × (o ≡ some zero_number)) ⊎ RoundsTo v s o

cut_digits-zero :
    (n : Bool) (d u : Bytes) (s : ℤ)
    → AreLeading d
    → dec 0 d ≡ 0
    → cut_digits n d u s ≡ some zero_number
unfolding cut_digits
cut_digits-zero n [] u s lead e = refl
cut_digits-zero n (c ∷ t) u s lead e =
    absurd (omega (arith, leading-ge c t lead, ten_power-pos (length t), e))

make-zero : (u : Bytes) (s : ℤ) → IsBigInt u → integer u ≡ pos 0 → make u s ≡ some zero_number
unfolding make
make-zero u s h z =
    let (negative, t) = split_minus (to_decimal_string u) in
    let (digits, e) = to_decimal_string-Shows u h in
    let (same, lead) = drop_zeros-AreLeading t digits in
    let v : dec 0 t ≡ 0 =
      sym (nat_abs-signed negative (dec 0 t)) ∙ ap (λ i. nat_abs i) (sym e ∙ z) in
    cut_digits-zero negative (drop_zeros t) u s lead (same ∙ v)

no_abs : (i : ℤ) → nat_abs i == 0 ≡ true → i ≡ pos 0
no_abs (pos n) e = ap pos (ground arith)
no_abs (negsuc n) e = absurd (ground arith)

some_abs : (i : ℤ) → nat_abs i == 0 ≡ false → i ≢ pos 0
some_abs i e z = absurd (cc (e, ap (λ j. nat_abs j == 0) z))

pub make-Computes :
    (u : Bytes) (v s : ℤ) → StandsFor u v → s ≤ℤ pos 44 → HasRoom v s → Computes v s (make u s)
make-Computes u v s (e, h) le room = elim (Bool-cases (nat_abs v == 0)) [
  | inl z ↦ inl (no_abs v z, make-zero u s h (e ∙ no_abs v z))
  | inr z ↦ inr (
      subst (λ i. RoundsTo i s (make u s)) e
        (make-RoundsTo u s h (λ o. some_abs v z (sym e ∙ o)) le
          (subst (λ i. HasRoom i s) (sym e) room)))
]

max_places : (a o : MiniNumber) → IsBounded a → IsBounded o → max_ℤ a.scale o.scale ≤ℤ pos 44
max_places a o h k = let p = h.places in let q = k.places in ground arith

-- The two numbers at the greater scale.
aligned :
    (a o : MiniNumber)
    → IsBounded a
    → IsBounded o
    → let s = max_ℤ a.scale o.scale in
      StandsFor (scaled_to s a) (at_scale s a) × StandsFor (scaled_to s o) (at_scale s o)
aligned a o h k = (
  scaled_to-StandsFor _ a h.bytes (left-max_ℤ a.scale o.scale)
      (difference-IsInt a _ h (left-max_ℤ a.scale o.scale) (max_places a o h k)),
  scaled_to-StandsFor _ o k.bytes (right-max_ℤ a.scale o.scale)
      (difference-IsInt o _ k (right-max_ℤ a.scale o.scale) (max_places a o h k)),
)

-- add() of two numbers of at most 64 digits, with scales from -1000000000 to 44, throws nothing and computes the sum of the two at the greater scale:
-- zero, or the first 64 digits of it.
pub add-Computes :
    (a o : MiniNumber)
    → IsBounded a
    → IsBounded o
    → let s = max_ℤ a.scale o.scale in Computes (at_scale s a +ℤ at_scale s o) s (add a o)
unfolding add
add-Computes a o h k =
    let s = max_ℤ a.scale o.scale in
    let ((i, p), (j, q)) = aligned a o h k in
    let (e, out) = add-StandsFor (scaled_to s a) (scaled_to s o) p q in
    make-Computes _ _ s (e ∙ cc (i, j), out) (max_places a o h k)
      (sum-HasRoom a o s h k (left-max_ℤ a.scale o.scale) (right-max_ℤ a.scale o.scale)
        (max_places a o h k))

-- sub() of two numbers of at most 64 digits, with scales from -1000000000 to 44, throws nothing and computes their difference at the greater scale.
pub sub-Computes :
    (a o : MiniNumber)
    → IsBounded a
    → IsBounded o
    → let s = max_ℤ a.scale o.scale in Computes (at_scale s a -ℤ at_scale s o) s (sub a o)
unfolding sub
sub-Computes a o h k =
    let s = max_ℤ a.scale o.scale in
    let ((i, p), (j, q)) = aligned a o h k in
    let (e, out) = sub-StandsFor (scaled_to s a) (scaled_to s o) p q in
    make-Computes _ _ s (e ∙ cc (i, j), out) (max_places a o h k)
      (difference-HasRoom a o s h k (left-max_ℤ a.scale o.scale) (right-max_ℤ a.scale o.scale)
        (max_places a o h k))

-- mult() of two numbers of at most 64 digits, with scales of at least -1000000000 that have a sum of at
-- most 44, and are themselves at most 44, throws nothing and computes the
-- product: zero, or the first 64 digits of it.
pub mult-Computes :
    (a o : MiniNumber)
    → IsBounded a
    → IsBounded o
    → (a.scale +ℤ o.scale) ≤ℤ pos 44
    → Computes (integer a.unscaled *ℤ integer o.unscaled) (a.scale +ℤ o.scale) (mult a o)
unfolding mult
mult-Computes a o h k le =
    subst
      (λ s.
        Computes (integer a.unscaled *ℤ integer o.unscaled) (a.scale +ℤ o.scale)
          (make (Signed.mul a.unscaled o.unscaled) s))
      (sym (int_of_lem _ (sum-IsInt a o h k le)))
      (make-Computes _ _ _ (mul-StandsFor a.unscaled o.unscaled h.bytes k.bytes) le
        (product-HasRoom a o h k))

-- The order of two numbers, told at the greater scale.
abbrev pub Orders : Order → MiniNumber → MiniNumber → Type 0
Orders r a o = TellsInt r (at_scale (max_ℤ a.scale o.scale) a) (at_scale (max_ℤ a.scale o.scale) o)

-- compareTo() of two numbers of at most 64 digits, with scales from -1000000000 to 44, tells the order of the two at the greater scale.
pub compare_to-Orders : (a o : MiniNumber) → IsBounded a → IsBounded o → Orders (compare_to a o) a o
unfolding compare_to
compare_to-Orders a o h k =
    let s = max_ℤ a.scale o.scale in
    let ((i, p), (j, q)) = aligned a o h k in
    subst (λ x. TellsInt (compare_to a o) x (at_scale s o)) i
      (subst (λ y. TellsInt (compare_to a o) (integer (scaled_to s a)) y) j
        (compare_to-TellsInt (scaled_to s a) (scaled_to s o) p q))
