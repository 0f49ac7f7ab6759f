-- ===== src/MiniNumber/Room.antt =====
-- The digits of the exact values that class MiniNumber (src/types/MiniNumber.cpp) cuts, and the int
-- that its scale is.
use kiss_vm_interpreter.Prelude.{ℕ, zero, suc, ◌+◌, ◌*◌, ◌≤◌, ◌<◌, ◌≡◌, ap, arith}
use kiss_vm_interpreter.Prelude.Int.{
  ℤ, pos, pos_part, neg_part, ◌+ℤ◌, ◌-ℤ◌, ◌*ℤ◌, ◌≤ℤ◌, nat_abs, IsInt, int_of, int_of_lem,
}
use native.Mathlib.Nat.{mul-le-mul}
use kiss_vm_interpreter.BigInt.Printed.{ten_power}
use kiss_vm_interpreter.BigInt.Integer.{integer, IsBigInt}
use kiss_vm_interpreter.MiniNumber.{MiniNumber}
use kiss_vm_interpreter.MiniNumber.Scaled.{ten_power-pos, at_scale}

pub ten_power_le : (m n : ℕ) → m ≤ n → ten_power m ≤ ten_power n
unfolding ten_power
ten_power_le zero zero h = omega arith
ten_power_le zero (suc n) h = omega (arith, ten_power_le zero n (omega arith))
ten_power_le (suc m) zero h = absurd (omega arith)
ten_power_le (suc m) (suc n) h = omega (arith, ten_power_le m n (omega arith))

ten_power-add : (m n : ℕ) → ten_power (m + n) ≡ ten_power m * ten_power n
unfolding ten_power
ten_power-add zero n =
    let e : ten_power (0 + n) ≡ ten_power n = ap ten_power (omega arith) in omega (arith, e)
ten_power-add (suc m) n =
    let p : suc m + n ≡ suc (m + n) = omega arith in
    let e : ten_power (suc m + n) ≡ ten_power (suc (m + n)) = ap ten_power p in
    let rest = ten_power-add m n in grind (arith, e, rest)

-- A value at a scale, where no cut of digits takes the scale below an int's least value.
abbrev pub HasRoom : ℤ → ℤ → Type 0
HasRoom v s = (m : ℕ) × (nat_abs v < ten_power m) × (m + neg_part s ≤ 2147483648 + pos_part s)

pub lowered_scale :
    (s : ℤ) (k m : ℕ)
    → s ≤ℤ pos 44
    → k ≤ m
    → m + neg_part s ≤ 2147483648 + pos_part s
    → int_of (s -ℤ pos k) ≡ s -ℤ pos k
lowered_scale s k m le h room =
    int_of_lem (s -ℤ pos k) (unfold ◌-ℤ◌ in (ground arith, ground arith))

-- A number of at most 64 digits, with a scale from -1000000000 to 44.
pub record IsBounded (a : MiniNumber) : Type 0 where
  pub bytes : IsBigInt a.unscaled
  pub digits : nat_abs (integer a.unscaled) < ten_power 64
  pub places : a.scale ≤ℤ pos 44
  pub low : neg_part a.scale ≤ 1000000000

times_lt : (x y a b : ℕ) → x < a → y < b → x * y < a * b
times_lt x y a b h k =
    let le : suc x * suc y ≤ a * b = mul-le-mul {n₂ = a} {m₂ = b} (omega arith) (omega arith) in
    grind (arith, le)

powers_lt : (x d a b : ℕ) → x < a → 0 < d → d ≤ b → x * d < a * b
powers_lt x d a b h p k =
    let le : suc x * d ≤ a * b = mul-le-mul {n₂ = a} {m₂ = b} (omega arith) k in grind (arith, le)

abs-mul : (i j : ℤ) → nat_abs (i *ℤ j) ≡ nat_abs i * nat_abs j
unfolding ◌*ℤ◌
abs-mul i j = ground arith

pub difference-IsInt :
    (a : MiniNumber) (s : ℤ) → IsBounded a → a.scale ≤ℤ s → s ≤ℤ pos 44 → IsInt (s -ℤ a.scale)
unfolding ◌-ℤ◌
difference-IsInt a s h le top = let low = h.low in (ground arith, ground arith)

difference_le :
    (s t : ℤ) → s ≤ℤ pos 44 → t ≤ℤ s → neg_part t ≤ 1000000000 → nat_abs (s -ℤ t) ≤ 1000000044
unfolding ◌-ℤ◌
difference_le s t top le low = ground arith

at_scale-lt :
    (a : MiniNumber) (s : ℤ)
    → IsBounded a
    → a.scale ≤ℤ s
    → s ≤ℤ pos 44
    → nat_abs (at_scale s a) < ten_power (64 + 1000000044)
unfolding at_scale
at_scale-lt a s h le top =
    let d = nat_abs (s -ℤ a.scale) in
    let e = abs-mul (integer a.unscaled) (pos (ten_power d)) in
    let more = ten_power_le d 1000000044 (difference_le s a.scale top le h.low) in
    let lt =
      powers_lt (nat_abs (integer a.unscaled)) (ten_power d) (ten_power 64) (ten_power 1000000044)
        h.digits (ten_power-pos d) more in
    omega (arith, e, lt, ten_power-add 64 1000000044)

sum_le : (i j : ℤ) → nat_abs (i +ℤ j) ≤ nat_abs i + nat_abs j
unfolding ◌+ℤ◌
sum_le i j = ground arith

difference_abs : (i j : ℤ) → nat_abs (i -ℤ j) ≤ nat_abs i + nat_abs j
unfolding ◌-ℤ◌
difference_abs i j = ground arith

twice_lt : (x n : ℕ) → x < ten_power n + ten_power n → x < ten_power (suc n)
unfolding ten_power
twice_lt x n h = omega arith

-- The exact value of a sum or of a difference.
pub aligned-HasRoom :
    (a o : MiniNumber) (s v : ℤ)
    → IsBounded a
    → IsBounded o
    → a.scale ≤ℤ s
    → o.scale ≤ℤ s
    → s ≤ℤ pos 44
    → nat_abs v ≤ nat_abs (at_scale s a) + nat_abs (at_scale s o)
    → HasRoom v s
aligned-HasRoom a o s v h k p q top le =
    let x = at_scale-lt a s h p top in
    let y = at_scale-lt o s k q top in
    let low = h.low in
    (suc (64 + 1000000044), twice_lt (nat_abs v) (64 + 1000000044) (omega arith), ground arith)

pub sum-HasRoom :
    (a o : MiniNumber) (s : ℤ)
    → IsBounded a
    → IsBounded o
    → a.scale ≤ℤ s
    → o.scale ≤ℤ s
    → s ≤ℤ pos 44
    → HasRoom (at_scale s a +ℤ at_scale s o) s
sum-HasRoom a o s h k p q top =
    aligned-HasRoom a o s (at_scale s a +ℤ at_scale s o) h k p q top
      (sum_le (at_scale s a) (at_scale s o))

pub difference-HasRoom :
    (a o : MiniNumber) (s : ℤ)
    → IsBounded a
    → IsBounded o
    → a.scale ≤ℤ s
    → o.scale ≤ℤ s
    → s ≤ℤ pos 44
    → HasRoom (at_scale s a -ℤ at_scale s o) s
difference-HasRoom a o s h k p q top =
    aligned-HasRoom a o s (at_scale s a -ℤ at_scale s o) h k p q top
      (difference_abs (at_scale s a) (at_scale s o))

low_sum :
    (s t : ℤ)
    → neg_part s ≤ 1000000000
    → neg_part t ≤ 1000000000
    → (64 + 64) + neg_part (s +ℤ t) ≤ 2147483648 + pos_part (s +ℤ t)
unfolding ◌+ℤ◌
low_sum s t h k = ground arith

pub product-HasRoom :
    (a o : MiniNumber)
    → IsBounded a
    → IsBounded o
    → HasRoom (integer a.unscaled *ℤ integer o.unscaled) (a.scale +ℤ o.scale)
product-HasRoom a o h k =
    let e = abs-mul (integer a.unscaled) (integer o.unscaled) in
    let lt = times_lt _ _ (ten_power 64) (ten_power 64) h.digits k.digits in
    (64 + 64, omega (arith, e, lt, ten_power-add 64 64), low_sum a.scale o.scale h.low k.low)

sum_range :
    (s t : ℤ)
    → neg_part s ≤ 1000000000
    → neg_part t ≤ 1000000000
    → (s +ℤ t) ≤ℤ pos 44
    → IsInt (s +ℤ t)
unfolding ◌+ℤ◌
sum_range s t h k le = (ground arith, ground arith)

pub sum-IsInt :
    (a o : MiniNumber)
    → IsBounded a
    → IsBounded o
    → (a.scale +ℤ o.scale) ≤ℤ pos 44
    → IsInt (a.scale +ℤ o.scale)
sum-IsInt a o h k le = sum_range a.scale o.scale h.low k.low le
