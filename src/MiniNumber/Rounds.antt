-- ===== src/MiniNumber/Rounds.antt =====
-- The rounds of pow() of class MiniNumber (src/types/MiniNumber.cpp).
use kiss_vm_interpreter.Prelude.{
  ℕ, zero, suc, ◌+◌, ◌*◌, ◌/◌, ◌%◌, ◌≤◌, ◌<◌, ◌≡◌, refl, sym, ap, ◌∙◌, Option, none, some, arith,
  if◌then◌else◌, ◌==◌,
}
use kiss_vm_interpreter.Prelude.Int.{pos}
use kiss_vm_interpreter.MiniNumber.{MiniNumber, mult}
use kiss_vm_interpreter.MiniNumber.Derived.{and_then, pow_loop, pow, one}

unfoldable two_power : ℕ → ℕ
two_power zero = 1
two_power (suc n) = 2 * two_power n

and_then-same :
    (o : Option MiniNumber) (f g : MiniNumber → Option MiniNumber)
    → ((a : MiniNumber) → f a ≡ g a)
    → and_then o f ≡ and_then o g
and_then-same none f g h = refl
and_then-same (some a) f g h = h a

no_exponent : (f : ℕ) (r base : MiniNumber) → pow_loop f 0 r base ≡ some r
unfolding pow_loop
no_exponent zero r base = refl
no_exponent (suc f) r base = refl

half_lt : (n f : ℕ) → n < two_power (suc f) → n / 2 < two_power f
unfolding two_power
half_lt n f h = omega arith

same_round :
    (f g n : ℕ) (r base : MiniNumber)
    → ((r' b : MiniNumber) → pow_loop f (n / 2) r' b ≡ pow_loop g (n / 2) r' b)
    → pow_loop (suc f) n r base ≡ pow_loop (suc g) n r base
unfolding pow_loop
same_round f g n r base h =
    ap (λ (x : Option MiniNumber). if n == 0 then some r else x)
      (and_then-same (if n % 2 == 1 then mult r base else some r) _ _
        (λ (r' : MiniNumber). and_then-same (mult base base) _ _ (λ (b : MiniNumber). h r' b)))

-- Rounds that use up the exponent.
enough_rounds :
    (f g n : ℕ) (r base : MiniNumber)
    → n < two_power f
    → n < two_power g
    → pow_loop f n r base ≡ pow_loop g n r base
enough_rounds zero g n r base h k =
    let z : n ≡ 0 = unfold two_power in omega arith in
    ap (λ (m : ℕ). pow_loop 0 m r base) z
    ∙ (no_exponent 0 r base
        ∙ (sym (no_exponent g r base) ∙ ap (λ (m : ℕ). pow_loop g m r base) (sym z)))
enough_rounds (suc f) zero n r base h k =
    let z : n ≡ 0 = unfold two_power in omega arith in
    ap (λ (m : ℕ). pow_loop (suc f) m r base) z
    ∙ (no_exponent (suc f) r base
        ∙ (sym (no_exponent 0 r base) ∙ ap (λ (m : ℕ). pow_loop 0 m r base) (sym z)))
enough_rounds (suc f) (suc g) n r base h k =
    same_round f g n r base (λ (r' : MiniNumber) (b : MiniNumber).
      enough_rounds f g (n / 2) r' b (half_lt n f h) (half_lt n g k))

thirty_one : two_power 31 ≡ 2147483648
unfolding two_power
thirty_one = refl

later_one : (k : ℕ) → 1 ≤ two_power (0 + k) → 1 ≤ two_power (0 + suc k)
later_one k h =
    let e : two_power (0 + suc k) ≡ two_power (suc (0 + k)) =
      ap two_power {y = suc (0 + k)} (omega arith) in
    let d : two_power (suc (0 + k)) ≡ 2 * two_power (0 + k) = unfold two_power in refl in
    omega (arith, e, d, h)

at_least_one : (k : ℕ) → 1 ≤ two_power (0 + k)
at_least_one zero = unfold two_power in omega arith
at_least_one (suc k) = later_one k (at_least_one k)

next_power : (f k : ℕ) → two_power f ≤ two_power (f + k) → two_power (suc f) ≤ two_power (suc f + k)
next_power f k h =
    let e : two_power (suc f + k) ≡ two_power (suc (f + k)) =
      ap two_power {y = suc (f + k)} (omega arith) in
    let d : two_power (suc (f + k)) ≡ 2 * two_power (f + k) = unfold two_power in refl in
    let c : two_power (suc f) ≡ 2 * two_power f = unfold two_power in refl in
    omega (arith, e, d, c, h)

more_rounds : (f k : ℕ) → two_power f ≤ two_power (f + k)
more_rounds zero k = unfold two_power in at_least_one k
more_rounds (suc f) k = next_power f k (more_rounds f k)

-- pow() with an exponent from 0 up to the greatest int gives what its loop gives with any number of
-- rounds from 31 on: the 31 rounds use up the exponent.
pub pow-pow_loop :
    (a : MiniNumber) (n k : ℕ) → n ≤ 2147483647 → pow a (pos n) ≡ pow_loop (31 + k) n one a
unfolding pow
pow-pow_loop a n k h =
    enough_rounds 31 (31 + k) n one a (omega (arith, thirty_one))
      (omega (arith, thirty_one, more_rounds 31 k))
