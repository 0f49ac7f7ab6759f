-- ===== src/MiniNumber/Leading.antt =====
-- The leading digits that applyMathContext() of src/types/MiniNumber.cpp keeps.
use kiss_vm_interpreter.Prelude.{
  ℕ, zero, suc, ◌+◌, ◌-◌, ◌*◌, ◌≤◌, ◌<◌, ◌≡◌, ◌≢◌, refl, ap, ◌∙◌, [], ◌∷◌, Bytes, length, if_ind,
  arith, ◌==◌, ==_iff,
}
use native.Mathlib.Nat.{mul-le-mul}
use kiss_vm_interpreter.BigInt.Printed.{dec, AreDigits, ten_power}
use kiss_vm_interpreter.MiniNumber.{drop_zeros, take, drop}

-- Digits that have no zero in front.
abbrev pub AreLeading : Bytes → Type 0
AreLeading [] = Unit
AreLeading (c ∷ s) = (c ≢ 48) × AreDigits (c ∷ s)

pub drop_zeros-AreLeading :
    (s : Bytes) → AreDigits s → (dec 0 (drop_zeros s) ≡ dec 0 s) × AreLeading (drop_zeros s)
unfolding drop_zeros
drop_zeros-AreLeading [] h = (refl, tt)
drop_zeros-AreLeading (c ∷ s) h =
    let rest = drop_zeros-AreLeading s h.2 in
    if_ind (λ r. (dec 0 r ≡ dec 0 (c ∷ s)) × AreLeading r) (c == 48)
      (λ e.
        let z : dec 0 s ≡ dec 0 (c ∷ s) = unfold dec in ap (λ (n : ℕ). dec n s) (ground arith) in
        (rest.0 ∙ z, rest.1))
      (λ e. (refl, (λ z. cc (e, (==_iff c 48).1 z), h)))

-- A number in front of the digits.
pub dec_shift : (n : ℕ) (s : Bytes) → dec n s ≡ n * ten_power (length s) + dec 0 s
unfolding dec ten_power
dec_shift n [] = omega arith
dec_shift n (c ∷ s) =
    let a = dec_shift (10 * n + (c - 48)) s in
    let b = dec_shift (10 * 0 + (c - 48)) s in grind (arith, a, b)

pub dec-lt : (s : Bytes) → AreDigits s → dec 0 s < ten_power (length s)
unfolding dec ten_power
dec-lt [] h = omega arith
dec-lt (c ∷ s) h =
    let rest = dec-lt s h.2 in
    let e = dec_shift (10 * 0 + (c - 48)) s in
    let le : (10 * 0 + (c - 48)) * ten_power (length s) ≤ 9 * ten_power (length s) =
      mul-le-mul {n₂ = 9} {m₂ = ten_power (length s)} (omega arith) (omega arith) in
    omega (arith, rest, e, le)

pub leading-ge : (c : ℕ) (s : Bytes) → AreLeading (c ∷ s) → ten_power (length s) ≤ dec 0 (c ∷ s)
unfolding dec
leading-ge c s h =
    let e = dec_shift (10 * 0 + (c - 48)) s in
    let (n, (low, high, k)) = h in
    let le : 1 * ten_power (length s) ≤ (10 * 0 + (c - 48)) * ten_power (length s) =
      mul-le-mul {n₂ = 10 * 0 + (c - 48)} {m₂ = ten_power (length s)} (grind arith) (omega arith) in
    omega (arith, e, le)

-- The first k digits and the r others.
pub dec-take :
    (n k r : ℕ) (s : Bytes)
    → length s ≡ k + r
    → dec n s ≡ dec n (take k s) * ten_power r + dec 0 (drop k s)
unfolding dec
dec-take n zero r s h = dec_shift n s ∙ ap (λ (l : ℕ). n * ten_power l + dec 0 s) (h ∙ omega arith)
dec-take n (suc k) r [] h = absurd (omega arith)
dec-take n (suc k) r (c ∷ s) h = dec-take (10 * n + (c - 48)) k r s (omega arith)

pub AreDigits-take : (k : ℕ) (s : Bytes) → AreDigits s → AreDigits (take k s)
AreDigits-take zero s h = tt
AreDigits-take (suc k) [] h = tt
AreDigits-take (suc k) (c ∷ s) h = (h.0, h.1, AreDigits-take k s h.2)

pub AreDigits-drop : (k : ℕ) (s : Bytes) → AreDigits s → AreDigits (drop k s)
AreDigits-drop zero s h = h
AreDigits-drop (suc k) [] h = tt
AreDigits-drop (suc k) (c ∷ s) h = AreDigits-drop k s h.2

pub length-take : (k : ℕ) (s : Bytes) → k ≤ length s → length (take k s) ≡ k
length-take zero s h = refl
length-take (suc k) [] h = absurd (omega arith)
length-take (suc k) (c ∷ s) h = ap (λ (n : ℕ). suc n) (length-take k s (omega arith))

pub length-drop : (k r : ℕ) (s : Bytes) → length s ≡ k + r → length (drop k s) ≡ r
length-drop zero r s h = omega arith
length-drop (suc k) r [] h = absurd (omega arith)
length-drop (suc k) r (c ∷ s) h = length-drop k r s (omega arith)
