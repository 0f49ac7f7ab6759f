-- ===== src/BigInt/Compare.antt =====
-- compareAbsMag() of class BigInt (src/types/MiniNumber.cpp) compares numbers, where neither
-- magnitude has a zero in front.
use kiss_vm_interpreter.Prelude.{
  ℕ, zero, suc, ◌+◌, ◌*◌, ◌≤◌, ◌<◌, ◌≡◌, ◌≢◌, refl, sym, ap, ◌∙◌, subst, [], ◌∷◌, Bytes, length,
  ltb, leb, ◌==◌, ==_iff, if_ind, Bool-cases, inl, inr, arith,
}
use native.Mathlib.Nat.{mul-le-mul}
use kiss_vm_interpreter.BigInt.Mag.{
  Order, below, equal, above, memcmp, compare_abs_mag, strip_leading_zeros,
}
use kiss_vm_interpreter.BigInt.Value.{value, base, AreBytes, value-cons, value-lt-base}

-- A magnitude: no zero stands in front of another byte.
abbrev pub IsMag : Bytes → Type 0
IsMag [] = ⊥
IsMag (b ∷ []) = b < 256
IsMag (b ∷ c ∷ bs) = (b ≢ 0) × AreBytes (b ∷ c ∷ bs)

pub IsMag-AreBytes : (bs : Bytes) → IsMag bs → AreBytes bs
IsMag-AreBytes [] h = absurd h
IsMag-AreBytes (b ∷ []) h = (h, tt)
IsMag-AreBytes (b ∷ c ∷ bs) h = h.1

pub strip-IsMag : (b : ℕ) (bs : Bytes) → AreBytes (b ∷ bs) → IsMag (strip_leading_zeros (b ∷ bs))
unfolding strip_leading_zeros
strip-IsMag b [] h = h.0
strip-IsMag b (c ∷ bs) h = elim (Bool-cases (b == 0)) [
  | inl e ↦ rw e (strip-IsMag c bs h.1)
  | inr e ↦ rw e ((λ z. cc (e, (==_iff b 0).1 z)), h)
]

-- How the order of two numbers is told.
abbrev pub Tells : Order → ℕ → ℕ → Type 0
Tells below m n = m < n
Tells equal m n = m ≡ n
Tells above m n = n < m

higher_digit : (x y p u v : ℕ) → x < y → u < p → x * p + u < y * p + v
higher_digit x y p u v lt h =
    let q : suc x * p ≤ y * p = mul-le-mul {n₂ = y} {m₂ = p} lt (omega arith) in grind (arith, q)

Tells-shift : (o : Order) (m n k m' n' : ℕ) → Tells o m n → m' ≡ k + m → n' ≡ k + n → Tells o m' n'
Tells-shift below m n k m' n' h e d = omega arith
Tells-shift equal m n k m' n' h e d = omega arith
Tells-shift above m n k m' n' h e d = omega arith

-- memcmp() of two strings of one length.
memcmp-Tells :
    (a b : Bytes)
    → AreBytes a
    → AreBytes b
    → length a ≡ length b
    → Tells (memcmp a b) (value a) (value b)
unfolding memcmp
memcmp-Tells [] [] h k l = refl
memcmp-Tells [] (y ∷ b) h k l = absurd (omega arith)
memcmp-Tells (x ∷ a) [] h k l = absurd (omega arith)
memcmp-Tells (x ∷ a) (y ∷ b) h k l =
    let same : base (length b) ≡ base (length a) = ap base (omega arith) in
    let first = value-cons x a in
    let second : value (y ∷ b) ≡ y * base (length a) + value b =
      value-cons y b ∙ ap (λ (p : ℕ). y * p + value b) same in
    let small = value-lt-base a h.1 in
    let small' : value b < base (length a) =
      subst (λ (p : ℕ). value b < p) same (value-lt-base b k.1) in
    if_ind (λ o. Tells o (value (x ∷ a)) (value (y ∷ b))) (x == y)
      (λ e.
        Tells-shift (memcmp a b) (value a) (value b) (x * base (length a)) _ _
          (memcmp-Tells a b h.1 k.1 (omega arith)) first
          (second ∙ ap (λ (z : ℕ). z * base (length a) + value b) (sym ((==_iff x y).0 e))))
      (λ e.
        if_ind (λ o. Tells o (value (x ∷ a)) (value (y ∷ b))) (ltb x y)
          (λ lt. omega (arith, first, second, higher_digit x y _ _ (value b) (ground arith) small))
          (λ ge.
            omega (arith, first, second, higher_digit y x _ _ (value a) (ground arith) small')))

base-le : (m n : ℕ) → m ≤ n → base m ≤ base n
unfolding base
base-le zero zero h = omega arith
base-le zero (suc n) h = omega (arith, base-le zero n (omega arith))
base-le (suc m) zero h = absurd (omega arith)
base-le (suc m) (suc n) h = omega (arith, base-le m n (omega arith))

-- A first byte that is not zero makes the number as great as its place.
pub value-ge-base : (b : ℕ) (bs : Bytes) → b ≢ 0 → base (length bs) ≤ value (b ∷ bs)
value-ge-base b bs h =
    let q : 1 * base (length bs) ≤ b * base (length bs) =
      mul-le-mul {n₂ = b} {m₂ = base (length bs)} (ground arith) (omega arith) in
    omega (arith, value-cons b bs, q)

pub shorter-lt : (a b : Bytes) → IsMag a → IsMag b → length a < length b → value a < value b
shorter-lt a [] h k l = absurd k
shorter-lt [] (y ∷ []) h k l = absurd h
shorter-lt (x ∷ a) (y ∷ []) h k l = absurd (omega arith)
shorter-lt a (y ∷ c ∷ b) h k l = omega (
  arith,
  value-lt-base a (IsMag-AreBytes a h),
  value-ge-base y (c ∷ b) k.0,
  base-le (length a) (length (c ∷ b)) (omega arith),
)

-- The order of two magnitudes is that of their numbers.
pub compare_abs_mag-Tells :
    (a b : Bytes) → IsMag a → IsMag b → Tells (compare_abs_mag a b) (value a) (value b)
unfolding compare_abs_mag
compare_abs_mag-Tells a b h k =
    if_ind (λ o. Tells o (value a) (value b)) (length a == length b)
      (λ e. memcmp-Tells a b (IsMag-AreBytes a h) (IsMag-AreBytes b k) ((==_iff _ _).0 e))
      (λ e.
        if_ind (λ o. Tells o (value a) (value b)) (ltb (length a) (length b))
          (λ lt. shorter-lt a b h k (ground arith)) (λ ge. shorter-lt b a k h (ground arith)))

pub longer-ge : (a b : Bytes) → IsMag a → IsMag b → value a ≤ value b → length a ≤ length b
longer-ge a b h k le = elim (Bool-cases (leb (length a) (length b))) [
  | inl e ↦ ground arith
  | inr e ↦ absurd (omega (arith, shorter-lt b a k h (ground arith)))
]

pub base-pos : (n : ℕ) → 0 < base n
unfolding base
base-pos zero = omega arith
base-pos (suc n) = omega (arith, base-pos n)
