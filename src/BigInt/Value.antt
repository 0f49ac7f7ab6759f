-- ===== src/BigInt/Value.antt =====
-- The number that a magnitude of class BigInt (src/types/MiniNumber.cpp) stands for.
use kiss_vm_interpreter.Prelude.{
  ℕ, zero, suc, ◌+◌, ◌*◌, ◌<◌, ◌≡◌, refl, sym, ap, ◌∙◌, subst, [], ◌∷◌, ◌++◌, Bytes, length-append,
  ==_iff, Bool-cases, inl, inr, length, ◌==◌, arith, reverse,
}
use mathlib.Core.List.{reverse-cons, reverse-append}
use kiss_vm_interpreter.BigInt.Mag.{strip_leading_zeros}

-- The last byte first.
unfoldable pub little : Bytes → ℕ
little [] = 0
little (b ∷ bs) = b + 256 * little bs

unfoldable pub value : Bytes → ℕ
unfolding little
value bs = little (reverse bs)

abbrev pub AreBytes : Bytes → Type 0
AreBytes [] = Unit
AreBytes (b ∷ bs) = (b < 256) × AreBytes bs

pub AreBytes-append : (xs ys : Bytes) → AreBytes xs → AreBytes ys → AreBytes (xs ++ ys)
AreBytes-append [] ys h k = k
AreBytes-append (x ∷ xs) ys h k = (h.0, AreBytes-append xs ys h.1 k)

pub AreBytes-reverse : (xs : Bytes) → AreBytes xs → AreBytes (reverse xs)
AreBytes-reverse [] h = tt
AreBytes-reverse (x ∷ xs) h =
    subst AreBytes (sym (reverse-cons x xs))
      (AreBytes-append (reverse xs) (x ∷ []) (AreBytes-reverse xs h.1) (h.0, tt))

pub length-reverse : (xs : Bytes) → length (reverse xs) ≡ length xs
length-reverse [] = refl
length-reverse (x ∷ xs) =
    ap (λ (l : Bytes). length l) (reverse-cons x xs)
    ∙ omega (arith, length-append (reverse xs) (x ∷ []), length-reverse xs)

-- 256 ^ n, by recursion
unfoldable pub base : ℕ → ℕ
base zero = 1
base (suc n) = 256 * base n

pub little-append : (xs ys : Bytes) → little (xs ++ ys) ≡ little xs + base (length xs) * little ys
unfolding little base
little-append [] ys = omega arith
little-append (x ∷ xs) ys = grind (arith, little-append xs ys)

pub little-lt-base : (xs : Bytes) → AreBytes xs → little xs < base (length xs)
unfolding little base
little-lt-base [] h = omega arith
little-lt-base (x ∷ xs) h = omega (arith, little-lt-base xs h.1)

little-one : (x : ℕ) → little (x ∷ []) ≡ x
unfolding little
little-one x = omega arith

pub value-cons : (x : ℕ) (xs : Bytes) → value (x ∷ xs) ≡ x * base (length xs) + value xs
unfolding value
value-cons x xs =
    ap little (reverse-cons x xs)
    ∙ grind (arith, little-append (reverse xs) (x ∷ []), little-one x, length-reverse xs)

pub value-snoc : (xs : Bytes) (x : ℕ) → value (xs ++ x ∷ []) ≡ x + 256 * value xs
unfolding value little
value-snoc xs x = ap little (reverse-append xs (x ∷ []))

pub value-lt-base : (xs : Bytes) → AreBytes xs → value xs < base (length xs)
unfolding value
value-lt-base xs h =
    subst (λ (n : ℕ). little (reverse xs) < base n) (length-reverse xs)
      (little-lt-base (reverse xs) (AreBytes-reverse xs h))

pub value-strip : (xs : Bytes) → value (strip_leading_zeros xs) ≡ value xs
unfolding strip_leading_zeros
value-strip [] = refl
value-strip (x ∷ []) = refl
value-strip (x ∷ y ∷ xs) = elim (Bool-cases (x == 0)) [
  | inl e ↦ rw e (value-strip (y ∷ xs) ∙ grind (arith, value-cons x (y ∷ xs), (==_iff x 0).0 e))
  | inr e ↦ rw e refl
]

pub AreBytes-strip : (xs : Bytes) → AreBytes xs → AreBytes (strip_leading_zeros xs)
unfolding strip_leading_zeros
AreBytes-strip [] h = h
AreBytes-strip (x ∷ []) h = h
AreBytes-strip (x ∷ y ∷ xs) h = elim (Bool-cases (x == 0)) [
  | inl e ↦ rw e (AreBytes-strip (y ∷ xs) h.1)
  | inr e ↦ rw e h
]
