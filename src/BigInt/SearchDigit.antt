-- ===== src/BigInt/SearchDigit.antt =====
-- The search for a digit of a quotient in divmodMag() of class BigInt (src/types/MiniNumber.cpp).
use kiss_vm_interpreter.Prelude.{
  ℕ, zero, suc, ◌+◌, ◌-◌, ◌*◌, ◌/◌, ◌≤◌, ◌<◌, ◌≡◌, ◌≢◌, refl, sym, ◌∙◌, subst, true, false, [], ◌∷◌,
  Bytes, length, ltb, if_ind, arith, reverse,
}
use kiss_vm_interpreter.BigInt.Mag.{
  Order, below, equal, above, compare_abs_mag, strip_leading_zeros, mul_row, mul_loop, mul_mag,
  zero_bytes, at_most, search_digit, div_digit, or_zero, stripped,
}
use kiss_vm_interpreter.BigInt.Value.{
  little, value, AreBytes, AreBytes-reverse, length-reverse, value-strip,
}
use kiss_vm_interpreter.BigInt.Product.{mul_reversed, value-mul_mag, length-zero_bytes}
use kiss_vm_interpreter.BigInt.Compare.{
  IsMag, IsMag-AreBytes, strip-IsMag, Tells, compare_abs_mag-Tells,
}

pub strip-IsMag_of_ne : (bs : Bytes) → bs ≢ [] → AreBytes bs → IsMag (strip_leading_zeros bs)
strip-IsMag_of_ne [] n h = absurd (n refl)
strip-IsMag_of_ne (b ∷ bs) n h = strip-IsMag b bs h

length-mul_row : (carry x : ℕ) (ys r : Bytes) → length (mul_row carry x ys r) ≡ length r
unfolding mul_row
length-mul_row carry x [] [] = refl
length-mul_row carry x [] (d ∷ r) = refl
length-mul_row carry x (y ∷ ys) [] = refl
length-mul_row carry x (y ∷ ys) (d ∷ r) =
    omega (arith, length-mul_row ((d + x * y + carry) / 256) x ys r)

length-mul_rest :
    (xs ys m : Bytes)
    → ((r : Bytes) → length (mul_loop xs ys r) ≡ length r)
    → length (elim m [ [] ↦ [] | d ∷ ds ↦ d ∷ mul_loop xs ys ds ]) ≡ length m
length-mul_rest xs ys [] h = refl
length-mul_rest xs ys (d ∷ ds) h = omega (arith, h ds)

length-mul_loop : (xs ys r : Bytes) → length (mul_loop xs ys r) ≡ length r
unfolding mul_loop
length-mul_loop [] ys r = refl
length-mul_loop (x ∷ xs) ys r =
    length-mul_rest xs ys (mul_row 0 x ys r) (λ t. length-mul_loop xs ys t)
    ∙ length-mul_row 0 x ys r

value-or_zero : (bs : Bytes) → value (or_zero bs) ≡ value bs
unfolding or_zero value little
value-or_zero [] = refl
value-or_zero (b ∷ bs) = refl

pub value-stripped : (bs : Bytes) → value (stripped bs) ≡ value bs
value-stripped bs = value-or_zero (strip_leading_zeros bs) ∙ value-strip bs

IsMag-or_zero : (bs : Bytes) → IsMag bs → or_zero bs ≡ bs
unfolding or_zero
IsMag-or_zero [] h = absurd h
IsMag-or_zero (b ∷ bs) h = refl

pub stripped-IsMag : (bs : Bytes) → AreBytes bs → IsMag (stripped bs)
unfolding strip_leading_zeros or_zero
stripped-IsMag [] h = omega arith
stripped-IsMag (b ∷ bs) h =
    let mag = strip-IsMag b bs h in subst IsMag (sym (IsMag-or_zero _ mag)) mag

pub IsMag-ne : (bs : Bytes) → IsMag bs → bs ≢ []
IsMag-ne [] h e = h
IsMag-ne (b ∷ bs) h e = cc

ne-of_length : (bs : Bytes) (n : ℕ) → length bs ≡ suc n → bs ≢ []
ne-of_length [] n e d = absurd (omega arith)
ne-of_length (b ∷ bs) n e d = cc

pub mul_mag-IsMag : (a b : Bytes) → AreBytes a → AreBytes b → IsMag (mul_mag a b)
unfolding mul_mag
mul_mag-IsMag [] b h k = omega arith
mul_mag-IsMag (x ∷ a) [] h k = omega arith
mul_mag-IsMag (x ∷ a) (y ∷ b) h k =
    let zeros = zero_bytes (length (x ∷ a) + length (y ∷ b)) in
    let r = mul_loop (reverse (x ∷ a)) (reverse (y ∷ b)) zeros in
    strip-IsMag_of_ne (reverse r)
      (ne-of_length _ (length a + length (y ∷ b)) (
        omega (
          arith,
          length-reverse r,
          length-mul_loop (reverse (x ∷ a)) (reverse (y ∷ b)) zeros,
          length-zero_bytes (length (x ∷ a) + length (y ∷ b)),
        )))
      (AreBytes-reverse r (mul_reversed (x ∷ a) (y ∷ b) h k).1)

-- How far apart the ends of the search may be for f rounds.
span : ℕ → ℕ
span zero = 0
span (suc f) = 2 * span f + 1

abbrev IsDigit : ℕ → ℕ → ℕ → Type 0
IsDigit b r d = (d ≤ 255) × (d * b ≤ r) × (r < suc d * b)

at_most_lem :
    (o : Order) (m n : ℕ) → Tells o m n → (at_most o ≡ true → m ≤ n) × (at_most o ≡ false → n < m)
at_most_lem below m n h = (λ e. omega arith, λ e. cc)
at_most_lem equal m n h = (λ e. omega arith, λ e. cc)
at_most_lem above m n h = (λ e. cc, λ e. h)

pub value-digit : (d : ℕ) → value (d ∷ []) ≡ d
unfolding value little
value-digit d = omega arith

-- The product with a digit.
pub digit_product :
    (b : Bytes) (d : ℕ) → IsMag b → d ≤ 255 → value (mul_mag b (d ∷ [])) ≡ d * value b
digit_product b d h k =
    (value-mul_mag b (d ∷ []) (IsMag-ne b h) (cc) (IsMag-AreBytes b h) (omega arith, tt)).0
    ∙ grind (arith, value-digit d)

search_digit-IsDigit :
    (f : ℕ) (b rem : Bytes) (lo hi : ℕ)
    → IsMag b
    → IsMag rem
    → lo ≤ hi
    → hi ≤ 255
    → hi - lo ≤ span f
    → lo * value b ≤ value rem
    → value rem < suc hi * value b
    → IsDigit (value b) (value rem) (search_digit f b rem lo hi)
unfolding search_digit span
search_digit-IsDigit zero b rem lo hi hb hr le top fit low high =
    let e : hi ≡ lo = omega arith in
    (omega arith, low, subst (λ (n : ℕ). value rem < suc n * value b) e high)
search_digit-IsDigit (suc f) b rem lo hi hb hr le top fit low high =
    let mid = (lo + hi + 1) / 2 in
    let p = digit_product b mid hb (omega arith) in
    let told =
      at_most_lem (compare_abs_mag (mul_mag b (mid ∷ [])) rem) (value (mul_mag b (mid ∷ [])))
        (value rem)
        (compare_abs_mag-Tells (mul_mag b (mid ∷ [])) rem
          (mul_mag-IsMag b (mid ∷ []) (IsMag-AreBytes b hb) (omega arith, tt)) hr) in
    if_ind (IsDigit (value b) (value rem)) (ltb lo hi)
      (λ lt.
        if_ind (IsDigit (value b) (value rem))
          (at_most (compare_abs_mag (mul_mag b (mid ∷ [])) rem))
          (λ e.
            search_digit-IsDigit f b rem mid hi hb hr (omega arith) top (omega arith)
              (omega (arith, told.0 e, p)) high)
          (λ e.
            let less : lo < hi = ground arith in
            let at : suc (mid - 1) ≡ mid = omega arith in
            search_digit-IsDigit f b rem lo (mid - 1) hb hr (omega arith) (omega arith)
              (omega arith) low
              (subst (λ (n : ℕ). value rem < n * value b) (sym at) (omega (arith, told.1 e, p)))))
      (λ ge.
        let e : hi ≡ lo = ground arith in
        (omega arith, low, subst (λ (n : ℕ). value rem < suc n * value b) e high))

pub div_digit-IsDigit :
    (b rem : Bytes)
    → IsMag b
    → IsMag rem
    → value rem < 256 * value b
    → IsDigit (value b) (value rem) (div_digit b rem)
unfolding div_digit
div_digit-IsDigit b rem hb hr h =
    search_digit-IsDigit 8 b rem 0 255 hb hr (omega arith) (omega arith)
      (unfold span in omega arith) (omega arith) h
