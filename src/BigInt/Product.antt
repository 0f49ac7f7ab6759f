-- ===== src/BigInt/Product.antt =====
-- mulMag() of class BigInt (src/types/MiniNumber.cpp) multiplies.
use kiss_vm_interpreter.Prelude.{
  ℕ, zero, suc, ◌+◌, ◌*◌, ◌/◌, ◌%◌, ◌≤◌, ◌<◌, ◌≡◌, ◌≢◌, refl, sym, ap, ◌∙◌, subst, [], ◌∷◌, ◌++◌,
  Bytes, length, arith, reverse,
}
use mathlib.Core.List.{append-nil}
use native.Mathlib.Nat.{mul-le-mul}
use kiss_vm_interpreter.BigInt.Mag.{mul_row, mul_loop, mul_mag, zero_bytes}
use kiss_vm_interpreter.BigInt.Value.{
  little, value, AreBytes, AreBytes-append, AreBytes-reverse, length-reverse, value-strip,
  AreBytes-strip,
}
use kiss_vm_interpreter.BigInt.Sum.{value-reverse}

-- A byte of a row and its carry fit 16 bits.
product_lt :
    (d x y carry : ℕ) → d < 256 → x < 256 → y < 256 → carry < 256 → d + x * y + carry < 65536
product_lt d x y carry h k l m =
    let p : x * y ≤ 255 * 255 = mul-le-mul {n₂ = 255} {m₂ = 255} (omega arith) (omega arith) in
    omega (arith, p)

-- What a row makes of r, which is lo and zeros behind it: its number grows by x * ys + carry.
record Row (x carry : ℕ) (ys lo : Bytes) (k : ℕ) (r : Bytes) : Type 0 where
  out : Bytes
  is_out : r ≡ out ++ zero_bytes k
  size : length out ≡ suc (length ys)
  are_bytes : AreBytes out
  number : little out ≡ little lo + x * little ys + carry

mul_row-Row :
    (carry x : ℕ) (ys lo : Bytes) (k : ℕ)
    → length lo ≡ length ys
    → carry < 256
    → x < 256
    → AreBytes ys
    → AreBytes lo
    → Row x carry ys lo k (mul_row carry x ys (lo ++ zero_bytes (suc k)))
unfolding mul_row zero_bytes little
mul_row-Row carry x [] [] k e c hx hy hl = record {
  out = ((0 + carry) % 256) ∷ [];
  is_out = refl;
  size = refl;
  are_bytes = (omega arith, tt);
  number = omega arith;
}
mul_row-Row carry x [] (d ∷ lo) k e c hx hy hl = absurd (omega arith)
mul_row-Row carry x (y ∷ ys) [] k e c hx hy hl = absurd (omega arith)
mul_row-Row carry x (y ∷ ys) (d ∷ lo) k e c hx hy hl =
    let v = d + x * y + carry in
    let lt = product_lt d x y carry hl.0 hx hy.0 c in
    let rest = mul_row-Row (v / 256) x ys lo k (omega arith) (omega (arith, lt)) hx hy.1 hl.1 in
    record {
      out = (v % 256) ∷ rest.out;
      is_out = ap (λ bs. (v % 256) ∷ bs) rest.is_out;
      size = ap (λ (n : ℕ). suc n) rest.size;
      are_bytes = (omega arith, rest.are_bytes);
      number = grind (arith, rest.number);
    }

little-zero_bytes : (k : ℕ) → little (zero_bytes k) ≡ 0
unfolding little zero_bytes
little-zero_bytes zero = refl
little-zero_bytes (suc k) = omega (arith, little-zero_bytes k)

-- r stands for n, in bytes.
abbrev pub StandsFor : ℕ → Bytes → Type 0
StandsFor n r = (little r ≡ n) × AreBytes r

AreBytes-zero_bytes : (k : ℕ) → AreBytes (zero_bytes k)
unfolding zero_bytes
AreBytes-zero_bytes zero = tt
AreBytes-zero_bytes (suc k) = (omega arith, AreBytes-zero_bytes k)

-- The rows from the second on, over what the first leaves.
mul_step :
    (xs ys out : Bytes) (n : ℕ)
    → length out ≡ suc (length ys)
    → AreBytes out
    → ((ds : Bytes)
        → length ds ≡ length ys
        → AreBytes ds
        → StandsFor
            (little ds + little xs * little ys)
            (mul_loop xs ys (ds ++ zero_bytes (length xs))))
    → n ≡ little out + 256 * (little xs * little ys)
    → StandsFor n
        (elim (out ++ zero_bytes (length xs)) [ [] ↦ [] | d ∷ ds ↦ d ∷ mul_loop xs ys ds ])
unfolding little
mul_step xs ys [] n l h ih e = absurd (omega arith)
mul_step xs ys (d ∷ ds) n l h ih e =
    let (number, bytes) = ih ds (omega arith) h.1 in (omega (arith, number, e), (h.0, bytes))

-- All rows together, from where the first byte of r still changes.
mul_loop-little :
    (xs ys lo : Bytes)
    → length lo ≡ length ys
    → AreBytes xs
    → AreBytes ys
    → AreBytes lo
    → StandsFor (little lo + little xs * little ys) (mul_loop xs ys (lo ++ zero_bytes (length xs)))
unfolding mul_loop
mul_loop-little [] ys lo l hx hy hl = (
  unfold little zero_bytes in ap little (append-nil lo) ∙ omega arith,
  AreBytes-append lo (zero_bytes 0) hl (AreBytes-zero_bytes 0),
)
mul_loop-little (x ∷ xs) ys lo l hx hy hl =
    let row = mul_row-Row 0 x ys lo (length xs) l (omega arith) hx.0 hy hl in
    subst
      (λ (m : Bytes).
        StandsFor (little lo + little (x ∷ xs) * little ys)
          (elim m [ [] ↦ [] | d ∷ ds ↦ d ∷ mul_loop xs ys ds ]))
      (sym row.is_out)
      (mul_step xs ys row.out _ row.size row.are_bytes
        (λ ds e h. mul_loop-little xs ys ds e hx.1 hy h)
        (unfold little in grind (arith, row.number)))

pub length-zero_bytes : (k : ℕ) → length (zero_bytes k) ≡ k
unfolding zero_bytes
length-zero_bytes zero = refl
length-zero_bytes (suc k) = omega (arith, length-zero_bytes k)

zero_bytes-append : (m n : ℕ) → zero_bytes (m + n) ≡ zero_bytes n ++ zero_bytes m
unfolding zero_bytes
zero_bytes-append m zero = ap (λ (k : ℕ). zero_bytes k) (omega arith)
zero_bytes-append m (suc n) =
    let e : m + suc n ≡ suc (m + n) = omega arith in
    ap (λ (k : ℕ). zero_bytes k) e ∙ ap (λ (bs : Bytes). 0 ∷ bs) (zero_bytes-append m n)

pub mul_reversed :
    (a b : Bytes)
    → AreBytes a
    → AreBytes b
    → StandsFor
        (little (reverse a) * little (reverse b))
        (mul_loop (reverse a) (reverse b) (zero_bytes (length a + length b)))
mul_reversed a b h k =
    let zeros : zero_bytes (length b) ++ zero_bytes (length (reverse a))
        ≡ zero_bytes (length a + length b) =
      ap (λ (n : ℕ). zero_bytes (length b) ++ zero_bytes n) (length-reverse a)
      ∙ sym (zero_bytes-append (length a) (length b)) in
    let (number, bytes) =
      mul_loop-little (reverse a) (reverse b) (zero_bytes (length b))
        (length-zero_bytes (length b) ∙ sym (length-reverse b)) (AreBytes-reverse a h)
        (AreBytes-reverse b k) (AreBytes-zero_bytes (length b)) in
    subst
      (λ (r : Bytes).
        StandsFor (little (reverse a) * little (reverse b)) (mul_loop (reverse a) (reverse b) r))
      zeros (omega (arith, number, little-zero_bytes (length b)), bytes)

-- mulMag() multiplies the numbers of two byte strings that are not empty.
pub value-mul_mag :
    (a b : Bytes)
    → a ≢ []
    → b ≢ []
    → AreBytes a
    → AreBytes b
    → (value (mul_mag a b) ≡ value a * value b) × AreBytes (mul_mag a b)
unfolding mul_mag value
value-mul_mag [] b n m h k = absurd (n refl)
value-mul_mag (x ∷ a) [] n m h k = absurd (m refl)
value-mul_mag (x ∷ a) (y ∷ b) n m h k =
    let (number, bytes) = mul_reversed (x ∷ a) (y ∷ b) h k in
    let r =
      mul_loop (reverse (x ∷ a)) (reverse (y ∷ b)) (zero_bytes (length (x ∷ a) + length (y ∷ b))) in
    (
      value-strip (reverse r) ∙ (value-reverse r ∙ number),
      AreBytes-strip _ (AreBytes-reverse r bytes),
    )
