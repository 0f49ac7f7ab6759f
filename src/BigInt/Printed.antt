-- ===== src/BigInt/Printed.antt =====
-- The decimal digits that toDecimalString() of class BigInt (src/types/MiniNumber.cpp) prints.
use kiss_vm_interpreter.Prelude.{
  ℕ, zero, suc, ◌+◌, ◌-◌, ◌*◌, ◌/◌, ◌%◌, ◌≤◌, ◌<◌, ◌≡◌, refl, sym, ap, ◌∙◌, Bool, true, false, ◌||◌,
  [], ◌∷◌, Bytes, length, ltb, if_ind, arith,
}
use kiss_vm_interpreter.BigInt.Value.{little, value, base, AreBytes, value-cons, value-lt-base}
use kiss_vm_interpreter.BigInt.Signed.{is_zero_mag}
use kiss_vm_interpreter.BigInt.SignMag.{value-zero_mag}
use kiss_vm_interpreter.BigInt.Decimal.{tenth, decimal_loop}

-- The number of a text of digits, behind the number n.
unfoldable pub dec : ℕ → Bytes → ℕ
dec n [] = n
dec n (c ∷ s) = dec (10 * n + (c - 48)) s

abbrev pub AreDigits : Bytes → Type 0
AreDigits [] = Unit
AreDigits (c ∷ s) = (48 ≤ c) × (c ≤ 57) × AreDigits s

unfoldable pub ten_power : ℕ → ℕ
ten_power zero = 1
ten_power (suc n) = 10 * ten_power n

-- A division of bytes by ten.
record Tenth (r : ℕ) (started : Bool) (bs q : Bytes) (out : ℕ) : Type 0 where
  number : 10 * value q + out ≡ r * base (length bs) + value bs
  less : out < 10
  size : started ≡ true → length q ≡ length bs
  bytes : AreBytes q

pushed_digit :
    (v b q p vb out : ℕ) → 10 * q + out ≡ v % 10 * p + vb → 10 * (v / 10 * p + q) + out ≡ v * p + vb
pushed_digit v b q p vb out e =
    let d : v ≡ 10 * (v / 10) + v % 10 = omega arith in
    let m : v * p ≡ (10 * (v / 10) + v % 10) * p = ap (λ (n : ℕ). n * p) d in grind (arith, e, m)

tenth_step :
    (q r b p vb vc big : ℕ)
    → q ≡ (r * 256 + b) * p + vb
    → vc ≡ b * p + vb
    → big ≡ 256 * p
    → q ≡ r * big + vc
tenth_step q r b p vb vc big e f g =
    let m : r * big ≡ r * (256 * p) = ap (λ (n : ℕ). r * n) g in grind (arith, e, f, m)

tenth-Tenth :
    (r : ℕ) (started : Bool) (bs : Bytes)
    → AreBytes bs
    → r < 10
    → Tenth r started bs (tenth r started bs).0 (tenth r started bs).1
unfolding tenth
tenth-Tenth r started [] h lt = record {
  number = unfold value little base in omega arith;
  less = lt;
  size = λ e. refl;
  bytes = tt;
}
tenth-Tenth r started (b ∷ bs) h lt =
    let v = r * 256 + b in
    let pushing = started || ltb 0 (v / 10) in
    let rest = tenth-Tenth (v % 10) pushing bs h.1 (omega arith) in
    let q = (tenth (v % 10) pushing bs).0 in
    let out = (tenth (v % 10) pushing bs).1 in
    let n = rest.number in
    let c = value-cons b bs in
    let big : base (length (b ∷ bs)) ≡ 256 * base (length bs) = unfold base in refl in
    if_ind (λ x. Tenth r started (b ∷ bs) x out) pushing
      (λ e.
        let d : v / 10 % 256 ≡ v / 10 = omega arith in
        let s = rest.size e in
        let f : value ((v / 10 % 256) ∷ q) ≡ v / 10 * base (length bs) + value q =
          value-cons (v / 10 % 256) q
          ∙ ap (λ (l : ℕ). v / 10 % 256 * base l + value q) s
          ∙ ap (λ (x : ℕ). x * base (length bs) + value q) d in
        let g = pushed_digit v b (value q) (base (length bs)) (value bs) out n in
        record {
          number = ap (λ (x : ℕ). 10 * x + out) f ∙ tenth_step _ r b _ _ _ _ g c big;
          less = rest.less;
          size = λ _. ap (λ (x : ℕ). suc x) s;
          bytes = (omega arith, rest.bytes);
        })
      (λ e.
        let z : ltb 0 (v / 10) ≡ false = ground arith in
        let small : v % 10 ≡ v = ground arith in
        let n' : 10 * value q + out ≡ v * base (length bs) + value bs =
          n ∙ ap (λ (x : ℕ). x * base (length bs) + value bs) small in
        record {
          number = tenth_step _ r b _ _ _ _ n' c big;
          less = rest.less;
          size = λ s. ground arith;
          bytes = rest.bytes;
        })

-- The text goes on with the quotient's digits, or ends.
next_digits :
    (q text more : Bytes) (n : ℕ)
    → dec (value q) text ≡ n
    → AreDigits text
    → (dec 0 more ≡ dec (value q) text) × AreDigits more
    → let out : Bytes = elim q [ [] ↦ text | d ∷ ds ↦ more ] in (dec 0 out ≡ n) × AreDigits out
next_digits [] text more n e h k = (unfold value little in e, h)
next_digits (d ∷ ds) text more n e h k = (k.0 ∙ e, k.1)

AreDigits-decimal_loop :
    (f : ℕ) (rem text : Bytes)
    → AreBytes rem
    → AreDigits text
    → value rem < ten_power f
    → (dec 0 (decimal_loop f rem text) ≡ dec (value rem) text) × AreDigits (decimal_loop f rem text)
unfolding decimal_loop ten_power
AreDigits-decimal_loop zero rem text h k lt =
    let z : value rem ≡ 0 = omega arith in (ap (λ n. dec n text) (sym z), k)
AreDigits-decimal_loop (suc f) rem text h k lt =
    let q = (tenth 0 false rem).0 in
    let r = (tenth 0 false rem).1 in
    let t = tenth-Tenth 0 false rem h (omega arith) in
    let n : 10 * value q + r ≡ value rem = t.number ∙ omega arith in
    let less = t.less in
    let text' = (48 + r) ∷ text in
    let digits : AreDigits text' = (omega arith, omega arith, k) in
    let next : dec (value q) text' ≡ dec (value rem) text =
      unfold dec in ap (λ (x : ℕ). dec x text) (omega (arith, n)) in
    if_ind (λ x. (dec 0 x ≡ dec (value rem) text) × AreDigits x) (is_zero_mag rem)
      (λ e. (ap (λ (x : ℕ). dec x text) (sym (value-zero_mag rem e)), k))
      (λ e.
        next_digits q text' (decimal_loop f q text') _ next digits
          (AreDigits-decimal_loop f q text' t.bytes digits (omega (arith, n))))

-- The text of a magnitude, with the rounds that to_decimal_string() is given.
next_power : (k : ℕ) → ten_power (suc k) ≡ 10 * ten_power k
unfolding ten_power
next_power k = refl

three_more : (k : ℕ) → ten_power (3 + k) ≡ 1000 * ten_power k
unfolding ten_power
three_more k =
    let e : ten_power (3 + k) ≡ ten_power (suc (suc (suc k))) =
      ap ten_power {y = suc (suc (suc k))} (omega arith) in
    e ∙ omega arith

ten_powers : (n : ℕ) → base n ≤ ten_power (3 * n)
unfolding base ten_power
ten_powers zero = omega arith
ten_powers (suc n) =
    let three : ten_power (3 * suc n) ≡ ten_power (3 + 3 * n) = ap ten_power (omega arith) in
    let out : ten_power (3 + 3 * n) ≡ 1000 * ten_power (3 * n) = three_more (3 * n) in
    omega (arith, three, out, ten_powers n)

pub decimal_digits :
    (m : Bytes)
    → AreBytes m
    → let s = decimal_loop (3 * length m + 1) m [] in (dec 0 s ≡ value m) × AreDigits s
decimal_digits m h =
    let more : ten_power (3 * length m + 1) ≡ 10 * ten_power (3 * length m) =
      ap ten_power (omega arith) ∙ next_power (3 * length m) in
    let (e, d) =
      AreDigits-decimal_loop (3 * length m + 1) m [] h tt
        (omega (arith, more, ten_powers (length m), value-lt-base m h)) in
    (e ∙ unfold dec in refl, d)
