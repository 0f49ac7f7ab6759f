-- ===== src/BigInt/Sum.antt =====
-- addMag() and subMag() of class BigInt (src/types/MiniNumber.cpp) add and subtract.
use kiss_vm_interpreter.Prelude.{
  ℕ, ◌+◌, ◌*◌, ◌/◌, ◌≤◌, ◌<◌, ◌≡◌, ap, ◌∙◌, [], ◌∷◌, Bytes, length, leb, ◌==◌, if_ind, arith,
  reverse,
}
use mathlib.Core.List.{reverse-reverse}
use kiss_vm_interpreter.BigInt.Mag.{add_loop, add_mag, sub_loop, sub_mag, sub_byte, borrow_of}
use kiss_vm_interpreter.BigInt.Value.{
  little, value, AreBytes, AreBytes-reverse, length-reverse, value-strip, AreBytes-strip,
}

add_loop-little :
    (carry : ℕ) (xs ys : Bytes)
    → carry ≤ 1
    → AreBytes xs
    → AreBytes ys
    → length ys ≤ length xs
    → little (add_loop carry xs ys) ≡ carry + little xs + little ys
unfolding add_loop little
add_loop-little carry [] [] c h k l = ground arith
add_loop-little carry [] (y ∷ ys) c h k l = absurd (omega arith)
add_loop-little carry (x ∷ xs) [] c h k l =
    omega (arith, add_loop-little ((x + carry) / 256) xs [] (omega arith) h.1 tt (omega arith))
add_loop-little carry (x ∷ xs) (y ∷ ys) c h k l =
    omega (arith, add_loop-little ((x + carry + y) / 256) xs ys (omega arith) h.1 k.1 (omega arith))

add_loop-AreBytes : (carry : ℕ) (xs ys : Bytes) → AreBytes (add_loop carry xs ys)
unfolding add_loop
add_loop-AreBytes carry [] ys = if_ind AreBytes (carry == 0) (λ e. tt) (λ e. (omega arith, tt))
add_loop-AreBytes carry (x ∷ xs) [] = (omega arith, add_loop-AreBytes ((x + carry) / 256) xs [])
add_loop-AreBytes carry (x ∷ xs) (y ∷ ys) =
    (omega arith, add_loop-AreBytes ((x + carry + y) / 256) xs ys)

pub value-reverse : (xs : Bytes) → value (reverse xs) ≡ little xs
unfolding value
value-reverse xs = ap little (reverse-reverse xs)

-- The longer one first.
add_ordered :
    (a b : Bytes)
    → AreBytes a
    → AreBytes b
    → length b ≤ length a
    → value (reverse (add_loop 0 (reverse a) (reverse b))) ≡ value a + value b
unfolding value
add_ordered a b h k l =
    value-reverse (add_loop 0 (reverse a) (reverse b))
    ∙ omega (
      arith,
      add_loop-little 0 (reverse a) (reverse b) (omega arith) (AreBytes-reverse a h)
          (AreBytes-reverse b k) (omega (arith, length-reverse a, length-reverse b)),
    )

-- addMag() adds the numbers of two byte strings, of whatever lengths.
pub value-add_mag :
    (a b : Bytes) → AreBytes a → AreBytes b → value (add_mag a b) ≡ value a + value b
unfolding add_mag
value-add_mag a b h k =
    if_ind (λ r. value r ≡ value a + value b) (leb (length b) (length a))
      (λ e. add_ordered a b h k (ground arith))
      (λ e. omega (arith, add_ordered b a k h (ground arith)))

pub add_mag-AreBytes : (a b : Bytes) → AreBytes (add_mag a b)
unfolding add_mag
add_mag-AreBytes a b =
    if_ind AreBytes (leb (length b) (length a))
      (λ e. AreBytes-reverse _ (add_loop-AreBytes 0 (reverse a) (reverse b)))
      (λ e. AreBytes-reverse _ (add_loop-AreBytes 0 (reverse b) (reverse a)))

-- A byte of subMag() and its borrow.
sub_byte_lem :
    (x take : ℕ) → x < 256 → take ≤ 256 → sub_byte x take + take ≡ x + 256 * borrow_of x take
sub_byte_lem x take h k = ground arith

sub_byte-lt : (x take : ℕ) → x < 256 → take ≤ 256 → sub_byte x take < 256
sub_byte-lt x take h k = ground arith

borrow_of-le : (x take : ℕ) → borrow_of x take ≤ 1
borrow_of-le x take = ground arith

sub_loop-little :
    (borrow : ℕ) (xs ys : Bytes)
    → borrow ≤ 1
    → AreBytes xs
    → AreBytes ys
    → length ys ≤ length xs
    → borrow + little ys ≤ little xs
    → little (sub_loop borrow xs ys) + borrow + little ys ≡ little xs
unfolding sub_loop little
sub_loop-little borrow [] [] b h k l le = omega arith
sub_loop-little borrow [] (y ∷ ys) b h k l le = absurd (omega arith)
sub_loop-little borrow (x ∷ xs) [] b h k l le =
    let e = sub_byte_lem x borrow h.0 (omega arith) in
    let lt = sub_byte-lt x borrow h.0 (omega arith) in
    let c = borrow_of-le x borrow in
    omega (
      arith,
      sub_loop-little (borrow_of x borrow) xs [] c h.1 tt (omega arith) (omega (arith, e, c, lt)),
      e,
    )
sub_loop-little borrow (x ∷ xs) (y ∷ ys) b h k l le =
    let e = sub_byte_lem x (borrow + y) h.0 (omega arith) in
    let lt = sub_byte-lt x (borrow + y) h.0 (omega arith) in
    let c = borrow_of-le x (borrow + y) in
    omega (
      arith,
      sub_loop-little (borrow_of x (borrow + y)) xs ys c h.1 k.1 (omega arith)
          (omega (arith, e, c, lt)),
      e,
    )

sub_loop-AreBytes :
    (borrow : ℕ) (xs ys : Bytes)
    → borrow ≤ 1
    → AreBytes xs
    → AreBytes ys
    → AreBytes (sub_loop borrow xs ys)
unfolding sub_loop
sub_loop-AreBytes borrow [] ys b h k = tt
sub_loop-AreBytes borrow (x ∷ xs) [] b h k = (
  sub_byte-lt x borrow h.0 (omega arith),
  sub_loop-AreBytes (borrow_of x borrow) xs [] (borrow_of-le x borrow) h.1 tt,
)
sub_loop-AreBytes borrow (x ∷ xs) (y ∷ ys) b h k = (
  sub_byte-lt x (borrow + y) h.0 (omega arith),
  sub_loop-AreBytes (borrow_of x (borrow + y)) xs ys (borrow_of-le x (borrow + y)) h.1 k.1,
)

-- subMag() subtracts a number that is not above, written with no more bytes.
pub value-sub_mag :
    (a b : Bytes)
    → AreBytes a
    → AreBytes b
    → length b ≤ length a
    → value b ≤ value a
    → value (sub_mag a b) + value b ≡ value a
unfolding sub_mag value
value-sub_mag a b h k l le =
    let e =
      sub_loop-little 0 (reverse a) (reverse b) (omega arith) (AreBytes-reverse a h)
        (AreBytes-reverse b k) (omega (arith, length-reverse a, length-reverse b)) (omega arith) in
    omega (
      arith,
      e,
      value-reverse (sub_loop 0 (reverse a) (reverse b)),
      value-strip (reverse (sub_loop 0 (reverse a) (reverse b))),
    )

pub sub_mag-AreBytes : (a b : Bytes) → AreBytes a → AreBytes b → AreBytes (sub_mag a b)
unfolding sub_mag
sub_mag-AreBytes a b h k = AreBytes-strip _ (
    AreBytes-reverse _ (
      sub_loop-AreBytes 0 (reverse a) (reverse b) (omega arith) (AreBytes-reverse a h)
        (AreBytes-reverse b k)))
