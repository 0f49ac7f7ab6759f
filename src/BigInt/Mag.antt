-- ===== src/BigInt/Mag.antt =====
-- The magnitude routines of class BigInt (src/types/MiniNumber.cpp): big-endian bytes without a
-- sign. A loop from the last byte to the first runs over the reversed list.
use kiss_vm_interpreter.Prelude.{
  ℕ, zero, suc, ◌+◌, ◌-◌, ◌*◌, ◌/◌, ◌%◌, Bool, [], ◌∷◌, ◌++◌, Bytes, length, ltb, leb, ◌==◌,
  if◌then◌else◌, reverse,
}

-- Zeros in front of another byte go.
unfoldable pub strip_leading_zeros : Bytes → Bytes
strip_leading_zeros [] = []
strip_leading_zeros (b ∷ []) = b ∷ []
strip_leading_zeros (b ∷ c ∷ bs) =
    let rest = strip_leading_zeros (c ∷ bs) in if b == 0 then rest else b ∷ c ∷ bs

-- The sign of compareAbsMag(): first the sizes, then memcmp.
pub data Order : Type 0 where
  below equal above : Order

unfoldable pub memcmp : Bytes → Bytes → Order
memcmp [] bs = equal
memcmp (a ∷ us) [] = equal
memcmp (a ∷ us) (b ∷ bs) =
    let rest = memcmp us bs in if a == b then rest else if ltb a b then below else above

unfoldable pub compare_abs_mag : Bytes → Bytes → Order
unfolding memcmp
compare_abs_mag a b =
    if length a == length b then memcmp a b else if ltb (length a) (length b) then below else above

-- The loop of addMag() and the carry that is left, from the last bytes of both. The first list is
-- the longer one; a byte that the second does not have counts as 0.
unfoldable pub add_loop : ℕ → Bytes → Bytes → Bytes
add_loop carry [] small = if carry == 0 then [] else (carry % 256) ∷ []
add_loop carry (x ∷ big) [] = ((x + carry) % 256) ∷ add_loop ((x + carry) / 256) big []
add_loop carry (x ∷ big) (y ∷ small) =
    ((x + carry + y) % 256) ∷ add_loop ((x + carry + y) / 256) big small

unfoldable pub add_mag : Bytes → Bytes → Bytes
unfolding add_loop
add_mag a b =
    if leb (length b) (length a)
    then reverse (add_loop 0 (reverse a) (reverse b))
    else reverse (add_loop 0 (reverse b) (reverse a))

-- One byte of subMag(): the byte and the borrow, where `take` is what is taken from x.
abbrev pub sub_byte : ℕ → ℕ → ℕ
sub_byte x take = if ltb x take then x + 256 - take else x - take

abbrev pub borrow_of : ℕ → ℕ → ℕ
borrow_of x take = if ltb x take then 1 else 0

unfoldable pub sub_loop : ℕ → Bytes → Bytes → Bytes
sub_loop borrow [] ys = []
sub_loop borrow (x ∷ xs) [] = sub_byte x borrow ∷ sub_loop (borrow_of x borrow) xs []
sub_loop borrow (x ∷ xs) (y ∷ ys) =
    sub_byte x (borrow + y) ∷ sub_loop (borrow_of x (borrow + y)) xs ys

unfoldable pub sub_mag : Bytes → Bytes → Bytes
unfolding sub_loop strip_leading_zeros
sub_mag a b = strip_leading_zeros (reverse (sub_loop 0 (reverse a) (reverse b)))

-- The inner loop of mulMag() for one byte x of a: the bytes of r from where the row begins.
unfoldable pub mul_row : ℕ → ℕ → Bytes → Bytes → Bytes
mul_row carry x [] [] = []
mul_row carry x [] (d ∷ r) = ((d + carry) % 256) ∷ r
mul_row carry x (y ∷ ys) [] = []
mul_row carry x (y ∷ ys) (d ∷ r) =
    ((d + x * y + carry) % 256) ∷ mul_row ((d + x * y + carry) / 256) x ys r

-- A row leaves its first byte as it will stay; the next row begins behind it.
unfoldable pub mul_loop : Bytes → Bytes → Bytes → Bytes
unfolding mul_row
mul_loop [] ys r = r
mul_loop (x ∷ xs) ys r = elim (mul_row 0 x ys r) [ [] ↦ [] | d ∷ ds ↦ d ∷ mul_loop xs ys ds ]

unfoldable pub zero_bytes : ℕ → Bytes
zero_bytes zero = []
zero_bytes (suc k) = 0 ∷ zero_bytes k

unfoldable pub mul_mag : Bytes → Bytes → Bytes
unfolding mul_loop strip_leading_zeros zero_bytes
mul_mag [] b = 0 ∷ []
mul_mag (x ∷ a) [] = 0 ∷ []
mul_mag (x ∷ a) (y ∷ b) = strip_leading_zeros (
    reverse
      (mul_loop (reverse (x ∷ a)) (reverse (y ∷ b)) (zero_bytes (length (x ∷ a) + length (y ∷ b)))))

-- compareAbsMag(t, rem) <= 0
abbrev pub at_most : Order → Bool
at_most below = Bool.true
at_most equal = Bool.true
at_most above = Bool.false

-- The binary search for the largest digit whose multiple of b is not above rem, in `f` rounds.
unfoldable pub search_digit : ℕ → Bytes → Bytes → ℕ → ℕ → ℕ
unfolding mul_mag compare_abs_mag
search_digit zero b rem lo hi = lo
search_digit (suc f) b rem lo hi =
    let mid = (lo + hi + 1) / 2 in
    let right = search_digit f b rem mid hi in
    let left = search_digit f b rem lo (mid - 1) in
    if ltb lo hi
    then if at_most (compare_abs_mag (mul_mag b (mid ∷ [])) rem) then right else left
    else lo

-- if (v.empty()) v = {0}; behind a strip
unfoldable pub or_zero : Bytes → Bytes
or_zero [] = 0 ∷ []
or_zero (b ∷ bs) = b ∷ bs

abbrev pub stripped : Bytes → Bytes
stripped bs = or_zero (strip_leading_zeros bs)

-- One round of divmodMag(): the digit of the quotient, and the remainder. Eight rounds narrow the
-- range from 0 to 255 to one digit.
unfoldable pub div_digit : Bytes → Bytes → ℕ
unfolding search_digit
div_digit b rem = search_digit 8 b rem 0 255

unfoldable pub next_rem : Bytes → Bytes → ℕ → Bytes
unfolding sub_mag mul_mag
next_rem b rem lo = if ltb 0 lo then sub_mag rem (mul_mag b (lo ∷ [])) else rem

unfoldable pub divmod_loop : Bytes → Bytes → Bytes → Bytes × Bytes
unfolding strip_leading_zeros or_zero div_digit next_rem
divmod_loop b [] rem = ([], rem)
divmod_loop b (d ∷ a) rem =
    let r = stripped (rem ++ d ∷ []) in
    let lo = div_digit b r in let (q, out) = divmod_loop b a (next_rem b r lo) in (lo ∷ q, out)

unfoldable pub divmod_long : Bytes → Bytes → Bytes × Bytes
unfolding divmod_loop strip_leading_zeros or_zero
divmod_long a b = let (q, rem) = divmod_loop b a [] in (stripped q, stripped rem)

-- divmodMag(): the quotient and the remainder
unfoldable pub divmod_mag : Bytes → Bytes → Bytes × Bytes
unfolding compare_abs_mag divmod_long
divmod_mag a b = elim (compare_abs_mag a b) [
  | below ↦ (0 ∷ [], a)
  | equal ↦ divmod_long a b
  | above ↦ divmod_long a b
]
