-- ===== src/KissVm/Functions/RoundTrip.antt =====
-- Functions of src/kissvm/functions/Functions.cpp that undo each other.
use kiss_vm_interpreter.Prelude.{
  ℕ, ◌+◌, ◌≤◌, ◌<◌, ◌≡◌, inl, inr, refl, sym, ap, ◌∙◌, subst, false, [], ◌∷◌, ◌++◌, Bytes, Option,
  none, some, length, length-append, if_ind, arith, ltb, leb, ◌==◌,
}
use kiss_vm_interpreter.Prelude.Int.{ℤ, pos, nat_abs}
use kiss_vm_interpreter.BigInt.Mag.{strip_leading_zeros}
use kiss_vm_interpreter.BigInt.Value.{value, value-strip, value-cons}
use kiss_vm_interpreter.BigInt.Signed.{is_negative}
use kiss_vm_interpreter.BigInt.Integer.{integer, IsBigInt}
use kiss_vm_interpreter.BigInt.Signs.{integer-nonneg}
use kiss_vm_interpreter.KissVm.Value.{number, hex}
use kiss_vm_interpreter.MiniNumber.{MiniNumber, take, drop, of_long, make, from_bytes}
use kiss_vm_interpreter.MiniNumber.Derived.{to_bytes, get_as_long}
use kiss_vm_interpreter.MiniNumber.Longs.{IsLong, get_as_long-of_long}
use kiss_vm_interpreter.BigInt.Printed.{ten_power}
use kiss_vm_interpreter.MiniNumber.Room.{HasRoom}
use kiss_vm_interpreter.MiniNumber.Arithmetic.{Computes, make-Computes}
use kiss_vm_interpreter.KissVm.Functions.{Result, and_number, with_long}
use kiss_vm_interpreter.KissVm.Functions.Strings.{concat, subset, slice, and_hex}
use kiss_vm_interpreter.KissVm.Functions.Convert.{num_to_hex, hex_to_num}

take-append : (a b : Bytes) → take (length a) (a ++ b) ≡ a
take-append [] b = refl
take-append (c ∷ a) b = ap (λ (s : Bytes). c ∷ s) (take-append a b)

drop-append : (a b : Bytes) → drop (length a) (a ++ b) ≡ b
drop-append [] b = refl
drop-append (c ∷ a) b = drop-append a b

take_all : (a : Bytes) → take (length a) a ≡ a
take_all [] = refl
take_all (c ∷ a) = ap (λ (s : Bytes). c ∷ s) (take_all a)

-- A slice in range.
slice_lem :
    (s : Bytes) (i n : ℕ) → i + n ≤ length s → slice s (pos i) (pos n) ≡ some (take n (drop i s))
slice_lem s i n h =
    if_ind (λ r. r ≡ some (take n (drop i s))) (ltb (length s) (i + n)) (λ e. absurd (ground arith))
      (λ e. refl)

subset_lem :
    (s : Bytes) (i n : ℕ)
    → IsLong (pos i)
    → IsLong (pos n)
    → subset (hex s ∷ number (of_long (pos i)) ∷ number (of_long (pos n)) ∷ [])
      ≡ and_hex (slice s (pos i) (pos n))
unfolding subset with_long
subset_lem s i n h k =
    ap (λ (p : ℤ). and_hex (slice s p (get_as_long (of_long (pos n)))))
      (get_as_long-of_long (pos i) h)
    ∙ ap (λ (q : ℤ). and_hex (slice s (pos i) q)) (get_as_long-of_long (pos n) k)

-- SUBSET takes both parts out of what CONCAT puts together, where the lengths that LEN gives fit a
-- long.
pub subset-concat :
    (a b : Bytes)
    → IsLong (pos (length a))
    → IsLong (pos (length b))
    → (concat (hex a ∷ hex b ∷ []) ≡ some (hex (a ++ b)))
      × (subset (hex (a ++ b) ∷ number (of_long (pos 0)) ∷ number (of_long (pos (length a))) ∷ [])
          ≡ some (hex a))
      × (subset (
            hex (a ++ b)
            ∷ number (of_long (pos (length a)))
            ∷ number (of_long (pos (length b)))
            ∷ [])
          ≡ some (hex b))
subset-concat a b h k =
    let size = length-append a b in
    let first = slice_lem (a ++ b) 0 (length a) (omega (arith, size)) in
    let second = slice_lem (a ++ b) (length a) (length b) (omega (arith, size)) in
    (
      unfold concat in refl,
      subset_lem (a ++ b) 0 (length a) (omega arith, omega arith) h
          ∙ ap and_hex (first ∙ ap (λ (s : Bytes). some s) (take-append a b)),
      subset_lem (a ++ b) (length a) (length b) h k
          ∙ ap and_hex (
              second
              ∙ ap (λ (s : Bytes). some (take (length b) s)) (drop-append a b)
              ∙ ap (λ (s : Bytes). some s) (take_all b)),
    )

-- A magnitude as the bytes of a number that is not negative.
from_bytes-Computes :
    (d : Bytes)
    → IsBigInt d
    → HasRoom (pos (value d)) (pos 0)
    → Computes (pos (value d)) (pos 0) (from_bytes d)
unfolding from_bytes
from_bytes-Computes [] h room = absurd h
from_bytes-Computes (b ∷ bs) h room =
    if_ind (λ u. Computes (pos (value (b ∷ bs))) (pos 0) (make u (pos 0))) (leb 128 b)
      (λ e.
        make-Computes (0 ∷ b ∷ bs) _ _
          (
            integer-nonneg (0 ∷ b ∷ bs) (unfold is_negative in refl)
                ∙ ap pos (value-cons 0 (b ∷ bs) ∙ omega arith),
            (omega arith, h),
          )
          (omega arith) room)
      (λ e.
        make-Computes (b ∷ bs) _ _ (integer-nonneg (b ∷ bs) (unfold is_negative in e), h)
          (omega arith) room)

to_bytes-IsBigInt : (u : Bytes) → IsBigInt u → IsBigInt (strip_leading_zeros u)
unfolding strip_leading_zeros
to_bytes-IsBigInt [] h = h
to_bytes-IsBigInt (b ∷ []) h = h
to_bytes-IsBigInt (b ∷ c ∷ bs) h =
    if_ind (λ r. IsBigInt r) (b == 0) (λ e. to_bytes-IsBigInt (c ∷ bs) h.1) (λ e. h)

abbrev pub ComputesNumber : ℤ → Result → Type 0
ComputesNumber v none = ⊥
ComputesNumber v (some (number x)) = Computes v (pos 0) (some x)
ComputesNumber v (some _) = ⊥

number_result :
    (v : ℤ) (o : Option MiniNumber) → Computes v (pos 0) o → ComputesNumber v (and_number o)
number_result v none (inl h) = absurd (cc (h.1))
number_result v none (inr h) = h
number_result v (some x) h = h

-- NUMTOHEX of a number that is not negative and has no more digits than an int can count gives bytes, and HEXTONUM of them gives its unscaled number at
-- the scale 0: zero, or the first 64 digits of it.
pub hex_to_num-num_to_hex :
    (a : MiniNumber)
    → IsBigInt a.unscaled
    → is_negative a.unscaled ≡ false
    → nat_abs (integer a.unscaled) < ten_power 2147483648
    → (num_to_hex (number a ∷ []) ≡ some (hex (to_bytes a)))
      × ComputesNumber (integer a.unscaled) (hex_to_num (hex (to_bytes a) ∷ []))
hex_to_num-num_to_hex a h e lt =
    let u = a.unscaled in
    let d = strip_leading_zeros u in
    let v : pos (value d) ≡ integer u = ap pos (value-strip u) ∙ sym (integer-nonneg u e) in
    (
      unfold num_to_hex in refl,
      unfold hex_to_num to_bytes in
          number_result (integer u) (from_bytes d) (
            subst (λ i. Computes i (pos 0) (from_bytes d)) v
              (from_bytes-Computes d (to_bytes-IsBigInt u h)
                (subst (λ i. HasRoom i (pos 0)) (sym v) (2147483648, lt, omega arith)))),
    )
