-- ===== src/KissVm/Functions/SetBits.antt =====
-- BITSET and BITGET of src/kissvm/functions/Functions.cpp agree.
use kiss_vm_interpreter.Prelude.{
  ℕ, zero, suc, ◌-◌, ◌*◌, ◌/◌, ◌%◌, ◌<◌, ◌≡◌, ◌≢◌, refl, ap, ◌∙◌, Bool, true, false, [], ◌∷◌, Bytes,
  some, length, get_elem?, if_ind, arith, ltb,
}
use kiss_vm_interpreter.Prelude.Int.{ℤ, pos}
use kiss_vm_interpreter.BigInt.Value.{AreBytes}
use kiss_vm_interpreter.KissVm.Value.{number, hex, boolean, is_true}
use kiss_vm_interpreter.KissVm.Numbers.{mini_numbers}
use kiss_vm_interpreter.MiniNumber.{MiniNumber}
use kiss_vm_interpreter.MiniNumber.Derived.{get_as_long}
use kiss_vm_interpreter.KissVm.Functions.{V, with_long}
use kiss_vm_interpreter.KissVm.Functions.Bits.{
  byte_index, bit_index, bit, set_bit, set_at, bit_set_at, bit_set, bit_at, bit_get,
}

-- A bit of a byte after it was set or cleared.
bit-set_bit : (i b : ℕ) (val : Bool) → i < 8 → b < 256 → bit i (set_bit i val b) ≡ val
bit-set_bit zero b true low h = ground arith
bit-set_bit zero b false low h = ground arith
bit-set_bit (suc zero) b true low h = ground arith
bit-set_bit (suc zero) b false low h = ground arith
bit-set_bit (suc (suc zero)) b true low h = ground arith
bit-set_bit (suc (suc zero)) b false low h = ground arith
bit-set_bit (suc (suc (suc zero))) b true low h = ground arith
bit-set_bit (suc (suc (suc zero))) b false low h = ground arith
bit-set_bit (suc (suc (suc (suc zero)))) b true low h = ground arith
bit-set_bit (suc (suc (suc (suc zero)))) b false low h = ground arith
bit-set_bit (suc (suc (suc (suc (suc zero))))) b true low h = ground arith
bit-set_bit (suc (suc (suc (suc (suc zero))))) b false low h = ground arith
bit-set_bit (suc (suc (suc (suc (suc (suc zero)))))) b true low h = ground arith
bit-set_bit (suc (suc (suc (suc (suc (suc zero)))))) b false low h = ground arith
bit-set_bit (suc (suc (suc (suc (suc (suc (suc zero))))))) b true low h = ground arith
bit-set_bit (suc (suc (suc (suc (suc (suc (suc zero))))))) b false low h = ground arith
bit-set_bit (suc (suc (suc (suc (suc (suc (suc (suc i)))))))) b val low h = absurd (omega arith)

bit_at-set_at :
    (k i : ℕ) (val : Bool) (bytes : Bytes)
    → i < 8
    → k < length bytes
    → AreBytes bytes
    → bit_at (some k) i (set_at k i val bytes) ≡ val
unfolding set_at
bit_at-set_at k i val [] low lt h = absurd (omega arith)
bit_at-set_at zero i val (b ∷ bs) low lt h = bit-set_bit i b val low h.0
bit_at-set_at (suc k) i val (b ∷ bs) low lt h = bit_at-set_at k i val bs low (omega arith) h.1

length-set_at :
    (k i : ℕ) (val : Bool) (bytes : Bytes) → length (set_at k i val bytes) ≡ length bytes
unfolding set_at
length-set_at k i val [] = refl
length-set_at zero i val (b ∷ bs) = refl
length-set_at (suc k) i val (b ∷ bs) = ap (λ (m : ℕ). suc m) (length-set_at k i val bs)

-- The other bytes stay, and their number.
other_bytes :
    (k i j : ℕ) (val : Bool) (bytes : Bytes)
    → j ≢ k
    → (get_elem? (set_at k i val bytes) j ≡ get_elem? bytes j)
      × (length (set_at k i val bytes) ≡ length bytes)
unfolding set_at
other_bytes k i j val [] n = (refl, refl)
other_bytes zero i zero val (b ∷ bs) n = absurd (n refl)
other_bytes zero i (suc j) val (b ∷ bs) n = (refl, refl)
other_bytes (suc k) i zero val (b ∷ bs) n = (refl, ap (λ (m : ℕ). suc m) (length-set_at k i val bs))
other_bytes (suc k) i (suc j) val (b ∷ bs) n =
    let (e, l) = other_bytes k i j val bs (λ z. n (ap (λ (m : ℕ). suc m) z)) in
    (e, ap (λ (m : ℕ). suc m) l)

not_within : (k n : ℕ) → k < n → ltb k n ≢ false
not_within k n lt z = ground arith

bit_set_lem :
    (x : MiniNumber) (v : V) (n : ℕ) (bytes : Bytes)
    → get_as_long x ≡ pos n
    → n / 8 < length bytes
    → bit_set (hex bytes ∷ number x ∷ v ∷ [])
      ≡ some (hex (set_at (n / 8) (7 - n % 8) (is_true mini_numbers v) bytes))
unfolding bit_set with_long
bit_set_lem x v n bytes e lt =
    ap (λ (p : ℤ). bit_set_at (byte_index p) (bit_index p) (is_true mini_numbers v) bytes) e
    ∙ if_ind (λ r. r ≡ some (hex (set_at (n / 8) (7 - n % 8) (is_true mini_numbers v) bytes)))
        (ltb (n / 8) (length bytes)) (λ _. refl) (λ z. absurd (not_within _ _ lt z))

bit_get_lem :
    (x : MiniNumber) (n : ℕ) (bytes : Bytes)
    → get_as_long x ≡ pos n
    → bit_get (hex bytes ∷ number x ∷ []) ≡ some (boolean (bit_at (some (n / 8)) (7 - n % 8) bytes))
unfolding bit_get with_long
bit_get_lem x n bytes e =
    ap (λ (p : ℤ). some (boolean (bit_at (byte_index p) (bit_index p) bytes))) e

-- BITSET at a position within the bytes throws nothing, changes no other byte and not their number, and
-- BITGET then gives the bit that was set.
pub bit_get-bit_set :
    (x : MiniNumber) (v : V) (n j : ℕ) (bytes : Bytes)
    → get_as_long x ≡ pos n
    → n < 8 * length bytes
    → AreBytes bytes
    → j ≢ n / 8
    → let out = set_at (n / 8) (7 - n % 8) (is_true mini_numbers v) bytes in
      (bit_set (hex bytes ∷ number x ∷ v ∷ []) ≡ some (hex out))
      × (bit_get (hex out ∷ number x ∷ []) ≡ some (boolean (is_true mini_numbers v)))
      × (length out ≡ length bytes)
      × (get_elem? out j ≡ get_elem? bytes j)
bit_get-bit_set x v n j bytes e lt h ne =
    let val = is_true mini_numbers v in
    let out = set_at (n / 8) (7 - n % 8) val bytes in
    (
      bit_set_lem x v n bytes e (omega arith),
      bit_get_lem x n out e
          ∙ ap (λ (b : Bool). some (boolean b))
              (bit_at-set_at (n / 8) (7 - n % 8) val bytes (omega arith) (omega arith) h),
      length-set_at (n / 8) (7 - n % 8) val bytes,
      (other_bytes (n / 8) (7 - n % 8) j val bytes ne).0,
    )
