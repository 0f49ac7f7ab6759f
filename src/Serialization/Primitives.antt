-- ===== src/Serialization/Primitives.antt =====
-- Each number and each byte string of src/serialization/DataStream.cpp is read back as written.
use kiss_vm_interpreter.Prelude.{
  ℕ, zero, suc, ◌+◌, ◌*◌, ◌/◌, ◌%◌, ◌^◌, ◌<◌, ◌≤◌, ◌≡◌, refl, ap, ◌∙◌, [], ◌∷◌, ◌++◌, Option, some,
  Bytes, length, arith,
}
use native.Mathlib.Nat.{div-div-eq-div-mul, div-le_self}
use kiss_vm_interpreter.Serialization.{
  Reader, Read, bind_option, u_int64_from, split_at?, u_int16_bytes, u_int32_bytes, advance, joined,
  shift_in, read_u_int16, read_u_int32, read_u_int64, read_bytes, read_length_prefixed_bytes,
  read_length_prefixed_string,
}

split_at?-append : (bs rest : Bytes) → split_at? (length bs) (bs ++ rest) ≡ some (bs, rest)
unfolding split_at?
split_at?-append [] rest = refl
split_at?-append (b ∷ bs) rest = rw (split_at?-append bs rest) refl

pub advance-append :
    (bs rest : Bytes) (pos : ℕ)
    → advance (length bs) (record { left = bs ++ rest; pos = pos })
      ≡ some (bs, record { left = rest; pos = pos + length bs })
unfolding advance
advance-append bs rest pos = rw (split_at?-append bs rest) refl

-- After the bytes above the i-th, the loop of readUInt64() has v shifted to the right by them.
shift_in-u_int64_from : (i v : ℕ) → v < 2 ^ 64 → shift_in (v / 256 ^ i) (u_int64_from i v) ≡ v
unfolding shift_in u_int64_from
shift_in-u_int64_from zero v h = omega arith
shift_in-u_int64_from (suc i) v h =
    let e : v / 256 ^ i / 256 ≡ v / 256 ^ suc i =
      div-div-eq-div-mul v (256 ^ i) 256 ∙ ap (λ (x : ℕ). v / x) (grind arith) in
    let w : v / 256 ^ suc i * 256 % 2 ^ 64 + v / 256 ^ i % 256 ≡ v / 256 ^ i =
      omega (arith, e, div-le_self v (256 ^ i)) in
    ap (λ (x : ℕ). shift_in x (u_int64_from i v)) w ∙ shift_in-u_int64_from i v h

length-u_int64_from : (i v : ℕ) → length (u_int64_from i v) ≡ i
unfolding u_int64_from
length-u_int64_from zero v = refl
length-u_int64_from (suc i) v = omega (arith, length-u_int64_from i v)

-- The stream in front of `rest`, n bytes further on.
abbrev pub behind : Bytes → ℕ → ℕ → Reader
behind rest pos n = record { left = rest; pos = pos + n }

pub through :
    {A B : Type 0} (f : A → Read B) {m : Option (A × Reader)} {x : A × Reader}
    → m ≡ some x
    → bind_option m f ≡ f x.0 x.1
through f e = ap (λ o. bind_option o f) e

module _ (rest : Bytes) (pos : ℕ) where
  pub read_u_int16-bytes :
      (v : ℕ)
      → v < 65536
      → read_u_int16 (record { left = u_int16_bytes v ++ rest; pos = pos })
        ≡ some (v, behind rest pos 2)
  unfolding read_u_int16 advance split_at? joined
  read_u_int16-bytes v h = ap (λ (x : ℕ). some (x, behind rest pos 2)) (omega arith)

  pub read_u_int32-bytes :
      (v : ℕ)
      → v < 4294967296
      → read_u_int32 (record { left = u_int32_bytes v ++ rest; pos = pos })
        ≡ some (v, behind rest pos 4)
  unfolding read_u_int32 advance split_at? joined
  read_u_int32-bytes v h = ap (λ (x : ℕ). some (x, behind rest pos 4)) (omega arith)

  pub read_u_int64-bytes :
      (v : ℕ)
      → v < 2 ^ 64
      → read_u_int64 (record { left = u_int64_from 8 v ++ rest; pos = pos })
        ≡ some (v, behind rest pos 8)
  unfolding read_u_int64 advance split_at? u_int64_from
  read_u_int64-bytes v h =
      let z : 0 ≡ v / 256 ^ 8 = omega arith in
      ap (λ (x : ℕ). some (x, behind rest pos 8))
        (ap (λ (x : ℕ). shift_in x (u_int64_from 8 v)) z ∙ shift_in-u_int64_from 8 v h)

-- The bytes behind a length, which is that of v; the length has moved the stream by k.
advance-length :
    (rest : Bytes) (pos k : ℕ) (v : Bytes) (n m : ℕ)
    → n ≡ length v
    → k + length v ≡ m
    → advance n (record { left = v ++ rest; pos = pos + k }) ≡ some (v, behind rest pos m)
advance-length rest pos k v n m e d =
    ap (λ (m : ℕ). advance m (record { left = v ++ rest; pos = pos + k })) e
    ∙ (advance-append v rest (pos + k)
        ∙ ap (λ (p : ℕ). some (v, record { left = rest; pos = p })) (omega arith))

module _ (rest : Bytes) (pos : ℕ) where
  pub read_prefixed_bytes-bytes :
      (v : Bytes)
      → length v < 4294967296
      → read_length_prefixed_bytes
          (record { left = u_int32_bytes (length v % 2 ^ 32) ++ (v ++ rest); pos = pos })
        ≡ some (v, behind rest pos (length (u_int32_bytes 0 ++ v)))
  unfolding read_length_prefixed_bytes
  read_prefixed_bytes-bytes v h =
      through (λ len. read_bytes len)
        (read_u_int32-bytes (v ++ rest) pos (length v % 2 ^ 32) (omega arith))
      ∙ advance-length rest pos 4 v (length v % 2 ^ 32) _ (omega arith) (omega arith)

  pub read_prefixed_string-bytes :
      (v : Bytes)
      → length v ≤ 65535
      → read_length_prefixed_string
          (record { left = u_int16_bytes (length v % 2 ^ 16) ++ (v ++ rest); pos = pos })
        ≡ some (v, behind rest pos (length (u_int16_bytes 0 ++ v)))
  unfolding read_length_prefixed_string
  read_prefixed_string-bytes v h =
      through (λ len. advance len)
        (read_u_int16-bytes (v ++ rest) pos (length v % 2 ^ 16) (omega arith))
      ∙ advance-length rest pos 2 v (length v % 2 ^ 16) _ (omega arith) (omega arith)
