-- ===== src/KissVm/Tokenizer/Pieces.antt =====
-- src/kissvm/Tokenizer.cpp: a round of the tokenizer at a sign, a word or a number that a space
-- ends.
use kiss_vm_interpreter.Prelude.{
  ℕ, ◌≡◌, ◌≢◌, refl, sym, ap, ◌∙◌, subst, Bool, true, false, ◌&&◌, ◌||◌, List, [], ◌∷◌, ◌++◌, map,
  arith, ◌==◌, Bytes, is_digit, is_alpha, is_alnum,
}
use mathlib.Core.Option.{Option, none, some}
use kiss_vm_interpreter.KissVm.Token.{TokenType, Token}
use kiss_vm_interpreter.KissVm.Scan.{Scan, ok, fail, out_of_fuel}
use kiss_vm_interpreter.KissVm.Tokenizer.{
  Lexer, first, after, take_while, in_number, read_number_literal, in_word, classify,
  read_identifier_or_keyword, symbol_type, starts_word, word_or_error, symbol_or_word,
  starts_number, scan_token, found,
}
use kiss_vm_interpreter.KissVm.Tokenizer.Total.{rest-after, consume-rest}

-- A piece of a script: a sign, a word from its first character on, or a number from its first digit.
pub data Piece : Type 0 where
  sign : TokenType → Piece
  word : ℕ → Bytes → Piece
  number : ℕ → Bytes → Piece

-- The signs of the language.
abbrev pub sign_char : TokenType → ℕ
sign_char TokenType.plus = b'+'
sign_char TokenType.minus = b'-'
sign_char TokenType.multiply = b'*'
sign_char TokenType.divide = b'/'
sign_char TokenType.modulo = b'%'
sign_char TokenType.lparen = b'('
sign_char TokenType.rparen = b')'
sign_char TokenType.comma = b','
sign_char TokenType.assign = b'='
sign_char _ = 0

abbrev pub AreAll : (ℕ → Bool) → Bytes → Type 0
AreAll p [] = Unit
AreAll p (c ∷ w) = (p c ≡ true) × AreAll p w

abbrev pub IsPiece : Piece → Type 0
IsPiece (sign k) = sign_char k ≢ 0
IsPiece (word c w) = (starts_word c ≡ true) × AreAll in_word w
IsPiece (number c w) = (is_digit c ≡ true) × AreAll in_number w

abbrev pub ArePieces : List Piece → Type 0
ArePieces [] = Unit
ArePieces (p ∷ ps) = IsPiece p × ArePieces ps

abbrev pub head : Piece → ℕ
head (sign k) = sign_char k
head (word c w) = c
head (number c w) = c

abbrev pub tail : Piece → Bytes
tail (sign k) = []
tail (word c w) = w
tail (number c w) = w

-- The script, with a space behind each piece.
abbrev pub spaced : List Piece → Bytes
spaced [] = []
spaced (p ∷ ps) = head p ∷ tail p ++ 32 ∷ spaced ps

-- The kind and the text of a piece's token.
abbrev pub seen : Piece → TokenType × Bytes
seen (sign k) = (k, sign_char k ∷ [])
seen (word c w) = classify (c ∷ w)
seen (number c w) = (TokenType.number_literal, c ∷ w)

abbrev pub shown : Token → TokenType × Bytes
shown t = (t.type, t.value)

abbrev pub Tells : List Piece → Scan (List Token) → Type 0
Tells ps (ok ts) = map shown ts ≡ map seen ps ++ (TokenType.end_of_script, []) ∷ []
Tells ps (fail e) = ⊥
Tells ps out_of_fuel = ⊥

-- A round takes the piece.
abbrev pub Takes : Piece → Bytes → Scan (Option Token × Lexer) → Type 0
Takes p cs (ok (some t, u)) = (shown t ≡ seen p) × (u.rest ≡ 32 ∷ cs)
Takes p cs _ = ⊥

taken_while :
    (p : ℕ → Bool) (w cs : Bytes) (s : Lexer)
    → p 32 ≡ false
    → AreAll p w
    → s.rest ≡ w ++ 32 ∷ cs
    → ((take_while p (w ++ 32 ∷ cs) s).0 ≡ w) × ((take_while p (w ++ 32 ∷ cs) s).1.rest ≡ 32 ∷ cs)
unfolding take_while
taken_while p [] cs s n h e = rw n (refl, e)
taken_while p (c ∷ w) cs s n h e =
    let (a, b) =
      taken_while p w cs (after c s (w ++ 32 ∷ cs)) n h.1 (rest-after c s (w ++ 32 ∷ cs)) in
    rw h.0 (ap (λ (v : Bytes). c ∷ v) a, b)

scan_other :
    (c d : ℕ) (s : Lexer)
    → (c == b'/') && (d == b'*') ≡ false
    → (c == b'0') && ((d == b'x') || (d == b'X')) ≡ false
    → c == b'[' ≡ false
    → starts_number c d ≡ false
    → scan_token c d s ≡ symbol_or_word (symbol_type c) c s
unfolding scan_token
scan_other c d s h k l m = rw (h, k, l, m) refl

scan_number :
    (c d : ℕ) (s : Lexer)
    → (c == b'/') && (d == b'*') ≡ false
    → (c == b'0') && ((d == b'x') || (d == b'X')) ≡ false
    → c == b'[' ≡ false
    → starts_number c d ≡ true
    → scan_token c d s ≡ found (read_number_literal s)
unfolding scan_token
scan_number c d s h k l m = rw (h, k, l, m) refl

word_start :
    (c d : ℕ)
    → starts_word c ≡ true
    → ((c == b'/') && (d == b'*') ≡ false)
      × ((c == b'0') && ((d == b'x') || (d == b'X')) ≡ false)
      × (c == b'[' ≡ false)
      × (starts_number c d ≡ false)
      × (symbol_type c ≡ none)
      × (in_word c ≡ true)
unfolding starts_word starts_number symbol_type in_word is_alnum is_alpha is_digit
word_start c d h =
    (ground arith, ground arith, ground arith, ground arith, ground arith, ground arith)

number_start :
    (c d : ℕ)
    → is_digit c ≡ true
    → (d == b'x') || (d == b'X') ≡ false
    → ((c == b'/') && (d == b'*') ≡ false)
      × ((c == b'0') && ((d == b'x') || (d == b'X')) ≡ false)
      × (c == b'[' ≡ false)
      × (starts_number c d ≡ true)
      × (in_number c ≡ true)
      × (c == b'-' ≡ false)
unfolding starts_number in_number is_digit
number_start c d h k =
    (ground arith, ground arith, ground arith, ground arith, ground arith, ground arith)

number_next :
    (w cs : Bytes)
    → AreAll in_number w
    → (first (w ++ 32 ∷ cs) == b'x') || (first (w ++ 32 ∷ cs) == b'X') ≡ false
unfolding in_number is_digit
number_next [] cs h = refl
number_next (c ∷ w) cs h = let k = h.0 in ground arith

not_in_word : in_word 32 ≡ false
unfolding in_word is_alnum
not_in_word = refl

not_in_number : in_number 32 ≡ false
unfolding in_number is_digit
not_in_number = refl

read_word-Takes :
    (c : ℕ) (w cs : Bytes) (s : Lexer)
    → in_word c ≡ true
    → AreAll in_word w
    → s.rest ≡ c ∷ w ++ 32 ∷ cs
    → Takes (word c w) cs (found (read_identifier_or_keyword s))
unfolding read_identifier_or_keyword
read_word-Takes c w cs s h k e =
    let (a, b) = taken_while in_word (c ∷ w) cs s not_in_word (h, k) e in
    let r : take_while in_word s.rest s ≡ take_while in_word (c ∷ w ++ 32 ∷ cs) s =
      ap (λ (x : Bytes). take_while in_word x s) e in
    (
      ap (λ (x : Bytes × Lexer). classify x.0) r ∙ ap classify a,
      ap (λ (x : Bytes × Lexer). x.1.rest) r ∙ b,
    )

read_number-Takes :
    (c : ℕ) (w cs : Bytes) (s : Lexer)
    → in_number c ≡ true
    → c == b'-' ≡ false
    → AreAll in_number w
    → s.rest ≡ c ∷ w ++ 32 ∷ cs
    → Takes (number c w) cs (found (read_number_literal s))
unfolding read_number_literal
read_number-Takes c w cs s h m k e =
    let (a, b) = taken_while in_number (c ∷ w) cs s not_in_number (h, k) e in
    let r : take_while in_number s.rest s ≡ take_while in_number (c ∷ w ++ 32 ∷ cs) s =
      ap (λ (x : Bytes). take_while in_number x s) e in
    let f : first s.rest == b'-' ≡ false = ap (λ (x : Bytes). first x == b'-') e ∙ m in
    rw f (
      ap (λ (x : Bytes × Lexer). (TokenType.number_literal, x.0)) r
          ∙ ap (λ (x : Bytes). (TokenType.number_literal, x)) a,
      ap (λ (x : Bytes × Lexer). x.1.rest) r ∙ b,
    )

scan_sign-Takes :
    (k : TokenType) (cs : Bytes) (s : Lexer)
    → sign_char k ≢ 0
    → s.rest ≡ sign_char k ∷ 32 ∷ cs
    → Takes (sign k) cs (scan_token (sign_char k) 32 s)
unfolding scan_token starts_number symbol_type is_digit symbol_or_word
scan_sign-Takes TokenType.plus cs s h e = (refl, consume-rest _ (32 ∷ cs) s e)
scan_sign-Takes TokenType.minus cs s h e = (refl, consume-rest _ (32 ∷ cs) s e)
scan_sign-Takes TokenType.multiply cs s h e = (refl, consume-rest _ (32 ∷ cs) s e)
scan_sign-Takes TokenType.divide cs s h e = (refl, consume-rest _ (32 ∷ cs) s e)
scan_sign-Takes TokenType.modulo cs s h e = (refl, consume-rest _ (32 ∷ cs) s e)
scan_sign-Takes TokenType.lparen cs s h e = (refl, consume-rest _ (32 ∷ cs) s e)
scan_sign-Takes TokenType.rparen cs s h e = (refl, consume-rest _ (32 ∷ cs) s e)
scan_sign-Takes TokenType.comma cs s h e = (refl, consume-rest _ (32 ∷ cs) s e)
scan_sign-Takes TokenType.assign cs s h e = (refl, consume-rest _ (32 ∷ cs) s e)
scan_sign-Takes _ cs s h e = absurd (h refl)

-- A round at a piece takes it, up to the space behind it.
pub scan_token-Takes :
    (p : Piece) (cs : Bytes) (s : Lexer)
    → IsPiece p
    → s.rest ≡ head p ∷ tail p ++ 32 ∷ cs
    → Takes p cs (scan_token (head p) (first (tail p ++ 32 ∷ cs)) s)
scan_token-Takes (sign k) cs s h e = scan_sign-Takes k cs s h e
scan_token-Takes (word c w) cs s h e =
    let d = first (w ++ 32 ∷ cs) in
    let (p, q, r, t, u, v) = word_start c d h.0 in
    let other : symbol_or_word (symbol_type c) c s ≡ found (read_identifier_or_keyword s) =
      unfold symbol_or_word word_or_error in rw (u, h.0) refl in
    subst (Takes (word c w) cs) (sym (scan_other c d s p q r t ∙ other))
      (read_word-Takes c w cs s v h.1 e)
scan_token-Takes (number c w) cs s h e =
    let d = first (w ++ 32 ∷ cs) in
    let (p, q, r, t, u, v) = number_start c d h.0 (number_next w cs h.1) in
    subst (Takes (number c w) cs) (sym (scan_number c d s p q r t))
      (read_number-Takes c w cs s u v h.1 e)
