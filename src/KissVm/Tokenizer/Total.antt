-- ===== src/KissVm/Tokenizer/Total.antt =====
-- Every round of the tokenizer's loop moves on in the script, so its fuel always suffices.
use kiss_vm_interpreter.Prelude.{
  ℕ, zero, suc, ◌+◌, ◌≤◌, ◌<◌, ◌≡◌, refl, ap, Bool, true, ◌&&◌, ◌||◌, List, [], ◌∷◌, length, arith,
  ◌==◌, Bytes, is_xdigit, is_space, is_alnum,
}
use kiss_vm_interpreter.KissVm.Tokenizer.Proper.{IsTokenList, push-IsTokenList, scan_token-IsProper}
use mathlib.Core.Option.{Option, none, some}
use kiss_vm_interpreter.KissVm.Token.{TokenType, Token}
use kiss_vm_interpreter.KissVm.Scan.{
  Scan, Ends, gives, raises, Ends-if, Ends-bind, Ends-map, Ends-both,
}
use kiss_vm_interpreter.KissVm.Tokenizer.{
  Lexer, first, after, consume, advance_from, take_while, skip_whitespace, comment_body,
  skip_comment, hex_token, read_hex_literal, in_number, read_number_literal, not_bracket,
  close_string, read_string_literal, in_word, read_identifier_or_keyword, symbol_type, starts_word,
  symbol_or_word, starts_number, scan_token, scan_from, scan_tokens, tokenize, start,
}

-- The script that is left, in bytes.
abbrev left : Lexer → ℕ
left s = length s.rest

pub rest-after : (c : ℕ) (s : Lexer) (cs : Bytes) → (after c s cs).rest ≡ cs
rest-after c s cs = ground arith

take_while-le :
    (p : ℕ → Bool) (cs : Bytes) (s : Lexer) → s.rest ≡ cs → left (take_while p cs s).1 ≤ length cs
unfolding take_while
take_while-le p [] s h = ground arith
take_while-le p (c ∷ cs) s h = ground (arith, take_while-le p cs (after c s cs))

advance_from-le : (cs : Bytes) (s : Lexer) → s.rest ≡ cs → left (advance_from cs s) ≤ length cs
unfolding advance_from
advance_from-le [] s h = ground arith
advance_from-le (c ∷ cs) s h = ground arith

take_while-lt :
    (p : ℕ → Bool) (c : ℕ) (cs : Bytes) (s : Lexer)
    → p c ≡ true
    → left (take_while p (c ∷ cs) s).1 ≤ length cs
unfolding take_while
take_while-lt p c cs s h = ground (arith, take_while-le p cs (after c s cs), rest-after c s cs)

pub consume-rest : (c : ℕ) (cs : Bytes) (s : Lexer) → s.rest ≡ c ∷ cs → (consume s).rest ≡ cs
unfolding consume advance_from
consume-rest c cs s h = rw (h, advance_from) (rest-after c s cs)

-- A round leaves fewer than `n` bytes of the script.
abbrev Moves {ℓ} : {A : Type ℓ} → ℕ → Scan (A × Lexer) → Type ℓ
Moves n r = Ends (λ u. left u.1 < n) r

comment_body-Ends :
    (cs : Bytes) (s : Lexer) (n : ℕ)
    → s.rest ≡ cs
    → length cs ≤ n
    → Ends (λ t. left t ≤ n) (comment_body cs s)
unfolding comment_body
comment_body-Ends [] s n h le = raises
comment_body-Ends (c ∷ []) s n h le = raises
comment_body-Ends (c ∷ d ∷ cs) s n h le =
    Ends-if ((c == b'*') && (d == b'/'))
      (λ _. gives (rw (rest-after d (after c s (d ∷ cs)) cs) (omega arith)))
      (λ _.
        comment_body-Ends (d ∷ cs) (after c s (d ∷ cs)) n (rest-after c s (d ∷ cs)) (omega arith))

consume-le : (s : Lexer) → left (consume s) ≤ left s
unfolding consume
consume-le s = advance_from-le s.rest s refl

hex_token-Moves :
    (s : Lexer) (hex : Bytes) (t : Lexer) (n : ℕ) → left t ≤ n → Moves (suc n) (hex_token s hex t)
unfolding hex_token
hex_token-Moves s [] t n h = raises
hex_token-Moves s (c ∷ cs) t n h = gives (omega arith)

close_string-Moves :
    (s : Lexer) (word : Bytes) (t : Lexer) (cs : Bytes) (n : ℕ)
    → length cs ≤ n
    → Moves (suc n) (close_string s word t cs)
unfolding close_string
close_string-Moves s word t [] n h = raises
close_string-Moves s word t (c ∷ cs) n h =
    gives {a = (_, after c t cs)} (rw (rest-after c t cs) (omega arith))

starts_word→in_word : (c : ℕ) → starts_word c ≡ true → in_word c ≡ true
unfolding starts_word in_word is_alnum
starts_word→in_word c h = ground arith

module _ (c : ℕ) (cs : Bytes) (s : Lexer) (h : s.rest ≡ c ∷ cs) where
  left-consume : left (consume s) ≡ length cs
  left-consume = ap length (consume-rest c cs s h)

  left-consume_twice : left (consume (consume s)) ≤ length cs
  left-consume_twice = ground (arith, consume-le (consume s), left-consume)

  skip_comment-Ends : Ends (λ t. left t < suc (length cs)) (skip_comment s)
  unfolding skip_comment
  skip_comment-Ends =
      Ends-map
        (comment_body-Ends (consume (consume s)).rest (consume (consume s)) (length cs) refl
          left-consume_twice)
        (λ t k. omega arith)

  read_hex_literal-Moves : Moves (suc (length cs)) (read_hex_literal s)
  unfolding read_hex_literal
  read_hex_literal-Moves =
      let t = consume (consume s) in
      hex_token-Moves s (take_while is_xdigit t.rest t).0 (take_while is_xdigit t.rest t).1
        (length cs) (omega (arith, take_while-le is_xdigit t.rest t refl, left-consume_twice))

  read_string_literal-Moves : Moves (suc (length cs)) (read_string_literal s)
  unfolding read_string_literal
  read_string_literal-Moves =
      let t = consume s in
      let u = (take_while not_bracket t.rest t).1 in
      close_string-Moves s (take_while not_bracket t.rest t).0 u u.rest (length cs)
        (omega (arith, take_while-le not_bracket t.rest t refl, left-consume))

  read_number_literal-lt :
      starts_number c (first cs) ≡ true → left (read_number_literal s).1 < suc (length cs)
  unfolding read_number_literal starts_number
  read_number_literal-lt k = ground (
    arith,
    h,
    left-consume,
    take_while-le in_number (consume s).rest (consume s),
    take_while-lt in_number c cs s,
  )

  read_identifier_or_keyword-lt :
      starts_word c ≡ true → left (read_identifier_or_keyword s).1 < suc (length cs)
  unfolding read_identifier_or_keyword starts_word
  read_identifier_or_keyword-lt k =
      simp h (omega (arith, take_while-lt in_word c cs s (starts_word→in_word c k)))

symbol_or_word-Moves :
    (c : ℕ) (cs : Bytes) (s : Lexer)
    → s.rest ≡ c ∷ cs
    → (o : Option TokenType) → Moves (suc (length cs)) (symbol_or_word o c s)
unfolding symbol_or_word
symbol_or_word-Moves c cs s h (some k) = gives (omega (arith, left-consume c cs s h))
symbol_or_word-Moves c cs s h none =
    Ends-if (starts_word c) (λ k. gives (read_identifier_or_keyword-lt c cs s h k)) (λ _. raises)

-- A round gives a value, if it gives one, with fewer bytes of the script left.
scan_token-Moves :
    (c : ℕ) (cs : Bytes) (s : Lexer)
    → s.rest ≡ c ∷ cs
    → Moves (suc (length cs)) (scan_token c (first cs) s)
unfolding scan_token
scan_token-Moves c cs s h =
    Ends-if ((c == b'/') && (first cs == b'*'))
      (λ _. Ends-bind (skip_comment-Ends c cs s h) (λ t k. gives k))
      (λ _.
        Ends-if ((c == b'0') && ((first cs == b'x') || (first cs == b'X')))
          (λ _. Ends-bind (read_hex_literal-Moves c cs s h) (λ (t, u) k. gives k))
          (λ _.
            Ends-if (c == b'[')
              (λ _. Ends-bind (read_string_literal-Moves c cs s h) (λ (t, u) k. gives k))
              (λ _.
                Ends-if (starts_number c (first cs))
                  (λ k. gives (read_number_literal-lt c cs s h k))
                  (λ _. symbol_or_word-Moves c cs s h (symbol_type c)))))

skip_whitespace-le : (s : Lexer) → left (skip_whitespace s) ≤ left s
unfolding skip_whitespace
skip_whitespace-le s = take_while-le is_space s.rest s refl

scan_from-Ends :
    (more : Lexer → Scan (List Token)) (cs : Bytes) (s : Lexer)
    → s.rest ≡ cs
    → ((t : Lexer) → left t < length cs → Ends IsTokenList (more t))
    → Ends IsTokenList (scan_from more cs s)
unfolding scan_from
scan_from-Ends more [] s h k = gives refl
scan_from-Ends more (c ∷ cs) s h k =
    Ends-bind (Ends-both (scan_token-Moves c cs s h) (scan_token-IsProper c (first cs) s))
      (λ (o, t) (lt, proper).
        Ends-bind (k t lt) (λ ts good. gives (push-IsTokenList o t ts proper good)))

scan_tokens-Ends : (f : ℕ) (s : Lexer) → left s < f → Ends IsTokenList (scan_tokens f s)
unfolding scan_tokens
scan_tokens-Ends zero s h = absurd (omega arith)
scan_tokens-Ends (suc f) s h =
    let t = skip_whitespace s in
    scan_from-Ends (scan_tokens f) t.rest t refl
      (λ u lt. scan_tokens-Ends f u (omega (arith, skip_whitespace-le s)))

-- For every script the tokenizer throws one of its errors or returns tokens that are spelled as
-- their kinds demand (a hexadecimal literal is "0x" and one or more hexadecimal digits, a keyword
-- and a Boolean literal one of the listed words, and none of the kinds that the language does not
-- use) with END_OF_SCRIPT last and nowhere else; the model's fuel always suffices.
pub tokenize-IsTokenList : (src : Bytes) → Ends IsTokenList (tokenize src)
unfolding tokenize
tokenize-IsTokenList src = scan_tokens-Ends (length src + 1) (start src) (omega arith)
