-- ===== src/KissVm/Tokenizer/Proper.antt =====
-- The spelling of the tokens that src/kissvm/Tokenizer.cpp makes, by kind.
use kiss_vm_interpreter.Prelude.{
  ℕ, ◌≡◌, refl, ◌≢◌, Bool, true, ◌&&◌, ◌||◌, List, [], ◌∷◌, map, arith, ◌==◌, Bytes, codes, same,
  one_of, is_xdigit, to_upper, if_ind,
}
use mathlib.Core.Option.{Option, none, some}
use kiss_vm_interpreter.KissVm.Token.{TokenType, Token}
use kiss_vm_interpreter.KissVm.Scan.{Scan, ◌>>=◌, Ends, gives, raises, Ends-if, Ends-bind}
use kiss_vm_interpreter.KissVm.Tokenizer.{
  Lexer, push, found, comment_body, in_word, first, after, consume, take_while, skip_comment,
  hex_token, read_hex_literal, read_number_literal, not_bracket, close_string, read_string_literal,
  operator_type, classify, symbol_type, starts_word, symbol_or_word, starts_number, scan_token,
  keywords, boolean_literals, operator_words,
}

unfoldable pub all : (ℕ → Bool) → Bytes → Bool
all p [] = true
all p (c ∷ cs) = p c && all p cs

-- "0x" and at least one hexadecimal digit: what the interpreter cuts off and converts.
abbrev pub IsHexLiteral : Bytes → Type 0
IsHexLiteral v = (h : Bytes) × (v ≡ b'0' ∷ b'x' ∷ h) × (h ≢ []) × (all is_xdigit h ≡ true)

-- The spellings of each kind of token; the kinds that no rule makes have none.
abbrev pub IsProper : TokenType → Bytes → Type 0
IsProper TokenType.hex_literal v = IsHexLiteral v
IsProper TokenType.boolean_literal v = one_of boolean_literals v ≡ true
IsProper TokenType.keyword v = one_of keywords v ≡ true
IsProper TokenType.end_of_script v = ⊥
IsProper TokenType.unknown v = ⊥
IsProper TokenType.colon v = ⊥
IsProper TokenType.amp v = ⊥
IsProper TokenType.pipe v = ⊥
IsProper TokenType.caret v = ⊥
IsProper TokenType.tilde v = ⊥
IsProper _ v = Unit {0}

abbrev IsProperToken : Token → Type 0
IsProperToken t = IsProper t.type t.value

abbrev pub IsProperRound : Option Token × Lexer → Type 0
IsProperRound (none, s) = Unit {0}
IsProperRound (some t, s) = IsProper t.type t.value

is_xdigit-to_upper : (c : ℕ) → is_xdigit c ≡ true → is_xdigit (to_upper c) ≡ true
unfolding is_xdigit to_upper
is_xdigit-to_upper c h = ground arith

all-map-to_upper : (cs : Bytes) → all is_xdigit cs ≡ true → all is_xdigit (map to_upper cs) ≡ true
unfolding all
all-map-to_upper [] h = refl
all-map-to_upper (c ∷ cs) h = ground (arith, all-map-to_upper cs, is_xdigit-to_upper c)

all-take_while : (p : ℕ → Bool) (cs : Bytes) (s : Lexer) → all p (take_while p cs s).0 ≡ true
unfolding all take_while
all-take_while p [] s = refl
all-take_while p (c ∷ cs) s = ground (arith, all-take_while p cs (after c s cs))

hex_token-Ends :
    (s : Lexer) (hex : Bytes) (t : Lexer)
    → all is_xdigit hex ≡ true
    → Ends (λ u. IsProperToken u.0) (hex_token s hex t)
unfolding hex_token
hex_token-Ends s [] t h = raises
hex_token-Ends s (c ∷ cs) t h = gives (map to_upper (c ∷ cs), refl, cc, all-map-to_upper (c ∷ cs) h)

close_string-Ends :
    (s : Lexer) (word : Bytes) (t : Lexer) (cs : Bytes)
    → Ends (λ u. IsProperToken u.0) (close_string s word t cs)
unfolding close_string
close_string-Ends s word t [] = raises
close_string-Ends s word t (c ∷ cs) = gives tt

-- An operator word has one of the types whose spelling is free.
abbrev IsFree : TokenType → Type 0
IsFree k = (v : Bytes) → IsProper k v

operator_type-IsFree : (w : Bytes) → IsFree (operator_type w)
unfolding operator_type
operator_type-IsFree w =
    if_ind IsFree (same w (codes "EQ")) (λ _ _. tt)
      (λ _.
        if_ind IsFree (same w (codes "NEQ")) (λ _ _. tt)
          (λ _.
            if_ind IsFree (same w (codes "LT")) (λ _ _. tt)
              (λ _.
                if_ind IsFree (same w (codes "GT")) (λ _ _. tt)
                  (λ _.
                    if_ind IsFree (same w (codes "LTE")) (λ _ _. tt)
                      (λ _.
                        if_ind IsFree (same w (codes "GTE")) (λ _ _. tt)
                          (λ _.
                            if_ind IsFree (same w (codes "AND")) (λ _ _. tt)
                              (λ _.
                                if_ind IsFree (same w (codes "OR")) (λ _ _. tt)
                                  (λ _.
                                    if_ind IsFree (same w (codes "NOT")) (λ _ _. tt)
                                      (λ _.
                                        if_ind IsFree (same w (codes "XOR")) (λ _ _. tt)
                                          (λ _.
                                            if_ind IsFree (same w (codes "NAND")) (λ _ _. tt)
                                              (λ _.
                                                if_ind IsFree (same w (codes "NOR")) (λ _ _. tt)
                                                  (λ _.
                                                    if_ind IsFree (same w (codes "LSHIFT"))
                                                      (λ _ _. tt)
                                                      (λ _.
                                                        if_ind IsFree (same w (codes "RSHIFT"))
                                                          (λ _ _. tt) (λ _ _. tt))))))))))))))

abbrev IsProperPair : TokenType × Bytes → Type 0
IsProperPair (k, v) = IsProper k v

classify-IsProper : (w : Bytes) → IsProperPair (classify w)
unfolding classify
classify-IsProper w =
    let upper = map to_upper w in
    if_ind IsProperPair (one_of boolean_literals upper) (λ h. h)
      (λ _.
        if_ind IsProperPair (one_of keywords upper) (λ h. h)
          (λ _.
            if_ind IsProperPair (one_of operator_words upper)
              (λ _. operator_type-IsFree upper upper) (λ _. tt)))

read_number_literal-IsProper : (s : Lexer) → IsProperToken (read_number_literal s).0
unfolding read_number_literal
read_number_literal-IsProper s =
    if_ind (λ (r : Token × Lexer). IsProperToken r.0) (first s.rest == b'-') (λ _. tt) (λ _. tt)

abbrev IsFreeSymbol : Option TokenType → Type 0
IsFreeSymbol none = Unit {0}
IsFreeSymbol (some k) = IsFree k

symbol_type-IsFree : (c : ℕ) → IsFreeSymbol (symbol_type c)
unfolding symbol_type
symbol_type-IsFree c =
    if_ind IsFreeSymbol (c == b'+') (λ _ _. tt)
      (λ _.
        if_ind IsFreeSymbol (c == b'-') (λ _ _. tt)
          (λ _.
            if_ind IsFreeSymbol (c == b'*') (λ _ _. tt)
              (λ _.
                if_ind IsFreeSymbol (c == b'/') (λ _ _. tt)
                  (λ _.
                    if_ind IsFreeSymbol (c == b'%') (λ _ _. tt)
                      (λ _.
                        if_ind IsFreeSymbol (c == b'(') (λ _ _. tt)
                          (λ _.
                            if_ind IsFreeSymbol (c == b')') (λ _ _. tt)
                              (λ _.
                                if_ind IsFreeSymbol (c == b',') (λ _ _. tt)
                                  (λ _.
                                    if_ind IsFreeSymbol (c == b'=') (λ _ _. tt) (λ _. tt)))))))))

symbol_or_word-Ends :
    (o : Option TokenType) (c : ℕ) (s : Lexer)
    → IsFreeSymbol o
    → Ends IsProperRound (symbol_or_word o c s)
unfolding symbol_or_word
symbol_or_word-Ends (some k) c s h = gives (h (c ∷ []))
symbol_or_word-Ends none c s h =
    Ends-if (starts_word c) (λ _. gives (classify-IsProper (take_while in_word s.rest s).0))
      (λ _. raises)

found-Ends :
    {r : Scan (Token × Lexer)} → Ends (λ u. IsProperToken u.0) r → Ends IsProperRound (r >>= found)
found-Ends h = Ends-bind h (λ (t, s) k. gives k)

comment_body-Ends : (cs : Bytes) (s : Lexer) → Ends (λ t. Unit {0}) (comment_body cs s)
unfolding comment_body
comment_body-Ends [] s = raises
comment_body-Ends (c ∷ []) s = raises
comment_body-Ends (c ∷ d ∷ cs) s =
    Ends-if ((c == b'*') && (d == b'/')) (λ _. gives tt)
      (λ _. comment_body-Ends (d ∷ cs) (after c s (d ∷ cs)))

skip_comment-Ends : (s : Lexer) → Ends (λ t. Unit {0}) (skip_comment s)
unfolding skip_comment
skip_comment-Ends s = comment_body-Ends (consume (consume s)).rest (consume (consume s))

read_hex_literal-Ends : (s : Lexer) → Ends (λ u. IsProperToken u.0) (read_hex_literal s)
unfolding read_hex_literal
read_hex_literal-Ends s =
    let t = consume (consume s) in
    hex_token-Ends s (take_while is_xdigit t.rest t).0 (take_while is_xdigit t.rest t).1
      (all-take_while is_xdigit t.rest t)

read_string_literal-Ends : (s : Lexer) → Ends (λ u. IsProperToken u.0) (read_string_literal s)
unfolding read_string_literal
read_string_literal-Ends s =
    let t = consume s in
    let u = take_while not_bracket t.rest t in close_string-Ends s u.0 u.1 u.1.rest

-- The token that a round gives, if it gives one, is properly spelled.
pub scan_token-IsProper : (c d : ℕ) (s : Lexer) → Ends IsProperRound (scan_token c d s)
unfolding scan_token
scan_token-IsProper c d s =
    Ends-if ((c == b'/') && (d == b'*')) (λ _. Ends-bind (skip_comment-Ends s) (λ t k. gives tt))
      (λ _.
        Ends-if ((c == b'0') && ((d == b'x') || (d == b'X')))
          (λ _. found-Ends (read_hex_literal-Ends s))
          (λ _.
            Ends-if (c == b'[') (λ _. found-Ends (read_string_literal-Ends s))
              (λ _.
                Ends-if (starts_number c d) (λ _. gives (read_number_literal-IsProper s))
                  (λ _. symbol_or_word-Ends (symbol_type c) c s (symbol_type-IsFree c)))))

-- Properly spelled tokens, and END_OF_SCRIPT behind the last of them.
abbrev pub IsTokenList : List Token → Type 0
IsTokenList [] = ⊥
IsTokenList (t ∷ []) = t.type ≡ TokenType.end_of_script
IsTokenList (t ∷ u ∷ ts) = IsProper t.type t.value × IsTokenList (u ∷ ts)

pub push-IsTokenList :
    (o : Option Token) (s : Lexer) (ts : List Token)
    → IsProperRound (o, s)
    → IsTokenList ts
    → IsTokenList (push o ts)
push-IsTokenList none s ts h k = k
push-IsTokenList (some t) s [] h k = absurd k
push-IsTokenList (some t) s (u ∷ ts) h k = (h, k)
