-- ===== src/KissVm/Tokenizer.antt =====
-- src/kissvm/Tokenizer.cpp. A lexer's state is the script from `m_pos` on, with line and column.
pub mod Proper
pub mod Total
pub mod Pieces
pub mod Spaced
mod Tests
use kiss_vm_interpreter.Prelude.{
  ℕ, zero, suc, ◌+◌, Bool, true, false, not, ◌&&◌, ◌||◌, List, [], ◌∷◌, ◌++◌, map, length, ◌==◌,
  if◌then◌else◌, Bytes, codes, one_of, same, is_space, is_digit, is_alpha, is_alnum, is_xdigit,
  to_upper,
}
use kiss_vm_interpreter.KissVm.Token.{
  TokenType, Token, SyntaxError, unterminated_comment, unterminated_string, empty_hex,
  unexpected_character,
}
use kiss_vm_interpreter.KissVm.Scan.{Scan, ok, fail, out_of_fuel, ◌>>=◌}
use mathlib.Core.Option.{Option, none, some}

abbrev pub keywords : List Bytes
keywords = map codes (
    "LET" ∷ "IF" ∷ "THEN" ∷ "ELSE" ∷ "ELSEIF" ∷ "ENDIF" ∷ "WHILE" ∷ "DO" ∷ "ENDWHILE" ∷ "RETURN"
    ∷ "ASSERT" ∷ "EXEC" ∷ "MAST" ∷ [])

abbrev pub boolean_literals : List Bytes
boolean_literals = map codes ("TRUE" ∷ "FALSE" ∷ [])

abbrev pub operator_words : List Bytes
operator_words = map codes (
    "EQ" ∷ "NEQ" ∷ "LT" ∷ "GT" ∷ "LTE" ∷ "GTE" ∷ "AND" ∷ "OR" ∷ "NOT" ∷ "XOR" ∷ "NAND" ∷ "NOR"
    ∷ "LSHIFT" ∷ "RSHIFT" ∷ [])

pub record Lexer : Type 0 where
  pub rest : Bytes
  pub line : ℕ
  pub col : ℕ

-- peek(), also peek(1) from the byte before: a zero byte at the end
abbrev pub first : Bytes → ℕ
first [] = 0
first (c ∷ cs) = c

-- The state after `consume()` has passed the byte `c`.
abbrev pub after : ℕ → Lexer → Bytes → Lexer
after c s cs =
    if c == 10
    then record { rest = cs; line = s.line + 1; col = 1 }
    else record { rest = cs; line = s.line; col = s.col + 1 }

-- consume(), as a change of state
unfoldable pub advance_from : Bytes → Lexer → Lexer
advance_from [] s = s
advance_from (c ∷ cs) s = after c s cs

unfoldable pub consume : Lexer → Lexer
unfolding advance_from
consume s = advance_from s.rest s

-- while (m_pos < m_src.size() && p(peek())) out.push_back(consume());
unfoldable pub take_while : (ℕ → Bool) → Bytes → Lexer → Bytes × Lexer
take_while p [] s = ([], s)
take_while p (c ∷ cs) s =
    let (word, t) = take_while p cs (after c s cs) in if p c then (c ∷ word, t) else ([], s)

-- skipWhitespace()
unfoldable pub skip_whitespace : Lexer → Lexer
unfolding take_while
skip_whitespace s = (take_while is_space s.rest s).1

-- The loop of skipComment(), which needs two bytes to go on.
unfoldable pub comment_body : Bytes → Lexer → Scan Lexer
comment_body [] s = fail (unterminated_comment s.line s.col)
comment_body (c ∷ []) s = fail (unterminated_comment s.line s.col)
comment_body (c ∷ d ∷ cs) s =
    let more = comment_body (d ∷ cs) (after c s (d ∷ cs)) in
    if (c == b'*') && (d == b'/') then ok (after d (after c s (d ∷ cs)) cs) else more

unfoldable pub skip_comment : Lexer → Scan Lexer
unfolding consume comment_body
skip_comment s = let t = consume (consume s) in comment_body t.rest t

abbrev pub token : TokenType → Bytes → Lexer → Token
token k v s = record { type = k; value = v; line = s.line; col = s.col }

unfoldable pub hex_token : Lexer → Bytes → Lexer → Scan (Token × Lexer)
hex_token s [] t = fail (empty_hex s.line s.col)
hex_token s (h ∷ hs) t = ok (token TokenType.hex_literal (b'0' ∷ b'x' ∷ map to_upper (h ∷ hs)) s, t)

unfoldable pub read_hex_literal : Lexer → Scan (Token × Lexer)
unfolding consume take_while hex_token
read_hex_literal s =
    let t = consume (consume s) in let (hex, u) = take_while is_xdigit t.rest t in hex_token s hex u

unfoldable pub in_number : ℕ → Bool
in_number c = is_digit c || (c == b'.')

unfoldable pub read_number_literal : Lexer → Token × Lexer
unfolding consume take_while in_number
read_number_literal s =
    let signed = consume s in
    let (rest_num, t) = take_while in_number signed.rest signed in
    let (num, u) = take_while in_number s.rest s in
    if first s.rest == b'-'
    then (token TokenType.number_literal (b'-' ∷ rest_num) s, t)
    else (token TokenType.number_literal num s, u)

abbrev pub not_bracket : ℕ → Bool
not_bracket c = not (c == b']')

-- The end of readStringLiteral(), at the closing bracket or at the end of the script.
unfoldable pub close_string : Lexer → Bytes → Lexer → Bytes → Scan (Token × Lexer)
close_string s word t [] = fail (unterminated_string s.line s.col)
close_string s word t (c ∷ cs) = ok (token TokenType.string_literal word s, after c t cs)

unfoldable pub read_string_literal : Lexer → Scan (Token × Lexer)
unfolding consume take_while close_string
read_string_literal s =
    let t = consume s in
    let (word, u) = take_while not_bracket t.rest t in close_string s word u u.rest

unfoldable pub in_word : ℕ → Bool
in_word c = is_alnum c || ((c == b'_') || (c == b'@'))

-- tokenFromOperatorWord()
unfoldable pub operator_type : Bytes → TokenType
unfolding same
operator_type w =
    if same w (codes "EQ")
    then TokenType.eq
    else if same w (codes "NEQ")
    then TokenType.neq
    else if same w (codes "LT")
    then TokenType.lt
    else if same w (codes "GT")
    then TokenType.gt
    else if same w (codes "LTE")
    then TokenType.lte
    else if same w (codes "GTE")
    then TokenType.gte
    else if same w (codes "AND")
    then TokenType.and
    else if same w (codes "OR")
    then TokenType.or
    else if same w (codes "NOT")
    then TokenType.not
    else if same w (codes "XOR")
    then TokenType.xor
    else if same w (codes "NAND")
    then TokenType.nand
    else if same w (codes "NOR")
    then TokenType.nor
    else if same w (codes "LSHIFT")
    then TokenType.lshift
    else if same w (codes "RSHIFT")
    then TokenType.rshift
    else TokenType.identifier

-- The classification at the end of readIdentifierOrKeyword(): a name keeps its case.
unfoldable pub classify : Bytes → TokenType × Bytes
unfolding one_of operator_type
classify word =
    let upper = map to_upper word in
    if one_of boolean_literals upper
    then (TokenType.boolean_literal, upper)
    else if one_of keywords upper
    then (TokenType.keyword, upper)
    else if one_of operator_words upper
    then (operator_type upper, upper)
    else (TokenType.identifier, word)

unfoldable pub read_identifier_or_keyword : Lexer → Token × Lexer
unfolding take_while in_word classify
read_identifier_or_keyword s =
    let (word, t) = take_while in_word s.rest s in let (k, v) = classify word in (token k v s, t)

-- The single-byte operators of tokenize(), in its order.
unfoldable pub symbol_type : ℕ → Option TokenType
symbol_type c =
    if c == b'+'
    then some TokenType.plus
    else if c == b'-'
    then some TokenType.minus
    else if c == b'*'
    then some TokenType.multiply
    else if c == b'/'
    then some TokenType.divide
    else if c == b'%'
    then some TokenType.modulo
    else if c == b'('
    then some TokenType.lparen
    else if c == b')'
    then some TokenType.rparen
    else if c == b','
    then some TokenType.comma
    else if c == b'='
    then some TokenType.assign
    else none

abbrev pub found : Token × Lexer → Scan (Option Token × Lexer)
found (t, s) = ok (some t, s)

unfoldable pub starts_word : ℕ → Bool
starts_word c = is_alpha c || ((c == b'_') || (c == b'@'))

unfoldable pub word_or_error : ℕ → Lexer → Scan (Option Token × Lexer)
unfolding starts_word read_identifier_or_keyword
word_or_error c s =
    if starts_word c
    then found (read_identifier_or_keyword s)
    else fail (unexpected_character c s.line s.col)

unfoldable pub symbol_or_word : Option TokenType → ℕ → Lexer → Scan (Option Token × Lexer)
unfolding consume word_or_error
symbol_or_word (some k) c s = found (token k (c ∷ []) s, consume s)
symbol_or_word none c s = word_or_error c s

unfoldable pub starts_number : ℕ → ℕ → Bool
starts_number c d = is_digit c || ((c == b'-') && is_digit d)

-- One round of the loop of tokenize() at a byte `c` with `d` behind it: `none` for a comment.
unfoldable pub scan_token : ℕ → ℕ → Lexer → Scan (Option Token × Lexer)
unfolding skip_comment read_hex_literal read_string_literal read_number_literal starts_number
    symbol_or_word symbol_type
scan_token c d s =
    if (c == b'/') && (d == b'*')
    then (skip_comment s >>= λ t. ok (none, t))
    else if (c == b'0') && ((d == b'x') || (d == b'X'))
    then (read_hex_literal s >>= found)
    else if c == b'['
    then (read_string_literal s >>= found)
    else if starts_number c d
    then found (read_number_literal s)
    else symbol_or_word (symbol_type c) c s

abbrev pub push : Option Token → List Token → List Token
push none ts = ts
push (some t) ts = t ∷ ts

-- The body of the loop of tokenize(), at the script left behind white space; `more` is the loop.
unfoldable pub scan_from : (Lexer → Scan (List Token)) → Bytes → Lexer → Scan (List Token)
unfolding scan_token
scan_from more [] s = ok (token TokenType.end_of_script [] s ∷ [])
scan_from more (c ∷ cs) s = scan_token c (first cs) s >>= λ (o, t). more t >>= λ ts. ok (push o ts)

-- The loop of tokenize(), a unit of fuel to a round.
unfoldable pub scan_tokens : ℕ → Lexer → Scan (List Token)
unfolding skip_whitespace scan_from
scan_tokens zero s = out_of_fuel
scan_tokens (suc f) s = let t = skip_whitespace s in scan_from (scan_tokens f) t.rest t

abbrev pub start : Bytes → Lexer
start src = record { rest = src; line = 1; col = 1 }

unfoldable pub tokenize : Bytes → Scan (List Token)
unfolding scan_tokens
tokenize src = scan_tokens (length src + 1) (start src)
