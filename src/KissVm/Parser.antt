-- ===== src/KissVm/Parser.antt =====
-- src/kissvm/Parser.cpp. A parser's state is the token list from `m_pos` on; `m_tokens.back()` is
-- always the token that the constructor appends.
pub mod Statements
pub mod Expressions
pub mod Total
pub mod Grammar
pub mod Precedence
pub mod Phrases
pub mod Trees
mod Tests
use kiss_vm_interpreter.Prelude.{
  ℕ, zero, suc, ◌+◌, Bool, true, false, not, ◌&&◌, ◌||◌, List, [], ◌∷◌, ◌++◌, map, length, ◌==◌,
  if◌then◌else◌, Bytes, codes, same, to_upper,
}
use kiss_vm_interpreter.KissVm.Token.{TokenType, Token, is, SyntaxError, expected, unexpected_token}
use kiss_vm_interpreter.KissVm.Scan
use kiss_vm_interpreter.KissVm.Scan.{Scan, ok, fail, out_of_fuel}
use kiss_vm_interpreter.KissVm.Node.{NodeKind, Node, Nodes, node, nil, cons, make_node}

abbrev pub Tokens : Type 0
Tokens = List Token

abbrev pub Parser {ℓ} : Type ℓ → Type ℓ
Parser A = Tokens → Scan (A × Tokens)

abbrev pub pure {ℓ} : {A : Type ℓ} → A → Parser A
pure a ts = ok (a, ts)

infixl 5 ◌>>=◌ ◌>>◌
abbrev pub ◌>>=◌ {ℓ κ} : {A : Type ℓ} {B : Type κ} → Parser A → (A → Parser B) → Parser B
◌>>=◌ p f ts = Scan.◌>>=◌ (p ts) (λ (a, us). f a us)

abbrev pub ◌>>◌ {ℓ κ} : {A : Type ℓ} {B : Type κ} → Parser A → Parser B → Parser B
p >> q = p >>= λ _. q

-- A loop gets a unit of fuel more than there are tokens.
abbrev pub fuelled {ℓ} : {A : Type ℓ} → (ℕ → Parser A) → Parser A
fuelled p ts = p (length ts + 1) ts

-- m_tokens.back()
abbrev pub eof : Token
eof = record { type = TokenType.end_of_script; value = codes "<EOF>"; line = 0; col = 0 }

unfoldable pub peek : Tokens → Token
peek [] = eof
peek (t ∷ ts) = t

unfoldable pub look : Parser Token
unfolding peek
look ts = ok (peek ts, ts)

unfoldable pub consume : Parser Token
consume [] = ok (eof, [])
consume (t ∷ ts) = ok (t, ts)

unfoldable pub check : TokenType → Tokens → Bool
check k [] = false
check k (t ∷ ts) = is t.type k

-- The test of checkKeyword() and of tokenIsBlockEnd() at one token.
unfoldable pub is_keyword : Bytes → Token → Bool
is_keyword kw t = is t.type TokenType.keyword && same t.value kw

unfoldable pub check_keyword : Bytes → Tokens → Bool
unfolding is_keyword
check_keyword kw [] = false
check_keyword kw (t ∷ ts) = is_keyword kw t

unfoldable pub at_end : Tokens → Bool
at_end [] = true
at_end (t ∷ ts) = is t.type TokenType.end_of_script

unfoldable pub token_is_block_end : Token → Bool
token_is_block_end t =
    if is t.type TokenType.keyword
    then same t.value (codes "ENDIF")
      || (same t.value (codes "ELSE")
          || (same t.value (codes "ELSEIF") || same t.value (codes "ENDWHILE")))
    else is t.type TokenType.end_of_script

-- expect(): the message names what was wanted and the token that stands there.
unfoldable pub expect : TokenType → Bytes → Parser Token
unfolding check consume peek
expect k what ts = if check k ts then consume ts else fail (expected what (peek ts))

-- match(): the token is passed if it is there.
unfoldable pub skip_if : TokenType → Parser (Unit {0})
skip_if k [] = ok (tt, [])
skip_if k (t ∷ ts) = if is t.type k then ok (tt, ts) else ok (tt, t ∷ ts)

-- The loop that parseOr, parseAnd, parseCmp, parseAdd and parseMul share.
unfoldable pub chain : (TokenType → Bool) → Parser Node → ℕ → Node → Parser Node
chain op sub zero left ts = out_of_fuel
chain op sub (suc f) left [] = ok (left, [])
chain op sub (suc f) left (t ∷ ts) =
    let more = Scan.◌>>=◌ (sub ts) (λ (right, us).
      chain op sub f (make_node NodeKind.binary t (cons left (cons right nil))) us) in
    if op t.type then more else ok (left, t ∷ ts)

abbrev pub is_or : TokenType → Bool
is_or k = is k TokenType.or || (is k TokenType.nor || is k TokenType.xor)

abbrev pub is_and : TokenType → Bool
is_and k = is k TokenType.and || is k TokenType.nand

abbrev pub is_cmp : TokenType → Bool
is_cmp k =
    is k TokenType.eq
    || (is k TokenType.neq
        || (is k TokenType.lt || (is k TokenType.gt || (is k TokenType.lte || is k TokenType.gte))))

abbrev pub is_add : TokenType → Bool
is_add k = is k TokenType.plus || is k TokenType.minus

abbrev pub is_mul : TokenType → Bool
is_mul k = is k TokenType.multiply || (is k TokenType.divide || is k TokenType.modulo)

-- left = sub(); then the loop
unfoldable pub level : (TokenType → Bool) → Parser Node → Parser Node
unfolding chain
level op sub = do left ← sub; fuelled (λ f. chain op sub f left)

-- The methods below call parseExpr() again at a parenthesis: it is their argument `expr`.
-- The loop of parseFuncall(): commas between arguments may be left out.
unfoldable pub parse_args : Parser Node → ℕ → Parser Nodes
unfolding skip_if check
parse_args expr zero ts = out_of_fuel
parse_args expr (suc f) ts = Scan.◌>>=◌ (skip_if TokenType.comma ts) (λ (_, us).
    let more =
      Scan.◌>>=◌ (expr us)
        (λ (arg, vs). Scan.◌>>=◌ (parse_args expr f vs) (λ (args, ws). ok (cons arg args, ws))) in
    if check TokenType.rparen us then ok (nil, us) else more)

-- if (!check(RPAREN)) { the first argument; the loop }
unfoldable pub parse_arguments : Parser Node → Parser Nodes
unfolding check parse_args
parse_arguments expr ts =
    if check TokenType.rparen ts
    then ok (nil, ts)
    else ◌>>=◌ expr (λ arg. fuelled (parse_args expr) >>= λ args. pure (cons arg args)) ts

unfoldable pub parse_funcall : Parser Node → Token → Parser Node
unfolding expect parse_arguments
parse_funcall expr name_token = do
  expect TokenType.lparen (codes "(")
  args ← parse_arguments expr
  expect TokenType.rparen (codes ")")
  pure (node NodeKind.call name_token args (map to_upper name_token.value) false)

abbrev pub first_byte : Bytes → ℕ
first_byte [] = 0
first_byte (c ∷ cs) = c

-- parsePrimary() behind an identifier
unfoldable pub parse_identifier : Parser Node → Token → Parser Node
unfolding parse_funcall check
parse_identifier expr t ts =
    if first_byte t.value == b'@'
    then ok (node NodeKind.var t nil t.value false, ts)
    else if check TokenType.lparen ts
    then parse_funcall expr t ts
    else ok (node NodeKind.var t nil t.value false, ts)

unfoldable pub parse_parenthesized : Parser Node → Parser Node
unfolding expect
parse_parenthesized expr = do e ← expr; expect TokenType.rparen (codes ")"); pure e

unfoldable pub parse_primary : Parser Node → Parser Node
unfolding parse_identifier parse_parenthesized
parse_primary expr [] = fail (unexpected_token eof)
parse_primary expr (t ∷ ts) =
    if is t.type TokenType.boolean_literal
    then ok (node NodeKind.bool_lit t nil [] (same t.value (codes "TRUE")), ts)
    else if is t.type TokenType.number_literal
    then ok (make_node NodeKind.num_lit t nil, ts)
    else if is t.type TokenType.hex_literal
    then ok (make_node NodeKind.hex_lit t nil, ts)
    else if is t.type TokenType.string_literal
    then ok (make_node NodeKind.str_lit t nil, ts)
    else if is t.type TokenType.identifier
    then parse_identifier expr t ts
    else if is t.type TokenType.lparen
    then parse_parenthesized expr ts
    else fail (unexpected_token t)

abbrev pub unary_node : Token → Node → Node
unary_node t n = make_node NodeKind.unary t (cons n nil)

unfoldable pub parse_unary : Parser Node → Parser Node
unfolding parse_primary
parse_unary expr [] = parse_primary expr []
parse_unary expr (t ∷ ts) =
    if is t.type TokenType.minus
    then ◌>>=◌ (parse_primary expr) (λ n. pure (unary_node t n)) ts
    else parse_primary expr (t ∷ ts)

unfoldable pub parse_mul : Parser Node → Parser Node
unfolding level parse_unary
parse_mul expr = level is_mul (parse_unary expr)

unfoldable pub parse_add : Parser Node → Parser Node
unfolding level parse_mul
parse_add expr = level is_add (parse_mul expr)

unfoldable pub parse_cmp : Parser Node → Parser Node
unfolding level parse_add
parse_cmp expr = level is_cmp (parse_add expr)

unfoldable pub parse_not : Parser Node → Parser Node
unfolding parse_cmp
parse_not expr [] = parse_cmp expr []
parse_not expr (t ∷ ts) =
    let negated = Scan.◌>>=◌ (parse_not expr ts) (λ (n, us). ok (unary_node t n, us)) in
    if is t.type TokenType.not then negated else parse_cmp expr (t ∷ ts)

unfoldable pub parse_and : Parser Node → Parser Node
unfolding level parse_not
parse_and expr = level is_and (parse_not expr)

unfoldable pub parse_or : Parser Node → Parser Node
unfolding level parse_and
parse_or expr = level is_or (parse_and expr)

-- A unit of fuel for each parenthesis or call that is open.
unfoldable pub parse_expr_on : ℕ → Parser Node
unfolding parse_or
parse_expr_on zero ts = out_of_fuel
parse_expr_on (suc f) ts = parse_or (parse_expr_on f) ts

unfoldable pub parse_expr : Parser Node
unfolding parse_expr_on
parse_expr = fuelled parse_expr_on
