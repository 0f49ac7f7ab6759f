-- ===== src/KissVm/Parser/Expressions.antt =====
-- Every expression method of src/kissvm/Parser.cpp returns: with a tree of the right shape and
-- fewer tokens left, or with an error.
use kiss_vm_interpreter.Prelude.{
  ℕ, zero, suc, ◌+◌, ◌≤◌, ◌<◌, ◌≡◌, Bool, true, ◌||◌, [], ◌∷◌, length, arith, ◌==◌, Bytes, codes,
}
use kiss_vm_interpreter.KissVm.Token.{TokenType, Token, is}
use kiss_vm_interpreter.KissVm.Scan.{Scan, Ends, gives, raises, Ends-if, Ends-bind, Ends-map}
use kiss_vm_interpreter.KissVm.Node.{Node}
use kiss_vm_interpreter.KissVm.Tokenizer.Proper.{IsHexLiteral}
use kiss_vm_interpreter.KissVm.Shape.{
  IsExpr, IsExprs, is_binary, bool_lit, num_lit, hex_lit, str_lit, var, binary, unary, call,
  no_exprs, exprs,
}
use kiss_vm_interpreter.KissVm.Parser.{
  Tokens, Parser, consume, check, expect, skip_if, chain, level, is_or, is_and, is_cmp, is_add,
  is_mul, parse_args, parse_arguments, parse_funcall, parse_identifier, parse_parenthesized,
  parse_primary, parse_unary, parse_mul, parse_add, parse_cmp, parse_not, parse_and, parse_or,
  parse_expr_on, parse_expr, first_byte,
}

-- The hexadecimal literals among the tokens are well spelled.
abbrev pub IsGood : Tokens → Type 0
IsGood [] = Unit {0}
IsGood (t ∷ ts) = (is t.type TokenType.hex_literal ≡ true → IsHexLiteral t.value) × IsGood ts

-- A result that satisfies `P`, with fewer than `n` tokens left, or an error.
abbrev pub Reads {ℓ} : {A : Type ℓ} → (A → Type 0) → ℕ → Scan (A × Tokens) → Type ℓ
Reads P n r = Ends (λ u. P u.0 × (length u.1 < n) × IsGood u.1) r

-- `p` reads an expression off every list of fewer than `n` tokens.
abbrev pub ReadsExpr : ℕ → Parser Node → Type 0
ReadsExpr n p = (ts : Tokens) → IsGood ts → length ts < n → Reads IsExpr (length ts) (p ts)

pub Reads-le {ℓ} :
    {A : Type ℓ} (P : A → Type 0) (m n : ℕ) {r : Scan (A × Tokens)}
    → m ≤ n
    → Reads P m r
    → Reads P n r
Reads-le P m n h k = Ends-map k (λ (a, us) (p, lt, g). (p, omega arith, g))

pub expect-Reads :
    (k : TokenType) (what : Bytes) (ts : Tokens)
    → IsGood ts
    → Reads (λ t. is t.type k ≡ true) (length ts) (expect k what ts)
unfolding expect check consume
expect-Reads k what [] g = raises
expect-Reads k what (t ∷ ts) g =
    Ends-if (is t.type k) (λ h. gives (h, omega arith, g.1)) (λ _. raises)

skip_if-Reads :
    (k : TokenType) (ts : Tokens)
    → IsGood ts
    → Reads (λ _. Unit {0}) (suc (length ts)) (skip_if k ts)
unfolding skip_if
skip_if-Reads k [] g = gives (tt, omega arith, tt)
skip_if-Reads k (t ∷ ts) g =
    Ends-if (is t.type k) (λ h. gives (tt, omega arith, g.1)) (λ _. gives (tt, omega arith, g))

-- The five levels of binary operators.
module _ (n : ℕ) (op : TokenType → Bool) (sub : Parser Node) (h : ReadsExpr n sub)
    (known : (k : TokenType) → op k ≡ true → is_binary k ≡ true) where
  chain-Reads :
      (f : ℕ) (left : Node) (ts : Tokens)
      → IsExpr left
      → IsGood ts
      → length ts < f
      → length ts < n
      → Reads IsExpr (suc (length ts)) (chain op sub f left ts)
  unfolding chain
  chain-Reads zero left ts e g lt ltn = absurd (omega arith)
  chain-Reads (suc f) left [] e g lt ltn = gives (e, omega arith, tt)
  chain-Reads (suc f) left (t ∷ ts) e g lt ltn =
      Ends-if (op t.type)
        (λ o. Ends-bind (h ts g.1 (omega arith)) λ (right, us) (er, less, gu).
          Reads-le IsExpr (suc (length us)) (suc (length (t ∷ ts))) (omega arith) (
            chain-Reads f _ us (binary t left right [] _ (known t.type o) e er) gu (omega arith)
              (omega arith)))
        (λ _. gives (e, omega arith, g))

  level-ReadsExpr : ReadsExpr n (level op sub)
  unfolding level
  level-ReadsExpr ts g lt = Ends-bind (h ts g lt) λ (left, us) (e, less, gu).
      Reads-le IsExpr (suc (length us)) (length ts) (omega arith)
        (chain-Reads (length us + 1) left us e gu (omega arith) (omega arith))

mul_is_binary : (k : TokenType) → is_mul k ≡ true → is_binary k ≡ true
unfolding is_binary
mul_is_binary k h = ground arith

add_is_binary : (k : TokenType) → is_add k ≡ true → is_binary k ≡ true
unfolding is_binary
add_is_binary k h = ground arith

cmp_is_binary : (k : TokenType) → is_cmp k ≡ true → is_binary k ≡ true
unfolding is_binary
cmp_is_binary k h = ground arith

and_is_binary : (k : TokenType) → is_and k ≡ true → is_binary k ≡ true
unfolding is_binary
and_is_binary k h = ground arith

or_is_binary : (k : TokenType) → is_or k ≡ true → is_binary k ≡ true
unfolding is_binary
or_is_binary k h = ground arith

unary_minus :
    (k : TokenType)
    → is k TokenType.minus ≡ true
    → (is k TokenType.not || is k TokenType.minus) ≡ true
unary_minus k h = ground arith

unary_not :
    (k : TokenType)
    → is k TokenType.not ≡ true
    → (is k TokenType.not || is k TokenType.minus) ≡ true
unary_not k h = ground arith

-- What calls parseExpr() again does so behind a token of its own.
module _ (n : ℕ) (expr : Parser Node) (h : ReadsExpr n expr) where
  parse_args-Reads :
      (f : ℕ) (ts : Tokens)
      → IsGood ts
      → length ts < f
      → length ts < n
      → Reads IsExprs (suc (length ts)) (parse_args expr f ts)
  unfolding parse_args
  parse_args-Reads zero ts g lt ltn = absurd (omega arith)
  parse_args-Reads (suc f) ts g lt ltn =
      Ends-bind (skip_if-Reads TokenType.comma ts g) λ (_, us) (_, le, gu).
        Ends-if (check TokenType.rparen us) (λ _. gives (no_exprs, le, gu))
          (λ _. Ends-bind (h us gu (omega arith)) λ (arg, vs) (e, less, gv).
            Ends-bind (parse_args-Reads f vs gv (omega arith) (omega arith))
              λ (args, ws) (es, lew, gw). gives (exprs arg args e es, omega arith, gw))

  parse_arguments-Reads :
      (ts : Tokens)
      → IsGood ts
      → length ts < n
      → Reads IsExprs (suc (length ts)) (parse_arguments expr ts)
  unfolding parse_arguments
  parse_arguments-Reads ts g lt =
      Ends-if (check TokenType.rparen ts) (λ _. gives (no_exprs, omega arith, g))
        (λ _. Ends-bind (h ts g lt) λ (arg, us) (e, less, gu).
          Ends-bind (parse_args-Reads (length us + 1) us gu (omega arith) (omega arith))
            λ (args, vs) (es, le, gv). gives (exprs arg args e es, omega arith, gv))

  parse_funcall-Reads :
      (t : Token) (ts : Tokens)
      → IsGood ts
      → length ts < n
      → Reads IsExpr (length ts) (parse_funcall expr t ts)
  unfolding parse_funcall
  parse_funcall-Reads t ts g lt =
      Ends-bind (expect-Reads TokenType.lparen (codes "(") ts g) λ (_, us) (_, less, gu).
        Ends-bind (parse_arguments-Reads us gu (omega arith)) λ (args, vs) (es, le, gv).
          Ends-bind (expect-Reads TokenType.rparen (codes ")") vs gv)
            λ (_, ws) (_, lew, gw). gives (call t args _ _ es, omega arith, gw)

  parse_identifier-Reads :
      (t : Token) (ts : Tokens)
      → IsGood ts
      → length ts < n
      → Reads IsExpr (suc (length ts)) (parse_identifier expr t ts)
  unfolding parse_identifier
  parse_identifier-Reads t ts g lt =
      Ends-if (first_byte t.value == b'@') (λ _. gives (var t _ _, omega arith, g))
        (λ _.
          Ends-if (check TokenType.lparen ts)
            (λ _.
              Reads-le IsExpr (length ts) (suc (length ts)) (omega arith)
                (parse_funcall-Reads t ts g lt))
            (λ _. gives (var t _ _, omega arith, g)))

  parse_parenthesized-Reads :
      (ts : Tokens)
      → IsGood ts
      → length ts < n
      → Reads IsExpr (suc (length ts)) (parse_parenthesized expr ts)
  unfolding parse_parenthesized
  parse_parenthesized-Reads ts g lt = Ends-bind (h ts g lt) λ (e, us) (he, less, gu).
      Ends-bind (expect-Reads TokenType.rparen (codes ")") us gu)
        λ (_, vs) (_, lv, gv). gives (he, omega arith, gv)

  parse_primary-ReadsExpr : ReadsExpr (suc n) (parse_primary expr)
  unfolding parse_primary
  parse_primary-ReadsExpr [] g lt = raises
  parse_primary-ReadsExpr (t ∷ ts) g lt =
      Ends-if (is t.type TokenType.boolean_literal) (λ _. gives (bool_lit t _ _, omega arith, g.1))
        (λ _.
          Ends-if (is t.type TokenType.number_literal)
            (λ _. gives (num_lit t _ _, omega arith, g.1))
            (λ _.
              Ends-if (is t.type TokenType.hex_literal)
                (λ k. gives (hex_lit t _ _ (g.0 k), omega arith, g.1))
                (λ _.
                  Ends-if (is t.type TokenType.string_literal)
                    (λ _. gives (str_lit t _ _, omega arith, g.1))
                    (λ _.
                      Ends-if (is t.type TokenType.identifier)
                        (λ _. parse_identifier-Reads t ts g.1 (omega arith))
                        (λ _.
                          Ends-if (is t.type TokenType.lparen)
                            (λ _. parse_parenthesized-Reads ts g.1 (omega arith)) (λ _. raises))))))

  parse_unary-ReadsExpr : ReadsExpr (suc n) (parse_unary expr)
  unfolding parse_unary
  parse_unary-ReadsExpr [] g lt = parse_primary-ReadsExpr [] g lt
  parse_unary-ReadsExpr (t ∷ ts) g lt =
      Ends-if (is t.type TokenType.minus)
        (λ k. Ends-bind (parse_primary-ReadsExpr ts g.1 (omega arith)) λ (e, us) (he, less, gu).
          gives (unary t e _ _ (unary_minus t.type k) he, omega arith, gu))
        (λ _. parse_primary-ReadsExpr (t ∷ ts) g lt)

  parse_cmp-ReadsExpr : ReadsExpr (suc n) (parse_cmp expr)
  unfolding parse_cmp parse_add parse_mul
  parse_cmp-ReadsExpr =
      level-ReadsExpr (suc n) is_cmp (parse_add expr)
        (level-ReadsExpr (suc n) is_add (parse_mul expr)
          (level-ReadsExpr (suc n) is_mul (parse_unary expr) parse_unary-ReadsExpr mul_is_binary)
          add_is_binary)
        cmp_is_binary

  parse_not-ReadsExpr : ReadsExpr (suc n) (parse_not expr)
  unfolding parse_not
  parse_not-ReadsExpr [] g lt = parse_cmp-ReadsExpr [] g lt
  parse_not-ReadsExpr (t ∷ ts) g lt =
      Ends-if (is t.type TokenType.not)
        (λ k.
          Ends-bind (parse_not-ReadsExpr ts g.1 (omega arith)) λ (e, us) (he, less, gu).
            gives (unary t e _ _ (unary_not t.type k) he, omega arith, gu))
        (λ _. parse_cmp-ReadsExpr (t ∷ ts) g lt)

  parse_or-ReadsExpr : ReadsExpr (suc n) (parse_or expr)
  unfolding parse_or parse_and
  parse_or-ReadsExpr =
      level-ReadsExpr (suc n) is_or (parse_and expr)
        (level-ReadsExpr (suc n) is_and (parse_not expr) parse_not-ReadsExpr and_is_binary)
        or_is_binary

parse_expr_on-ReadsExpr : (f : ℕ) → ReadsExpr f (parse_expr_on f)
unfolding parse_expr_on
parse_expr_on-ReadsExpr zero ts g lt = absurd (omega arith)
parse_expr_on-ReadsExpr (suc f) ts g lt =
    parse_or-ReadsExpr f (parse_expr_on f) (parse_expr_on-ReadsExpr f) ts g lt

pub parse_expr-Reads : (ts : Tokens) → IsGood ts → Reads IsExpr (length ts) (parse_expr ts)
unfolding parse_expr
parse_expr-Reads ts g = parse_expr_on-ReadsExpr (length ts + 1) ts g (omega arith)
