-- ===== src/KissVm/Parser/Phrases.antt =====
-- src/kissvm/Parser.cpp: every phrase of the grammar is parsed to its tree.
use kiss_vm_interpreter.Prelude.{◌≤◌, ◌≡◌, inl, inr, refl, ◌∙◌, true, ◌∷◌, arith}
use kiss_vm_interpreter.KissVm.Token.{TokenType, Token}
use kiss_vm_interpreter.KissVm.Scan.{ok}
use kiss_vm_interpreter.KissVm.Node.{Node}
use kiss_vm_interpreter.KissVm.Parser.{
  Tokens, Parser, is_or, is_and, is_cmp, is_add, is_mul, parse_primary, parse_parenthesized, expect,
  check, consume, unary_node, parse_unary, parse_mul, parse_add, parse_not, parse_and,
}
use kiss_vm_interpreter.KissVm.Parser.Grammar.{
  Phrase, literal, enclosed, negated, inverted, binary, grade, is_literal, IsPhrase, in_front,
  literal_node, Parsed, Chained, Stops-suc, chain_first,
}
use kiss_vm_interpreter.KissVm.Parser.Precedence.{
  ranked, rank_le, kind_is, other_than_not, other_than_minus, without_not, without_minus, Reading,
  Own, mul_done, add_done, cmp_done, and_done, own_or_above,
}

grade_le : (e : Phrase) → grade e ≤ 8
grade_le (literal t) = omega arith
grade_le (enclosed t e u) = omega arith
grade_le (negated t e) = omega arith
grade_le (inverted t e) = omega arith
grade_le (binary t a b) = omega (arith, (rank_le t.type).0)

pub grade_ge : (e : Phrase) → IsPhrase e → 1 ≤ grade e
grade_ge (literal t) h = omega arith
grade_ge (enclosed t e u) h = omega arith
grade_ge (negated t e) h = omega arith
grade_ge (inverted t e) h = omega arith
grade_ge (binary t a b) h = h.0

module _ (expr : Parser Node) where
  pub Own-Reading : (e : Phrase) → IsPhrase e → Own expr e → Reading expr e
  Own-Reading e p own =
      let primary : 8 ≤ grade e → Parsed (parse_primary expr) 8 e = λ g.
        elim (own_or_above 8 (grade e) g) [
          | inl h ↦ absurd (omega (arith, grade_le e))
          | inr h ↦ own.own_8 h
        ] in
      let unary : 7 ≤ grade e → Parsed (parse_unary expr) 7 e = λ g.
        elim (own_or_above 7 (grade e) g) [
          | inl h ↦ λ ts stops.
              without_minus expr (in_front e ts) (other_than_minus e ts p h)
              ∙ primary h ts (Stops-suc 7 ts stops)
          | inr h ↦ own.own_7 h
        ] in
      let mul : 6 ≤ grade e → Chained is_mul (parse_unary expr) 6 e = λ g.
        elim (own_or_above 6 (grade e) g) [
          | inl h ↦ chain_first is_mul (parse_unary expr) 6 (λ t. (ranked t).4) e (unary h)
          | inr h ↦ own.own_6 h
        ] in
      let add : 5 ≤ grade e → Chained is_add (parse_mul expr) 5 e = λ g.
        elim (own_or_above 5 (grade e) g) [
          | inl h ↦
              chain_first is_add (parse_mul expr) 5 (λ t. (ranked t).3) e (mul_done expr e (mul h))
          | inr h ↦ own.own_5 h
        ] in
      let cmp : 4 ≤ grade e → Chained is_cmp (parse_add expr) 4 e = λ g.
        elim (own_or_above 4 (grade e) g) [
          | inl h ↦
              chain_first is_cmp (parse_add expr) 4 (λ t. (ranked t).2) e (add_done expr e (add h))
          | inr h ↦ own.own_4 h
        ] in
      let not : 3 ≤ grade e → Parsed (parse_not expr) 3 e = λ g. elim (own_or_above 3 (grade e) g) [
        | inl h ↦ λ ts stops.
            without_not expr (in_front e ts) (other_than_not e ts p h)
            ∙ cmp_done expr e (cmp h) ts (Stops-suc 3 ts stops)
        | inr h ↦ own.own_3 h
      ] in
      let and : 2 ≤ grade e → Chained is_and (parse_not expr) 2 e = λ g.
        elim (own_or_above 2 (grade e) g) [
          | inl h ↦ chain_first is_and (parse_not expr) 2 (λ t. (ranked t).1) e (not h)
          | inr h ↦ own.own_2 h
        ] in
      let or : 1 ≤ grade e → Chained is_or (parse_and expr) 1 e = λ g.
        elim (own_or_above 1 (grade e) g) [
          | inl h ↦
              chain_first is_or (parse_and expr) 1 (λ t. (ranked t).0) e (and_done expr e (and h))
          | inr h ↦ own.own_1 h
        ] in
      record {
        primary = primary;
        unary = unary;
        mul = mul;
        add = add;
        cmp = cmp;
        not = not;
        and = and;
        or = or;
      }

  pub literal_primary :
      (k : TokenType) (t : Token) (ts : Tokens)
      → t.type ≡ k
      → is_literal k ≡ true
      → parse_primary expr (t ∷ ts) ≡ ok (literal_node k t, ts)
  unfolding parse_primary
  literal_primary TokenType.boolean_literal t ts e h =
      rw (kind_is TokenType.boolean_literal e TokenType.boolean_literal) refl
  literal_primary TokenType.number_literal t ts e h =
      rw
        (
          kind_is TokenType.number_literal e TokenType.boolean_literal,
          kind_is TokenType.number_literal e TokenType.number_literal,
        )
        refl
  literal_primary TokenType.hex_literal t ts e h =
      rw
        (
          kind_is TokenType.hex_literal e TokenType.boolean_literal,
          kind_is TokenType.hex_literal e TokenType.number_literal,
          kind_is TokenType.hex_literal e TokenType.hex_literal,
        )
        refl
  literal_primary TokenType.string_literal t ts e h =
      rw
        (
          kind_is TokenType.string_literal e TokenType.boolean_literal,
          kind_is TokenType.string_literal e TokenType.number_literal,
          kind_is TokenType.string_literal e TokenType.hex_literal,
          kind_is TokenType.string_literal e TokenType.string_literal,
        )
        refl
  literal_primary _ t ts e h = cc

  pub close_parenthesis :
      (n : Node) (us ts : Tokens) (u : Token)
      → u.type ≡ TokenType.rparen
      → expr us ≡ ok (n, u ∷ ts)
      → parse_parenthesized expr us ≡ ok (n, ts)
  unfolding parse_parenthesized expect check consume
  close_parenthesis n us ts u e h = rw (h, kind_is TokenType.rparen e TokenType.rparen) refl

  pub enclosed_primary :
      (t : Token) (us : Tokens)
      → t.type ≡ TokenType.lparen
      → parse_primary expr (t ∷ us) ≡ parse_parenthesized expr us
  unfolding parse_primary
  enclosed_primary t us e =
      rw
        (
          kind_is TokenType.lparen e TokenType.boolean_literal,
          kind_is TokenType.lparen e TokenType.number_literal,
          kind_is TokenType.lparen e TokenType.hex_literal,
          kind_is TokenType.lparen e TokenType.string_literal,
          kind_is TokenType.lparen e TokenType.identifier,
          kind_is TokenType.lparen e TokenType.lparen,
        )
        refl

  pub minus_unary :
      (t : Token) (n : Node) (us ts : Tokens)
      → t.type ≡ TokenType.minus
      → parse_primary expr us ≡ ok (n, ts)
      → parse_unary expr (t ∷ us) ≡ ok (unary_node t n, ts)
  unfolding parse_unary
  minus_unary t n us ts e h = rw (kind_is TokenType.minus e TokenType.minus, h) refl

  pub not_unary :
      (t : Token) (n : Node) (us ts : Tokens)
      → t.type ≡ TokenType.not
      → parse_not expr us ≡ ok (n, ts)
      → parse_not expr (t ∷ us) ≡ ok (unary_node t n, ts)
  unfolding parse_not
  not_unary t n us ts e h = rw (kind_is TokenType.not e TokenType.not, h) refl
