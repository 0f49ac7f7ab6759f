-- ===== src/KissVm/Parser/Trees.antt =====
-- src/kissvm/Parser.cpp: parseExpr() of a phrase of the grammar gives its tree.
use kiss_vm_interpreter.Prelude.{
  ℕ, zero, suc, ◌+◌, ◌≤◌, ◌<◌, ◌≡◌, refl, ap, ◌∙◌, ◌∷◌, length, arith,
}
use kiss_vm_interpreter.KissVm.Token.{TokenType, Token}
use kiss_vm_interpreter.KissVm.Scan.{ok}
use kiss_vm_interpreter.KissVm.Node.{Node}
use kiss_vm_interpreter.KissVm.Parser.{
  Tokens, Parser, is_or, is_and, is_cmp, is_add, is_mul, parse_unary, parse_mul, parse_add,
  parse_not, parse_and, parse_expr_on, parse_expr,
}
use kiss_vm_interpreter.KissVm.Parser.Grammar.{
  rank, Phrase, literal, enclosed, negated, inverted, binary, IsPhrase, in_front, tree, Stops,
  Parsed, Stops-suc, length-in_front, chain_next,
}
use kiss_vm_interpreter.KissVm.Parser.Precedence.{
  ranked, rank_le, Reading, Own, mul_done, add_done, and_done, or_done,
}
use kiss_vm_interpreter.KissVm.Parser.Phrases.{
  grade_ge, Own-Reading, literal_primary, close_parenthesis, enclosed_primary, minus_unary,
  not_unary,
}

-- No more than f parentheses are open at once.
abbrev Fits : ℕ → Phrase → Type 0
Fits f (literal t) = Unit
Fits zero (enclosed t e u) = ⊥
Fits (suc f) (enclosed t e u) = Fits f e
Fits f (negated t e) = Fits f e
Fits f (inverted t e) = Fits f e
Fits f (binary t a b) = Fits f a × Fits f b

rparen_stops : (k : TokenType) → k ≡ TokenType.rparen → rank k < 1
rparen_stops k e = let r : rank k ≡ 0 = ap (λ (j : TokenType). rank j) e in omega (arith, r)

module _ (expr : Parser Node) where
  literal-Own : (t : Token) → IsPhrase (literal t) → Own expr (literal t)
  literal-Own t h = record {
    own_8 = λ g ts stops. literal_primary expr t.type t ts refl h;
    own_7 = λ g. absurd (omega (arith, g));
    own_6 = λ g. absurd (omega (arith, g));
    own_5 = λ g. absurd (omega (arith, g));
    own_4 = λ g. absurd (omega (arith, g));
    own_3 = λ g. absurd (omega (arith, g));
    own_2 = λ g. absurd (omega (arith, g));
    own_1 = λ g. absurd (omega (arith, g));
  }

  enclosed-Own :
      (t u : Token) (e : Phrase)
      → IsPhrase (enclosed t e u)
      → Parsed expr 1 e
      → Own expr (enclosed t e u)
  enclosed-Own t u e h inner = record {
    own_8 = λ g ts stops.
        enclosed_primary expr t (in_front e (u ∷ ts)) h.0
        ∙ close_parenthesis expr (tree e) (in_front e (u ∷ ts)) ts u h.1
            (inner (u ∷ ts) (rparen_stops u.type h.1));
    own_7 = λ g. absurd (omega (arith, g));
    own_6 = λ g. absurd (omega (arith, g));
    own_5 = λ g. absurd (omega (arith, g));
    own_4 = λ g. absurd (omega (arith, g));
    own_3 = λ g. absurd (omega (arith, g));
    own_2 = λ g. absurd (omega (arith, g));
    own_1 = λ g. absurd (omega (arith, g));
  }

  negated-Own :
      (t : Token) (e : Phrase) → IsPhrase (negated t e) → Reading expr e → Own expr (negated t e)
  negated-Own t e (k, g, h) r = record {
    own_8 = λ g. absurd (omega (arith, g));
    own_7 = λ _ ts stops.
        minus_unary expr t (tree e) (in_front e ts) ts k (r.primary g ts (Stops-suc 7 ts stops));
    own_6 = λ g. absurd (omega (arith, g));
    own_5 = λ g. absurd (omega (arith, g));
    own_4 = λ g. absurd (omega (arith, g));
    own_3 = λ g. absurd (omega (arith, g));
    own_2 = λ g. absurd (omega (arith, g));
    own_1 = λ g. absurd (omega (arith, g));
  }

  inverted-Own :
      (t : Token) (e : Phrase) → IsPhrase (inverted t e) → Reading expr e → Own expr (inverted t e)
  inverted-Own t e (k, g, h) r = record {
    own_8 = λ g. absurd (omega (arith, g));
    own_7 = λ g. absurd (omega (arith, g));
    own_6 = λ g. absurd (omega (arith, g));
    own_5 = λ g. absurd (omega (arith, g));
    own_4 = λ g. absurd (omega (arith, g));
    own_3 = λ _ ts stops. not_unary expr t (tree e) (in_front e ts) ts k (r.not g ts stops);
    own_2 = λ g. absurd (omega (arith, g));
    own_1 = λ g. absurd (omega (arith, g));
  }

  binary-Own :
      (t : Token) (a b : Phrase)
      → IsPhrase (binary t a b)
      → Reading expr a
      → Reading expr b
      → Own expr (binary t a b)
  binary-Own t a b (one, left, right, ha, hb) x y =
      let (top, apart) = rank_le t.type in
      record {
        own_8 = λ g. absurd (omega (arith, g, top));
        own_7 = λ g. absurd (omega (arith, g, top));
        own_6 = λ g.
            chain_next is_mul (parse_unary expr) 6 (λ k. (ranked k).4) t a b g
              (x.mul (omega (arith, g, left))) (y.unary (omega (arith, g, right)));
        own_5 = λ g.
            chain_next is_add (parse_mul expr) 5 (λ k. (ranked k).3) t a b g
              (x.add (omega (arith, g, left))) (mul_done expr b (y.mul (omega (arith, g, right))));
        own_4 = λ g.
            chain_next is_cmp (parse_add expr) 4 (λ k. (ranked k).2) t a b g
              (x.cmp (omega (arith, g, left))) (add_done expr b (y.add (omega (arith, g, right))));
        own_3 = λ g. absurd (apart g);
        own_2 = λ g.
            chain_next is_and (parse_not expr) 2 (λ k. (ranked k).1) t a b g
              (x.and (omega (arith, g, left))) (y.not (omega (arith, g, right)));
        own_1 = λ g.
            chain_next is_or (parse_and expr) 1 (λ k. (ranked k).0) t a b g
              (x.or (omega (arith, g, left))) (and_done expr b (y.and (omega (arith, g, right))));
      }

next-Parsed :
    (f : ℕ) (e : Phrase)
    → IsPhrase e
    → Reading (parse_expr_on f) e
    → Parsed (parse_expr_on (suc f)) 1 e
unfolding parse_expr_on
next-Parsed f e h r = or_done (parse_expr_on f) e (r.or (grade_ge e h))

phrase-Reading : (f : ℕ) (e : Phrase) → IsPhrase e → Fits f e → Reading (parse_expr_on f) e
phrase-Reading f (literal t) h k =
    Own-Reading (parse_expr_on f) (literal t) h (literal-Own (parse_expr_on f) t h)
phrase-Reading zero (enclosed t e u) h k = absurd k
phrase-Reading (suc f) (enclosed t e u) h k =
    let r = phrase-Reading f e h.2 k in
    let inner = next-Parsed f e h.2 r in
    Own-Reading (parse_expr_on (suc f)) (enclosed t e u) h
      (enclosed-Own (parse_expr_on (suc f)) t u e h inner)
phrase-Reading f (negated t e) h k =
    let r = phrase-Reading f e h.2 k in
    Own-Reading (parse_expr_on f) (negated t e) h (negated-Own (parse_expr_on f) t e h r)
phrase-Reading f (inverted t e) h k =
    let r = phrase-Reading f e h.2 k in
    Own-Reading (parse_expr_on f) (inverted t e) h (inverted-Own (parse_expr_on f) t e h r)
phrase-Reading f (binary t a b) (one, left, right, ha, hb) k =
    let p : IsPhrase (binary t a b) = (one, left, right, ha, hb) in
    let x = phrase-Reading f a ha k.0 in
    let y = phrase-Reading f b hb k.1 in
    Own-Reading (parse_expr_on f) (binary t a b) p (binary-Own (parse_expr_on f) t a b p x y)

tokens-Fits : (f : ℕ) (e : Phrase) (ts : Tokens) → length (in_front e ts) ≤ f → Fits f e
tokens-Fits f (literal t) ts h = tt
tokens-Fits zero (enclosed t e u) ts h = absurd (omega arith)
tokens-Fits (suc f) (enclosed t e u) ts h = tokens-Fits f e (u ∷ ts) (omega arith)
tokens-Fits f (negated t e) ts h = tokens-Fits f e ts (omega arith)
tokens-Fits f (inverted t e) ts h = tokens-Fits f e ts (omega arith)
tokens-Fits f (binary t a b) ts h =
    let more = length-in_front a (t ∷ in_front b ts) in
    (tokens-Fits f a (t ∷ in_front b ts) h, tokens-Fits f b ts (omega (arith, more)))

parse_expr_on-tree :
    (f : ℕ) (e : Phrase) (ts : Tokens)
    → IsPhrase e
    → Stops 1 ts
    → length (in_front e ts) < f
    → parse_expr_on f (in_front e ts) ≡ ok (tree e, ts)
unfolding parse_expr_on
parse_expr_on-tree zero e ts h stops lt = absurd (omega arith)
parse_expr_on-tree (suc f) e ts h stops lt =
    let r = phrase-Reading f e h (tokens-Fits f e ts (omega arith)) in
    or_done (parse_expr_on f) e (r.or (grade_ge e h)) ts stops

-- parseExpr() of the tokens of a phrase of literals, parentheses, a minus, NOT and the binary operators,
-- in front of tokens that begin with no operator, throws nothing: it gives the phrase's tree and leaves
-- those tokens. Operators of one rank stand from left to right, and *, / and % bind tighter than + and -,
-- these than comparisons, then NOT, then AND and NAND, then OR, NOR and XOR.
pub parse_expr-tree :
    (e : Phrase) (ts : Tokens)
    → IsPhrase e
    → Stops 1 ts
    → parse_expr (in_front e ts) ≡ ok (tree e, ts)
unfolding parse_expr
parse_expr-tree e ts h stops =
    parse_expr_on-tree (length (in_front e ts) + 1) e ts h stops (omega arith)
