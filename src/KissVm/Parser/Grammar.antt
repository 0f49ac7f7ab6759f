-- ===== src/KissVm/Parser/Grammar.antt =====
-- src/kissvm/Parser.cpp: phrases, as the grammar of expressions makes them, and how an operator's loop
-- takes them.
use kiss_vm_interpreter.Prelude.{
  ℕ, zero, suc, ◌+◌, ◌≤◌, ◌<◌, ◌≡◌, refl, ap, ◌∙◌, Bool, true, false, [], ◌∷◌, length, arith, codes,
  same, ◌==◌,
}
use kiss_vm_interpreter.KissVm.Token.{TokenType, Token}
use kiss_vm_interpreter.KissVm.Scan
use kiss_vm_interpreter.KissVm.Scan.{Scan, ok}
use kiss_vm_interpreter.KissVm.Node.{NodeKind, Node, node, nil, cons, make_node}
use kiss_vm_interpreter.KissVm.Parser.{Tokens, Parser, chain, level, unary_node}

-- How tight an operator binds: 0 is none.
abbrev pub rank : TokenType → ℕ
rank TokenType.or = 1
rank TokenType.nor = 1
rank TokenType.xor = 1
rank TokenType.and = 2
rank TokenType.nand = 2
rank TokenType.eq = 4
rank TokenType.neq = 4
rank TokenType.lt = 4
rank TokenType.gt = 4
rank TokenType.lte = 4
rank TokenType.gte = 4
rank TokenType.plus = 5
rank TokenType.minus = 5
rank TokenType.multiply = 6
rank TokenType.divide = 6
rank TokenType.modulo = 6
rank _ = 0

-- A literal, a phrase in parentheses, a minus or a NOT in front of a phrase, and an operator between
-- two.
pub data Phrase : Type 0 where
  literal : Token → Phrase
  enclosed : Token → Phrase → Token → Phrase
  negated : Token → Phrase → Phrase
  inverted : Token → Phrase → Phrase
  binary : Token → Phrase → Phrase → Phrase

abbrev pub grade : Phrase → ℕ
grade (literal t) = 8
grade (enclosed t e u) = 8
grade (negated t e) = 7
grade (inverted t e) = 3
grade (binary t a b) = rank t.type

abbrev pub literal_node : TokenType → Token → Node
literal_node TokenType.boolean_literal t =
    node NodeKind.bool_lit t nil [] (same t.value (codes "TRUE"))
literal_node TokenType.number_literal t = make_node NodeKind.num_lit t nil
literal_node TokenType.hex_literal t = make_node NodeKind.hex_lit t nil
literal_node _ t = make_node NodeKind.str_lit t nil

abbrev pub is_literal : TokenType → Bool
is_literal TokenType.boolean_literal = true
is_literal TokenType.number_literal = true
is_literal TokenType.hex_literal = true
is_literal TokenType.string_literal = true
is_literal _ = false

-- The grammar: operators of one rank stand from left to right, and what binds less tight than the
-- operator around it is in parentheses.
abbrev pub IsPhrase : Phrase → Type 0
IsPhrase (literal t) = is_literal t.type ≡ true
IsPhrase (enclosed t e u) = (t.type ≡ TokenType.lparen) × (u.type ≡ TokenType.rparen) × IsPhrase e
IsPhrase (negated t e) = (t.type ≡ TokenType.minus) × (8 ≤ grade e) × IsPhrase e
IsPhrase (inverted t e) = (t.type ≡ TokenType.not) × (3 ≤ grade e) × IsPhrase e
IsPhrase (binary t a b) =
    (1 ≤ rank t.type) × (rank t.type ≤ grade a) × (rank t.type < grade b) × IsPhrase a × IsPhrase b

-- The tokens of a phrase in front of others, and its tree.
abbrev pub in_front : Phrase → Tokens → Tokens
in_front (literal t) ts = t ∷ ts
in_front (enclosed t e u) ts = t ∷ in_front e (u ∷ ts)
in_front (negated t e) ts = t ∷ in_front e ts
in_front (inverted t e) ts = t ∷ in_front e ts
in_front (binary t a b) ts = in_front a (t ∷ in_front b ts)

abbrev pub tree : Phrase → Node
tree (literal t) = literal_node t.type t
tree (enclosed t e u) = tree e
tree (negated t e) = unary_node t (tree e)
tree (inverted t e) = unary_node t (tree e)
tree (binary t a b) = make_node NodeKind.binary t (cons (tree a) (cons (tree b) nil))

-- No operator that binds as tight as k, or tighter, comes next.
abbrev pub Stops : ℕ → Tokens → Type 0
Stops k [] = Unit
Stops k (t ∷ ts) = rank t.type < k

abbrev pub Parsed : Parser Node → ℕ → Phrase → Type 0
Parsed p k e = (ts : Tokens) → Stops k ts → p (in_front e ts) ≡ ok (tree e, ts)

-- The loop of a level comes to the end of the phrase, with fuel for the tokens behind it.
abbrev pub Chained : (TokenType → Bool) → Parser Node → ℕ → Phrase → Type 0
Chained op sub k e =
    (ts : Tokens)
    → Stops (suc k) ts
    → (f : ℕ) × (length ts < f) × (level op sub (in_front e ts) ≡ chain op sub f (tree e) ts)

pub Stops-suc : (k : ℕ) (ts : Tokens) → Stops k ts → Stops (suc k) ts
Stops-suc k [] h = tt
Stops-suc k (t ∷ ts) h = omega arith

pub length-in_front : (e : Phrase) (ts : Tokens) → length ts < length (in_front e ts)
length-in_front (literal t) ts = omega arith
length-in_front (enclosed t e u) ts = omega (arith, length-in_front e (u ∷ ts))
length-in_front (negated t e) ts = omega (arith, length-in_front e ts)
length-in_front (inverted t e) ts = omega (arith, length-in_front e ts)
length-in_front (binary t a b) ts =
    omega (arith, length-in_front a (t ∷ in_front b ts), length-in_front b ts)

one_less : {n : ℕ} (f : ℕ) → suc n < f → (g : ℕ) × (n < g) × (f ≡ suc g)
one_less zero h = absurd (omega arith)
one_less (suc g) h = (g, omega arith, refl)

module _ (op : TokenType → Bool) (sub : Parser Node) (k : ℕ)
    (ranked : (t : TokenType) → op t ≡ (rank t == k)) where
  pub chain_first : (e : Phrase) → Parsed sub (suc k) e → Chained op sub k e
  unfolding level
  chain_first e h ts stops = (
    length ts + 1,
    omega arith,
    ap (λ r. Scan.◌>>=◌ r (λ (left, us). chain op sub (length us + 1) left us)) (h ts stops),
  )

  one_round :
      (t : Token) (left right : Node) (f : ℕ) (us ts : Tokens)
      → rank t.type ≡ k
      → sub us ≡ ok (right, ts)
      → chain op sub (suc f) left (t ∷ us)
        ≡ chain op sub f (make_node NodeKind.binary t (cons left (cons right nil))) ts
  unfolding chain
  one_round t left right f us ts r e =
      let o : op t.type ≡ true = ranked t.type ∙ ground (arith, r) in rw o (rw e refl)

  pub chain_next :
      (t : Token) (a b : Phrase)
      → rank t.type ≡ k
      → Chained op sub k a
      → Parsed sub (suc k) b
      → Chained op sub k (binary t a b)
  chain_next t a b r ha hb ts stops =
      let us = in_front b ts in
      let (f, lt, e) = ha (t ∷ us) (omega arith) in
      let (g, gt, h) = one_less f lt in
      let c : chain op sub f (tree a) (t ∷ us) ≡ chain op sub (suc g) (tree a) (t ∷ us) =
        ap (λ (n : ℕ). chain op sub n (tree a) (t ∷ us)) h in
      (
        g,
        omega (arith, length-in_front b ts),
        e ∙ (c ∙ one_round t (tree a) (tree b) g us ts r (hb ts stops)),
      )

  chain_ends :
      (f : ℕ) (left : Node) (ts : Tokens)
      → length ts < f
      → Stops k ts
      → chain op sub f left ts ≡ ok (left, ts)
  unfolding chain
  chain_ends zero left ts lt h = absurd (omega arith)
  chain_ends (suc f) left [] lt h = refl
  chain_ends (suc f) left (t ∷ ts) lt h =
      let o : op t.type ≡ false = ranked t.type ∙ ground arith in rw o refl

  pub chain_done : (e : Phrase) → Chained op sub k e → Parsed (level op sub) k e
  chain_done e h ts stops =
      let (f, lt, r) = h ts (Stops-suc k ts stops) in r ∙ chain_ends f (tree e) ts lt stops
