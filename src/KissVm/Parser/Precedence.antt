-- ===== src/KissVm/Parser/Precedence.antt =====
-- src/kissvm/Parser.cpp: every phrase of the grammar is parsed to its tree.
use kiss_vm_interpreter.Prelude.{
  ℕ, suc, ◌≤◌, ◌≡◌, ◌≢◌, ◌⊎◌, inl, inr, refl, ap, Bool-cases, true, false, [], ◌∷◌, arith, leb,
  ◌==◌,
}
use kiss_vm_interpreter.KissVm.Token.{TokenType, is}
use kiss_vm_interpreter.KissVm.Node.{Node}
use kiss_vm_interpreter.KissVm.Parser.{
  Tokens, Parser, is_or, is_and, is_cmp, is_add, is_mul, parse_primary, parse_unary, parse_mul,
  parse_add, parse_cmp, parse_not, parse_and, parse_or,
}
use kiss_vm_interpreter.KissVm.Parser.Grammar.{
  rank, Phrase, literal, enclosed, negated, inverted, binary, grade, is_literal, IsPhrase, in_front,
  Parsed, Chained, chain_done,
}

pub ranked :
    (t : TokenType)
    → (is_or t ≡ (rank t == 1))
      × (is_and t ≡ (rank t == 2))
      × (is_cmp t ≡ (rank t == 4))
      × (is_add t ≡ (rank t == 5))
      × (is_mul t ≡ (rank t == 6))
ranked TokenType.number_literal = (refl, refl, refl, refl, refl)
ranked TokenType.hex_literal = (refl, refl, refl, refl, refl)
ranked TokenType.string_literal = (refl, refl, refl, refl, refl)
ranked TokenType.boolean_literal = (refl, refl, refl, refl, refl)
ranked TokenType.identifier = (refl, refl, refl, refl, refl)
ranked TokenType.keyword = (refl, refl, refl, refl, refl)
ranked TokenType.plus = (refl, refl, refl, refl, refl)
ranked TokenType.minus = (refl, refl, refl, refl, refl)
ranked TokenType.multiply = (refl, refl, refl, refl, refl)
ranked TokenType.divide = (refl, refl, refl, refl, refl)
ranked TokenType.modulo = (refl, refl, refl, refl, refl)
ranked TokenType.eq = (refl, refl, refl, refl, refl)
ranked TokenType.neq = (refl, refl, refl, refl, refl)
ranked TokenType.lt = (refl, refl, refl, refl, refl)
ranked TokenType.gt = (refl, refl, refl, refl, refl)
ranked TokenType.lte = (refl, refl, refl, refl, refl)
ranked TokenType.gte = (refl, refl, refl, refl, refl)
ranked TokenType.and = (refl, refl, refl, refl, refl)
ranked TokenType.or = (refl, refl, refl, refl, refl)
ranked TokenType.not = (refl, refl, refl, refl, refl)
ranked TokenType.xor = (refl, refl, refl, refl, refl)
ranked TokenType.nand = (refl, refl, refl, refl, refl)
ranked TokenType.nor = (refl, refl, refl, refl, refl)
ranked TokenType.lshift = (refl, refl, refl, refl, refl)
ranked TokenType.rshift = (refl, refl, refl, refl, refl)
ranked TokenType.amp = (refl, refl, refl, refl, refl)
ranked TokenType.pipe = (refl, refl, refl, refl, refl)
ranked TokenType.caret = (refl, refl, refl, refl, refl)
ranked TokenType.tilde = (refl, refl, refl, refl, refl)
ranked TokenType.lparen = (refl, refl, refl, refl, refl)
ranked TokenType.rparen = (refl, refl, refl, refl, refl)
ranked TokenType.comma = (refl, refl, refl, refl, refl)
ranked TokenType.colon = (refl, refl, refl, refl, refl)
ranked TokenType.assign = (refl, refl, refl, refl, refl)
ranked TokenType.end_of_script = (refl, refl, refl, refl, refl)
ranked TokenType.unknown = (refl, refl, refl, refl, refl)

pub rank_le : (t : TokenType) → (rank t ≤ 6) × (rank t ≢ 3)
rank_le t = ground arith

-- The first token is of another kind.
abbrev pub Avoids : TokenType → Tokens → Type 0
Avoids k [] = Unit
Avoids k (t ∷ ts) = is t.type k ≡ false

literal_kind :
    (k : TokenType)
    → is_literal k ≡ true
    → (is k TokenType.not ≡ false) × (is k TokenType.minus ≡ false)
literal_kind TokenType.boolean_literal h = (refl, refl)
literal_kind TokenType.number_literal h = (refl, refl)
literal_kind TokenType.hex_literal h = (refl, refl)
literal_kind TokenType.string_literal h = (refl, refl)
literal_kind _ h = cc

pub kind_is : (k : TokenType) {j : TokenType} → j ≡ k → (i : TokenType) → is j i ≡ is k i
kind_is k e i = ap (λ (j : TokenType). is j i) e

pub other_than_not :
    (e : Phrase) (ts : Tokens) → IsPhrase e → 4 ≤ grade e → Avoids TokenType.not (in_front e ts)
other_than_not (literal t) ts h g = (literal_kind t.type h).0
other_than_not (enclosed t e u) ts h g = kind_is TokenType.lparen h.0 TokenType.not
other_than_not (negated t e) ts h g = kind_is TokenType.minus h.0 TokenType.not
other_than_not (inverted t e) ts h g = absurd (omega arith)
other_than_not (binary t a b) ts (one, left, right, ha, hb) g =
    other_than_not a (t ∷ in_front b ts) ha (omega arith)

pub other_than_minus :
    (e : Phrase) (ts : Tokens) → IsPhrase e → 8 ≤ grade e → Avoids TokenType.minus (in_front e ts)
other_than_minus (literal t) ts h g = (literal_kind t.type h).1
other_than_minus (enclosed t e u) ts h g = kind_is TokenType.lparen h.0 TokenType.minus
other_than_minus (negated t e) ts h g = absurd (omega arith)
other_than_minus (inverted t e) ts h g = absurd (omega arith)
other_than_minus (binary t a b) ts h g = absurd (omega (arith, (rank_le t.type).0))

pub own_or_above : (k g : ℕ) → k ≤ g → (suc k ≤ g) ⊎ (g ≡ k)
own_or_above k g h = elim (Bool-cases (leb (suc k) g)) [
  | inl e ↦ inl (ground arith)
  | inr e ↦ inr (ground arith)
]

module _ (expr : Parser Node) where
  pub without_not : (ts : Tokens) → Avoids TokenType.not ts → parse_not expr ts ≡ parse_cmp expr ts
  unfolding parse_not
  without_not [] h = refl
  without_not (t ∷ ts) h = rw h refl

  pub without_minus :
      (ts : Tokens) → Avoids TokenType.minus ts → parse_unary expr ts ≡ parse_primary expr ts
  unfolding parse_unary
  without_minus [] h = refl
  without_minus (t ∷ ts) h = rw h refl

  -- What the parser's methods make of a phrase, as far as its operator is theirs.
  pub record Reading (e : Phrase) : Type 0 where
    pub primary : 8 ≤ grade e → Parsed (parse_primary expr) 8 e
    pub unary : 7 ≤ grade e → Parsed (parse_unary expr) 7 e
    pub mul : 6 ≤ grade e → Chained is_mul (parse_unary expr) 6 e
    pub add : 5 ≤ grade e → Chained is_add (parse_mul expr) 5 e
    pub cmp : 4 ≤ grade e → Chained is_cmp (parse_add expr) 4 e
    pub not : 3 ≤ grade e → Parsed (parse_not expr) 3 e
    pub and : 2 ≤ grade e → Chained is_and (parse_not expr) 2 e
    pub or : 1 ≤ grade e → Chained is_or (parse_and expr) 1 e

  -- The same where the phrase's operator is the method's own.
  pub record Own (e : Phrase) : Type 0 where
    pub own_8 : grade e ≡ 8 → Parsed (parse_primary expr) 8 e
    pub own_7 : grade e ≡ 7 → Parsed (parse_unary expr) 7 e
    pub own_6 : grade e ≡ 6 → Chained is_mul (parse_unary expr) 6 e
    pub own_5 : grade e ≡ 5 → Chained is_add (parse_mul expr) 5 e
    pub own_4 : grade e ≡ 4 → Chained is_cmp (parse_add expr) 4 e
    pub own_3 : grade e ≡ 3 → Parsed (parse_not expr) 3 e
    pub own_2 : grade e ≡ 2 → Chained is_and (parse_not expr) 2 e
    pub own_1 : grade e ≡ 1 → Chained is_or (parse_and expr) 1 e

  pub mul_done : (e : Phrase) → Chained is_mul (parse_unary expr) 6 e → Parsed (parse_mul expr) 6 e
  unfolding parse_mul
  mul_done e h = chain_done is_mul (parse_unary expr) 6 (λ t. (ranked t).4) e h

  pub add_done : (e : Phrase) → Chained is_add (parse_mul expr) 5 e → Parsed (parse_add expr) 5 e
  unfolding parse_add
  add_done e h = chain_done is_add (parse_mul expr) 5 (λ t. (ranked t).3) e h

  pub cmp_done : (e : Phrase) → Chained is_cmp (parse_add expr) 4 e → Parsed (parse_cmp expr) 4 e
  unfolding parse_cmp
  cmp_done e h = chain_done is_cmp (parse_add expr) 4 (λ t. (ranked t).2) e h

  pub and_done : (e : Phrase) → Chained is_and (parse_not expr) 2 e → Parsed (parse_and expr) 2 e
  unfolding parse_and
  and_done e h = chain_done is_and (parse_not expr) 2 (λ t. (ranked t).1) e h

  pub or_done : (e : Phrase) → Chained is_or (parse_and expr) 1 e → Parsed (parse_or expr) 1 e
  unfolding parse_or
  or_done e h = chain_done is_or (parse_and expr) 1 (λ t. (ranked t).0) e h
