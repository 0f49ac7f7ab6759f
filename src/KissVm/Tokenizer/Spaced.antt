-- ===== src/KissVm/Tokenizer/Spaced.antt =====
-- src/kissvm/Tokenizer.cpp: the tokens of a script whose words, numbers and signs stand apart.
use kiss_vm_interpreter.Prelude.{
  ℕ, zero, suc, ◌+◌, ◌≤◌, ◌<◌, ◌≡◌, ◌≢◌, ◌⊎◌, inl, inr, refl, sym, ap, ◌∙◌, subst, false, List, [],
  ◌∷◌, ◌++◌, length, arith, Bytes, is_space, is_digit, is_alpha,
}
use mathlib.Core.Option.{Option, none, some}
use kiss_vm_interpreter.KissVm.Token.{TokenType, Token}
use kiss_vm_interpreter.KissVm.Scan.{Scan, ok, fail, out_of_fuel, ◌>>=◌}
use kiss_vm_interpreter.KissVm.Tokenizer.{
  Lexer, first, after, take_while, skip_whitespace, starts_word, scan_token, scan_from, scan_tokens,
  tokenize, start, push,
}
use kiss_vm_interpreter.KissVm.Tokenizer.Total.{rest-after}
use kiss_vm_interpreter.KissVm.Tokenizer.Pieces.{
  Piece, IsPiece, ArePieces, sign, word, number, sign_char, head, tail, spaced, seen, shown, Tells,
  Takes, scan_token-Takes,
}

sign_black : (k : TokenType) → sign_char k ≢ 0 → is_space (sign_char k) ≡ false
unfolding is_space
sign_black k h = ground arith

starts_black : (p : Piece) → IsPiece p → is_space (head p) ≡ false
unfolding is_space starts_word is_alpha is_digit
starts_black (sign k) h = sign_black k h
starts_black (word c w) h = let k = h.0 in ground arith
starts_black (number c w) h = let k = h.0 in ground arith

-- White space in front, if any, is a space.
abbrev IsSpaced : List Piece → Lexer → Type 0
IsSpaced ps s = (s.rest ≡ spaced ps) ⊎ (s.rest ≡ 32 ∷ spaced ps)

nothing_skipped :
    (ps : List Piece) (s : Lexer)
    → ArePieces ps
    → s.rest ≡ spaced ps
    → (take_while is_space (spaced ps) s).1.rest ≡ spaced ps
unfolding take_while
nothing_skipped [] s h e = e
nothing_skipped (p ∷ ps) s h e = rw (starts_black p h.0) e

skipped :
    (ps : List Piece) (s : Lexer)
    → ArePieces ps
    → IsSpaced ps s
    → (skip_whitespace s).rest ≡ spaced ps
unfolding skip_whitespace
skipped ps s h (inl e) =
    ap (λ (x : Bytes). (take_while is_space x s).1.rest) e ∙ nothing_skipped ps s h e
skipped ps s h (inr e) =
    let t = after 32 s (spaced ps) in
    let one : (take_while is_space (32 ∷ spaced ps) s).1 ≡ (take_while is_space (spaced ps) t).1 =
      unfold take_while is_space in refl in
    ap (λ (x : Bytes). (take_while is_space x s).1.rest) e
    ∙ (ap (λ (u : Lexer). u.rest) one ∙ nothing_skipped ps t h (rest-after 32 s (spaced ps)))

one_more :
    (p : Piece) (ps : List Piece) (t : Token) (m : Scan (List Token))
    → shown t ≡ seen p
    → Tells ps m
    → Tells (p ∷ ps) (m >>= λ ts. ok (t ∷ ts))
one_more p ps t (ok ts) e h = cc
one_more p ps t (fail e') e h = absurd h
one_more p ps t out_of_fuel e h = absurd h

round_and_rest :
    (more : Lexer → Scan (List Token)) (p : Piece) (ps : List Piece)
    (r : Scan (Option Token × Lexer))
    → Takes p (spaced ps) r
    → ((u : Lexer) → u.rest ≡ 32 ∷ spaced ps → Tells ps (more u))
    → Tells (p ∷ ps) (r >>= λ (o, u). more u >>= λ ts. ok (push o ts))
round_and_rest more p ps (ok (some t, u)) (e, h) k = one_more p ps t (more u) e (k u h)
round_and_rest more p ps (ok (none, u)) h k = absurd h
round_and_rest more p ps (fail e) h k = absurd h
round_and_rest more p ps out_of_fuel h k = absurd h

scan_from-Tells :
    (more : Lexer → Scan (List Token)) (ps : List Piece) (t : Lexer)
    → ArePieces ps
    → t.rest ≡ spaced ps
    → ((qs : List Piece) (u : Lexer)
        → length qs < length ps
        → ArePieces qs
        → u.rest ≡ 32 ∷ spaced qs
        → Tells qs (more u))
    → Tells ps (scan_from more (spaced ps) t)
unfolding scan_from
scan_from-Tells more [] t h e k = refl
scan_from-Tells more (p ∷ ps) t h e k =
    round_and_rest more p ps (scan_token (head p) (first (tail p ++ 32 ∷ spaced ps)) t)
      (scan_token-Takes p (spaced ps) t h.0 e) (λ u g. k ps u (omega arith) h.1 g)

scan_tokens-Tells :
    (f : ℕ) (ps : List Piece) (s : Lexer)
    → length ps < f
    → ArePieces ps
    → IsSpaced ps s
    → Tells ps (scan_tokens f s)
unfolding scan_tokens
scan_tokens-Tells zero ps s lt h k = absurd (omega arith)
scan_tokens-Tells (suc f) ps s lt h k =
    let t = skip_whitespace s in
    let e = skipped ps s h k in
    subst (λ (cs : Bytes). Tells ps (scan_from (scan_tokens f) cs t)) (sym e)
      (scan_from-Tells (scan_tokens f) ps t h e
        (λ qs u less g r. scan_tokens-Tells f qs u (omega arith) g (inr r)))

length-append_ge : (w cs : Bytes) → length cs ≤ length (w ++ cs)
length-append_ge [] cs = omega arith
length-append_ge (c ∷ w) cs = omega (arith, length-append_ge w cs)

length-spaced : (ps : List Piece) → length ps ≤ length (spaced ps)
length-spaced [] = omega arith
length-spaced (p ∷ ps) = omega (arith, length-spaced ps, length-append_ge (tail p) (32 ∷ spaced ps))

-- A script of signs, words and numbers with a space behind each is tokenized without an exception, to
-- one token for each of them, in their order, and END_OF_SCRIPT: a sign gives the kind that it stands
-- for, a number its digits and points, and a word the kind and the spelling that it is classified by.
pub tokenize-Tells : (ps : List Piece) → ArePieces ps → Tells ps (tokenize (spaced ps))
unfolding tokenize
tokenize-Tells ps h =
    scan_tokens-Tells (length (spaced ps) + 1) ps (start (spaced ps))
      (omega (arith, length-spaced ps)) h (inl refl)
