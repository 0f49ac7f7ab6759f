-- ===== src/KissVm/Parser/Total.antt =====
-- Every statement method of src/kissvm/Parser.cpp returns, and the tree has the right shape.
use kiss_vm_interpreter.Prelude.{
  ℕ, zero, suc, ◌+◌, ◌<◌, ◌≡◌, Bool, true, false, not, ◌&&◌, List, [], ◌∷◌, ◌++◌, length, arith,
  Bytes, codes,
}
use kiss_vm_interpreter.KissVm.Token.{TokenType, Token, is}
use kiss_vm_interpreter.KissVm.Scan.{Ends, gives, Ends-if, Ends-bind}
use kiss_vm_interpreter.KissVm.Node.{NodeKind, Node}
use kiss_vm_interpreter.KissVm.Tokenizer.Proper.{IsTokenList, IsProper, IsHexLiteral}
use kiss_vm_interpreter.KissVm.Shape.{
  OneExpr, IsStmt, IsStmts, IsBranches, IsProgram, simple, if_stmt, while_stmt, program, no_stmts,
  stmts, no_branch, otherwise, elseif, program_of,
}
use kiss_vm_interpreter.KissVm.Parser.{
  Tokens, Parser, eof, peek, look, consume, check_keyword, at_end,
}
use kiss_vm_interpreter.KissVm.Parser.Expressions.{
  IsGood, Reads, Reads-le, expect-Reads, parse_expr-Reads,
}
use kiss_vm_interpreter.KissVm.Parser.Statements.{
  statements, at_block_end, block, parse_let, parse_else, parse_elseifs, parse_if, at_endwhile,
  parse_while, parse_keyword_expr, parse_expr_stmt, statement, parse_statement_on, parse_statement,
  parse,
}

abbrev ReadsStmt : ℕ → Parser Node → Type 0
ReadsStmt n p = (ts : Tokens) → IsGood ts → length ts < n → Reads IsStmt (length ts) (p ts)

consume-Reads : (ts : Tokens) → IsGood ts → Reads (λ _. Unit {0}) (suc (length ts)) (consume ts)
unfolding consume
consume-Reads [] g = gives (tt, omega arith, tt)
consume-Reads (t ∷ ts) g = gives (tt, omega arith, g.1)

-- Where a keyword was seen the parser passes it.
consume_keyword-Reads :
    (kw : Bytes) (ts : Tokens)
    → IsGood ts
    → check_keyword kw ts ≡ true
    → Reads (λ _. Unit {0}) (length ts) (consume ts)
unfolding consume check_keyword
consume_keyword-Reads kw [] g h = cc
consume_keyword-Reads kw (t ∷ ts) g h = gives (tt, omega arith, g.1)

parse_let-Reads : (ts : Tokens) → IsGood ts → Reads IsStmt (length ts) (parse_let ts)
unfolding parse_let
parse_let-Reads ts g = Ends-bind (consume-Reads ts g) λ (t, us) (_, lu, gu).
    Ends-bind (expect-Reads TokenType.identifier (codes "variable name") us gu)
      λ (name, vs) (_, lv, gv).
        Ends-bind (expect-Reads TokenType.assign (codes "=") vs gv) λ (_, ws) (_, lw, gw).
          Ends-bind (parse_expr-Reads ws gw)
            λ (e, xs) (he, lx, gx). gives (simple _ t e _ _ OneExpr.let_stmt he, omega arith, gx)

parse_keyword_expr-Reads :
    (k : NodeKind)
    → OneExpr k
    → (ts : Tokens) → IsGood ts
    → Reads IsStmt (length ts) (parse_keyword_expr k ts)
unfolding parse_keyword_expr
parse_keyword_expr-Reads k one ts g = Ends-bind (consume-Reads ts g) λ (t, us) (_, lu, gu).
    Ends-bind (parse_expr-Reads us gu)
      λ (e, vs) (he, lv, gv). gives (simple k t e _ _ one he, omega arith, gv)

parse_expr_stmt-Reads : (ts : Tokens) → IsGood ts → Reads IsStmt (length ts) (parse_expr_stmt ts)
unfolding parse_expr_stmt look
parse_expr_stmt-Reads ts g =
    Ends-bind (parse_expr-Reads ts g)
      λ (e, us) (he, lu, gu). gives (simple _ (peek ts) e _ _ OneExpr.expr_stmt he, lu, gu)

module _ (n : ℕ) (self : Parser Node) (h : ReadsStmt n self) where
  statements-Reads :
      (stop : Tokens → Bool) (f : ℕ) (ts : Tokens)
      → IsGood ts
      → length ts < f
      → length ts < n
      → Reads IsStmts (suc (length ts)) (statements stop self f ts)
  unfolding statements
  statements-Reads stop zero ts g lt ltn = absurd (omega arith)
  statements-Reads stop (suc f) ts g lt ltn =
      Ends-if (not (at_end ts) && not (stop ts))
        (λ _. Ends-bind (h ts g ltn) λ (s, us) (hs, lu, gu).
          Ends-bind (statements-Reads stop f us gu (omega arith) (omega arith))
            λ (ss, vs) (hss, lv, gv). gives (stmts s ss hs hss, omega arith, gv))
        (λ _. gives (no_stmts, omega arith, g))

  block-Reads :
      (ts : Tokens) → IsGood ts → length ts < n → Reads IsStmt (suc (length ts)) (block self ts)
  unfolding block
  block-Reads ts g lt =
      Ends-bind (statements-Reads at_block_end (length ts + 1) ts g (omega arith) lt)
        λ (ss, us) (hss, lu, gu). gives (program (peek ts) ss _ _ hss, lu, gu)

  parse_else-Reads :
      (ts : Tokens)
      → IsGood ts
      → length ts < n
      → Reads IsBranches (suc (length ts)) (parse_else self ts)
  unfolding parse_else
  parse_else-Reads ts g lt =
      Ends-if (check_keyword (codes "ELSE") ts)
        (λ _.
          Ends-bind
            (Ends-bind (consume-Reads ts g) λ (_, us) (_, lu, gu).
              Reads-le IsStmt (suc (length us)) (suc (length ts)) (omega arith)
                (block-Reads us gu (omega arith)))
            λ (b, vs) (hb, lv, gv). gives (otherwise b hb, omega arith, gv))
        (λ _. gives (no_branch, omega arith, g))

  parse_elseifs-Reads :
      (f : ℕ) (ts : Tokens)
      → IsGood ts
      → length ts < f
      → length ts < n
      → Reads IsBranches (suc (length ts)) (parse_elseifs self f ts)
  unfolding parse_elseifs
  parse_elseifs-Reads zero ts g lt ltn = absurd (omega arith)
  parse_elseifs-Reads (suc f) ts g lt ltn =
      Ends-if (check_keyword (codes "ELSEIF") ts)
        (λ k. Ends-bind (consume-Reads ts g) λ (_, us) (_, lu, gu).
          Ends-bind (parse_expr-Reads us gu) λ (c, vs) (hc, lv, gv).
            Ends-bind (expect-Reads TokenType.keyword (codes "THEN") vs gv) λ (_, ws) (_, lw, gw).
              Ends-bind (block-Reads ws gw (omega arith)) λ (b, xs) (hb, lx, gx).
                Ends-bind (parse_elseifs-Reads f xs gx (omega arith) (omega arith))
                  λ (rest, ys) (hr, ly, gy). gives (elseif c b rest hc hb hr, omega arith, gy))
        (λ _. parse_else-Reads ts g ltn)

  parse_if-Reads :
      (ts : Tokens)
      → IsGood ts
      → check_keyword (codes "IF") ts ≡ true
      → length ts < suc n
      → Reads IsStmt (length ts) (parse_if self ts)
  unfolding parse_if
  parse_if-Reads ts g k lt =
      Ends-bind (consume_keyword-Reads (codes "IF") ts g k) λ (t, us) (_, lu, gu).
        Ends-bind (parse_expr-Reads us gu) λ (c, vs) (hc, lv, gv).
          Ends-bind (expect-Reads TokenType.keyword (codes "THEN") vs gv) λ (_, ws) (_, lw, gw).
            Ends-bind (block-Reads ws gw (omega arith)) λ (b, xs) (hb, lx, gx).
              Ends-bind (parse_elseifs-Reads (length xs + 1) xs gx (omega arith) (omega arith))
                λ (rest, ys) (hr, ly, gy).
                  Ends-bind (expect-Reads TokenType.keyword (codes "ENDIF") ys gy)
                    λ (_, zs) (_, lz, gz). gives (if_stmt t c b rest _ _ hc hb hr, omega arith, gz)

  parse_while-Reads :
      (ts : Tokens)
      → IsGood ts
      → check_keyword (codes "WHILE") ts ≡ true
      → length ts < suc n
      → Reads IsStmt (length ts) (parse_while self ts)
  unfolding parse_while
  parse_while-Reads ts g k lt =
      Ends-bind (consume_keyword-Reads (codes "WHILE") ts g k) λ (t, us) (_, lu, gu).
        Ends-bind (parse_expr-Reads us gu) λ (c, vs) (hc, lv, gv).
          Ends-bind (expect-Reads TokenType.keyword (codes "DO") vs gv) λ (_, ws) (_, lw, gw).
            Ends-bind
              (statements-Reads at_endwhile (length ws + 1) ws gw (omega arith) (omega arith))
              λ (body, xs) (hb, lx, gx).
                Ends-bind (expect-Reads TokenType.keyword (codes "ENDWHILE") xs gx)
                  λ (_, ys) (_, ly, gy). gives (while_stmt t c body _ _ hc hb, omega arith, gy)

  statement-ReadsStmt : ReadsStmt (suc n) (statement self)
  unfolding statement
  statement-ReadsStmt ts g lt =
      Ends-if (check_keyword (codes "LET") ts) (λ _. parse_let-Reads ts g)
        (λ _.
          Ends-if (check_keyword (codes "IF") ts) (λ k. parse_if-Reads ts g k lt)
            (λ _.
              Ends-if (check_keyword (codes "WHILE") ts) (λ k. parse_while-Reads ts g k lt)
                (λ _.
                  Ends-if (check_keyword (codes "RETURN") ts)
                    (λ _. parse_keyword_expr-Reads NodeKind.return_stmt OneExpr.return_stmt ts g)
                    (λ _.
                      Ends-if (check_keyword (codes "ASSERT") ts)
                        (λ _.
                          parse_keyword_expr-Reads NodeKind.assert_stmt OneExpr.assert_stmt ts g)
                        (λ _.
                          Ends-if (check_keyword (codes "EXEC") ts)
                            (λ _.
                              parse_keyword_expr-Reads NodeKind.exec_stmt OneExpr.exec_stmt ts g)
                            (λ _.
                              Ends-if (check_keyword (codes "MAST") ts)
                                (λ _.
                                  parse_keyword_expr-Reads NodeKind.mast_stmt OneExpr.mast_stmt ts
                                    g)
                                (λ _. parse_expr_stmt-Reads ts g)))))))

parse_statement_on-ReadsStmt : (f : ℕ) → ReadsStmt f (parse_statement_on f)
unfolding parse_statement_on
parse_statement_on-ReadsStmt zero ts g lt = absurd (omega arith)
parse_statement_on-ReadsStmt (suc f) ts g lt =
    statement-ReadsStmt f (parse_statement_on f) (parse_statement_on-ReadsStmt f) ts g lt

parse_statement-Reads : (n : ℕ) → ReadsStmt n parse_statement
unfolding parse_statement
parse_statement-Reads n ts g lt = parse_statement_on-ReadsStmt (length ts + 1) ts g (omega arith)

IsHexLiteral-IsProper :
    (k : TokenType) (v : Bytes) → IsProper k v → is k TokenType.hex_literal ≡ true → IsHexLiteral v
IsHexLiteral-IsProper TokenType.hex_literal v h e = h
IsHexLiteral-IsProper _ v h e = cc

IsTokenList-IsGood : (ts : List Token) → IsTokenList ts → IsGood (ts ++ eof ∷ [])
IsTokenList-IsGood [] h = absurd h
IsTokenList-IsGood (t ∷ []) h = (λ e. absurd (end_not_hex t.type h e), ((λ e. cc), tt))
  where
    end_not_hex :
        (k : TokenType) → k ≡ TokenType.end_of_script → is k TokenType.hex_literal ≡ true → ⊥
    end_not_hex k p e = ground arith
IsTokenList-IsGood (t ∷ u ∷ ts) h =
    (IsHexLiteral-IsProper t.type t.value h.0, IsTokenList-IsGood (u ∷ ts) h.1)

-- From the tokens of any script the parser returns: it throws one of its errors, or the tree has
-- the shape that the interpreter relies on; the model's fuel always suffices.
pub parse-IsProgram : (ts : List Token) → IsTokenList ts → Ends IsProgram (parse ts)
unfolding parse block
parse-IsProgram ts h =
    let us = ts ++ eof ∷ [] in
    Ends-bind
      (Ends-bind
        (statements-Reads (length us + 1) parse_statement (parse_statement-Reads (length us + 1))
          at_block_end (length us + 1) us (IsTokenList-IsGood ts h) (omega arith) (omega arith))
        λ (ss, vs) (hss, lv, gv). gives {a = (_, vs)} (program_of (peek us) ss [] false hss))
      λ (n, vs) hn. gives hn
