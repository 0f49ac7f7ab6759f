-- ===== src/KissVm/Parser/Statements.antt =====
-- The statements of src/kissvm/Parser.cpp. parseStatement() calls itself inside blocks: the
-- functions below take it as their argument `self`.
use kiss_vm_interpreter.Prelude.{
  ℕ, zero, suc, Bool, false, not, ◌&&◌, [], ◌∷◌, ◌++◌, if◌then◌else◌, codes,
}
use kiss_vm_interpreter.KissVm.Token.{TokenType}
use kiss_vm_interpreter.KissVm.Scan
use kiss_vm_interpreter.KissVm.Scan.{Scan, ok, fail, out_of_fuel}
use kiss_vm_interpreter.KissVm.Node.{NodeKind, Node, Nodes, node, nil, cons, make_node}
use kiss_vm_interpreter.KissVm.Parser.{
  Tokens, Parser, pure, ◌>>=◌, ◌>>◌, fuelled, eof, peek, look, consume, check_keyword, at_end,
  token_is_block_end, expect, parse_expr,
}

-- while (!atEnd() && !stop()) children.push_back(parseStatement());
unfoldable pub statements : (Tokens → Bool) → Parser Node → ℕ → Parser Nodes
unfolding at_end
statements stop self zero ts = out_of_fuel
statements stop self (suc f) ts =
    let more = ◌>>=◌ self (λ s. statements stop self f >>= λ ss. pure (cons s ss)) ts in
    if not (at_end ts) && not (stop ts) then more else ok (nil, ts)

abbrev pub at_block_end : Tokens → Bool
at_block_end ts = token_is_block_end (peek ts)

-- The block loop of parse() and of parseIf().
unfoldable pub block : Parser Node → Parser Node
unfolding statements token_is_block_end look peek
block self = do
  t ← look
  ss ← fuelled (statements at_block_end self)
  pure (make_node NodeKind.program t ss)

unfoldable pub parse_let : Parser Node
unfolding consume expect
parse_let = do
  t ← consume
  name ← expect TokenType.identifier (codes "variable name")
  expect TokenType.assign (codes "=")
  e ← parse_expr
  pure (node NodeKind.let_stmt t (cons e nil) name.value false)

-- if (checkKeyword("ELSE")) …
unfoldable pub parse_else : Parser Node → Parser Nodes
unfolding check_keyword block consume
parse_else self ts =
    if check_keyword (codes "ELSE") ts
    then ◌>>=◌ (consume >> block self) (λ b. pure (cons b nil)) ts
    else ok (nil, ts)

-- while (checkKeyword("ELSEIF")) …, and the else-block behind it
unfoldable pub parse_elseifs : Parser Node → ℕ → Parser Nodes
unfolding check_keyword block consume expect parse_else
parse_elseifs self zero ts = out_of_fuel
parse_elseifs self (suc f) ts =
    let more =
      (do
        consume
        c ← parse_expr
        expect TokenType.keyword (codes "THEN")
        b ← block self
        rest ← parse_elseifs self f
        pure (cons c (cons b rest)))
        ts in
    if check_keyword (codes "ELSEIF") ts then more else parse_else self ts

unfoldable pub parse_if : Parser Node → Parser Node
unfolding consume expect block parse_elseifs
parse_if self = do
  t ← consume
  c ← parse_expr
  expect TokenType.keyword (codes "THEN")
  b ← block self
  rest ← fuelled (parse_elseifs self)
  expect TokenType.keyword (codes "ENDIF")
  pure (make_node NodeKind.if_stmt t (cons c (cons b rest)))

abbrev pub at_endwhile : Tokens → Bool
at_endwhile ts = check_keyword (codes "ENDWHILE") ts

-- The body's statements are the children behind the condition.
unfoldable pub parse_while : Parser Node → Parser Node
unfolding consume expect statements check_keyword
parse_while self = do
  t ← consume
  c ← parse_expr
  expect TokenType.keyword (codes "DO")
  body ← fuelled (statements at_endwhile self)
  expect TokenType.keyword (codes "ENDWHILE")
  pure (make_node NodeKind.while_stmt t (cons c body))

-- parseReturn(), parseAssert(), parseExec() and parseMast() differ in the kind alone.
unfoldable pub parse_keyword_expr : NodeKind → Parser Node
unfolding consume
parse_keyword_expr k = do t ← consume; e ← parse_expr; pure (make_node k t (cons e nil))

unfoldable pub parse_expr_stmt : Parser Node
unfolding look
parse_expr_stmt = do t ← look; e ← parse_expr; pure (make_node NodeKind.expr_stmt t (cons e nil))

-- parseStatement()
unfoldable pub statement : Parser Node → Parser Node
unfolding parse_let parse_if parse_while parse_keyword_expr parse_expr_stmt check_keyword
statement self ts =
    if check_keyword (codes "LET") ts
    then parse_let ts
    else if check_keyword (codes "IF") ts
    then parse_if self ts
    else if check_keyword (codes "WHILE") ts
    then parse_while self ts
    else if check_keyword (codes "RETURN") ts
    then parse_keyword_expr NodeKind.return_stmt ts
    else if check_keyword (codes "ASSERT") ts
    then parse_keyword_expr NodeKind.assert_stmt ts
    else if check_keyword (codes "EXEC") ts
    then parse_keyword_expr NodeKind.exec_stmt ts
    else if check_keyword (codes "MAST") ts
    then parse_keyword_expr NodeKind.mast_stmt ts
    else parse_expr_stmt ts

-- A unit of fuel for each IF or WHILE that is open.
unfoldable pub parse_statement_on : ℕ → Parser Node
unfolding statement
parse_statement_on zero ts = out_of_fuel
parse_statement_on (suc f) ts = statement (parse_statement_on f) ts

unfoldable pub parse_statement : Parser Node
unfolding parse_statement_on
parse_statement = fuelled parse_statement_on

-- Parser::Parser and Parser::parse(): what stands behind a closing keyword is not read.
unfoldable pub parse : Tokens → Scan Node
unfolding block parse_statement
parse tokens = Scan.◌>>=◌ (block parse_statement (tokens ++ eof ∷ [])) (λ (n, rest). ok n)
