-- ===== src/KissVm/Shape.antt =====
-- The shapes of the trees that src/kissvm/Parser.cpp builds: how many children each kind of node
-- has, and of which kinds. src/kissvm/Interpreter.cpp reads `children[i]` with no test.
use kiss_vm_interpreter.Prelude.{◌≡◌, Bool, true, ◌||◌, Bytes}
use kiss_vm_interpreter.KissVm.Token.{TokenType, Token, is}
use kiss_vm_interpreter.KissVm.Node.{NodeKind, Node, Nodes, node, nil, cons}
use kiss_vm_interpreter.KissVm.Parser.{is_or, is_and, is_cmp, is_add, is_mul}
use kiss_vm_interpreter.KissVm.Tokenizer.Proper.{IsHexLiteral}

unfoldable pub is_binary : TokenType → Bool
is_binary k = is_or k || (is_and k || (is_cmp k || (is_add k || is_mul k)))

mutual
  pub data IsExpr : Node → Type 0 where
    bool_lit : (t : Token) (v : Bytes) (b : Bool) → IsExpr (node NodeKind.bool_lit t nil v b)
    num_lit : (t : Token) (v : Bytes) (b : Bool) → IsExpr (node NodeKind.num_lit t nil v b)
    hex_lit :
        (t : Token) (v : Bytes) (b : Bool)
        → IsHexLiteral t.value
        → IsExpr (node NodeKind.hex_lit t nil v b)
    str_lit : (t : Token) (v : Bytes) (b : Bool) → IsExpr (node NodeKind.str_lit t nil v b)
    var : (t : Token) (v : Bytes) (b : Bool) → IsExpr (node NodeKind.var t nil v b)
    binary :
        (t : Token) (l r : Node) (v : Bytes) (b : Bool)
        → is_binary t.type ≡ true
        → IsExpr l
        → IsExpr r
        → IsExpr (node NodeKind.binary t (cons l (cons r nil)) v b)
    unary :
        (t : Token) (n : Node) (v : Bytes) (b : Bool)
        → (is t.type TokenType.not || is t.type TokenType.minus) ≡ true
        → IsExpr n
        → IsExpr (node NodeKind.unary t (cons n nil) v b)
    call :
        (t : Token) (args : Nodes) (v : Bytes) (b : Bool)
        → IsExprs args
        → IsExpr (node NodeKind.call t args v b)

  pub data IsExprs : Nodes → Type 0 where
    no_exprs : IsExprs nil
    exprs : (n : Node) (ns : Nodes) → IsExpr n → IsExprs ns → IsExprs (cons n ns)

-- The statements with one expression as their only child.
pub data OneExpr : NodeKind → Type 0 where
  let_stmt : OneExpr NodeKind.let_stmt
  return_stmt : OneExpr NodeKind.return_stmt
  assert_stmt : OneExpr NodeKind.assert_stmt
  exec_stmt : OneExpr NodeKind.exec_stmt
  mast_stmt : OneExpr NodeKind.mast_stmt
  expr_stmt : OneExpr NodeKind.expr_stmt

mutual
  pub data IsStmt : Node → Type 0 where
    simple :
        (k : NodeKind) (t : Token) (e : Node) (v : Bytes) (b : Bool)
        → OneExpr k
        → IsExpr e
        → IsStmt (node k t (cons e nil) v b)
    if_stmt :
        (t : Token) (c b : Node) (rest : Nodes) (v : Bytes) (x : Bool)
        → IsExpr c
        → IsStmt b
        → IsBranches rest
        → IsStmt (node NodeKind.if_stmt t (cons c (cons b rest)) v x)
    while_stmt :
        (t : Token) (c : Node) (body : Nodes) (v : Bytes) (b : Bool)
        → IsExpr c
        → IsStmts body
        → IsStmt (node NodeKind.while_stmt t (cons c body) v b)
    program :
        (t : Token) (ss : Nodes) (v : Bytes) (b : Bool)
        → IsStmts ss
        → IsStmt (node NodeKind.program t ss v b)

  pub data IsStmts : Nodes → Type 0 where
    no_stmts : IsStmts nil
    stmts : (s : Node) (ss : Nodes) → IsStmt s → IsStmts ss → IsStmts (cons s ss)

  -- What stands behind the then-block: pairs for ELSEIF, and a block for ELSE.
  pub data IsBranches : Nodes → Type 0 where
    no_branch : IsBranches nil
    otherwise : (b : Node) → IsStmt b → IsBranches (cons b nil)
    elseif :
        (c b : Node) (rest : Nodes)
        → IsExpr c
        → IsStmt b
        → IsBranches rest
        → IsBranches (cons c (cons b rest))

-- What parse() returns: a PROGRAM node.
pub data IsProgram : Node → Type 0 where
  program_of :
      (t : Token) (ss : Nodes) (v : Bytes) (b : Bool)
      → IsStmts ss
      → IsProgram (node NodeKind.program t ss v b)
