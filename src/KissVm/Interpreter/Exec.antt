-- ===== src/KissVm/Interpreter/Exec.antt =====
-- The statements of src/kissvm/Interpreter.cpp, and its entry point.
use kiss_vm_interpreter.Prelude.{ℕ, zero, suc, false, not, if◌then◌else◌, Bytes}
use kiss_vm_interpreter.KissVm.Scan
use kiss_vm_interpreter.KissVm.Scan.{Scan, ok, fail}
use kiss_vm_interpreter.KissVm.Node.{NodeKind, Node, Nodes, node, nil, cons}
use kiss_vm_interpreter.KissVm.Tokenizer.{tokenize}
use kiss_vm_interpreter.KissVm.Parser.Statements.{parse}
use kiss_vm_interpreter.KissVm.Value.{Numbers, Value, boolean, script, is_true}
use kiss_vm_interpreter.KissVm.Interpreter.{
  Builtins, loop_limit, assert_failed, exec_requires_script, unknown_statement, missing_child,
  syntax, Outcome, done, returned, out_of_fuel, State, Run, pure, raise, ◌>>=◌, ◌>>◌, tick,
  set_variable, max_loop,
}
use kiss_vm_interpreter.KissVm.Interpreter.Eval.{eval_node, eval_first}

-- Tokenizer and Parser on the text of a script
unfoldable pub parse_script : Bytes → Scan Node
parse_script src = Scan.◌>>=◌ (tokenize src) (λ tokens. parse tokens)

abbrev pub children : Node → Nodes
children (node k t cs name b) = cs

-- try { … } catch (ReturnSignal& rs) { return rs.value; }
abbrev pub catch_return :
    {Num : Type 0} → Outcome Num (Value Num) × State Num → Outcome Num (Value Num) × State Num
catch_return (returned v, s) = (done v, s)
catch_return (o, s) = (o, s)

-- throw ReturnSignal(v)
abbrev pub return_signal : {Num : Type 0} → Value Num → Run Num (Unit {0})
return_signal v s = (returned v, s)

module _ (n : Numbers) (reg : Builtins n.Num) where
  abbrev pub eval : Node → Run n.Num (Value n.Num)
  eval c = eval_node n reg c

  -- The loop of execWhile(), with the rounds left before `loopCount` passes MAX_LOOP.
  unfoldable pub while_loop :
      ℕ → Run n.Num (Value n.Num) → Run n.Num (Unit {0}) → Run n.Num (Unit {0})
  unfolding tick is_true
  while_loop zero cond body = raise loop_limit
  while_loop (suc k) cond body = do
    tick
    c ← cond
    if not (is_true n c) then pure tt else (body >> while_loop k cond body)

  -- execAssert() on the value of its expression
  unfoldable pub assert_true : Value n.Num → Run n.Num (Unit {0})
  unfolding is_true
  assert_true v = if is_true n v then pure tt else raise assert_failed

  -- A statement's methods, given what EXEC does with a script.
  module _ (exec_script : Bytes → Run n.Num (Unit {0})) where
    -- execExec() and execMast() on the value of their expression
    unfoldable pub exec_value : Value n.Num → Run n.Num (Unit {0})
    exec_value (script src) = exec_script src
    exec_value v = raise exec_requires_script

    unfoldable mutual
      unfolding tick is_true while_loop assert_true exec_value

      -- execStatement(), with the methods that it dispatches to
      pub exec_statement : Node → Run n.Num (Unit {0})
      exec_statement (node NodeKind.let_stmt t cs name b) =
          tick >> (eval_first n reg cs >>= set_variable name)
      exec_statement (node NodeKind.if_stmt t cs name b) = tick >> exec_if cs
      exec_statement (node NodeKind.while_stmt t cs name b) =
          tick >> while_loop max_loop (eval_first n reg cs) (exec_body cs)
      exec_statement (node NodeKind.return_stmt t cs name b) =
          tick >> (eval_first n reg cs >>= return_signal)
      exec_statement (node NodeKind.assert_stmt t cs name b) =
          tick >> (eval_first n reg cs >>= assert_true)
      exec_statement (node NodeKind.exec_stmt t cs name b) =
          tick >> (eval_first n reg cs >>= exec_value)
      exec_statement (node NodeKind.mast_stmt t cs name b) =
          tick >> (eval_first n reg cs >>= exec_value)
      exec_statement (node NodeKind.expr_stmt t cs name b) =
          tick >> (eval_first n reg cs >> pure tt)
      exec_statement (node NodeKind.program t cs name b) = tick >> exec_all cs
      exec_statement (node k t cs name b) = tick >> raise unknown_statement

      -- execIf(): the condition and the then-block
      pub exec_if : Nodes → Run n.Num (Unit {0})
      exec_if nil = raise missing_child
      exec_if (cons c nil) = do v ← eval c; if is_true n v then raise missing_child else pure tt
      exec_if (cons c (cons b rest)) = do
        v ← eval c
        if is_true n v then exec_statement b else exec_branches rest

      -- the loop of execIf() over what stands behind the then-block
      pub exec_branches : Nodes → Run n.Num (Unit {0})
      exec_branches nil = pure tt
      exec_branches (cons b nil) = exec_statement b
      exec_branches (cons c (cons b rest)) = do
        v ← eval c
        if is_true n v then exec_statement b else exec_branches rest

      -- the body of a WHILE: the children from the second on
      pub exec_body : Nodes → Run n.Num (Unit {0})
      exec_body nil = pure tt
      exec_body (cons c body) = exec_all body

      pub exec_all : Nodes → Run n.Num (Unit {0})
      exec_all nil = pure tt
      exec_all (cons s ss) = exec_statement s >> exec_all ss

    -- The two cases of the loop of execute().
    unfoldable pub run_statement : Node → Value n.Num → Run n.Num (Value n.Num)
    unfolding exec_statement
    run_statement (node NodeKind.expr_stmt t cs name b) last = eval_first n reg cs
    run_statement (node k t cs name b) last = exec_statement (node k t cs name b) >> pure last

    unfoldable pub run_statements : Nodes → Value n.Num → Run n.Num (Value n.Num)
    unfolding run_statement tick
    run_statements nil last = pure last
    run_statements (cons s ss) last = do tick; v ← run_statement s last; run_statements ss v

    -- execute()
    unfoldable pub execute : Node → Run n.Num (Value n.Num)
    unfolding run_statements
    execute program s = catch_return (run_statements (children program) (boolean false) s)

    -- A parsed script is executed in the same environment, and its value is dropped.
    unfoldable pub execute_parsed : Scan Node → Run n.Num (Value n.Num)
    unfolding execute
    execute_parsed (ok program) = execute program
    execute_parsed (fail e) = raise (syntax e)
    execute_parsed Scan.out_of_fuel = λ s. (out_of_fuel, s)

  -- What EXEC does with a script, a unit of fuel for each EXEC that is open.
  unfoldable pub exec_script : ℕ → Bytes → Run n.Num (Unit {0})
  unfolding execute_parsed parse_script
  exec_script zero src s = (out_of_fuel, s)
  exec_script (suc f) src s = ((execute_parsed (exec_script f) (parse_script src)) >> pure tt) s

  -- Tokenizer, Parser and Interpreter::execute() on a script, as Contract::execute() calls them
  unfoldable pub run_script : ℕ → Bytes → Run n.Num (Value n.Num)
  unfolding exec_script
  run_script fuel src = execute_parsed (exec_script fuel) (parse_script src)
