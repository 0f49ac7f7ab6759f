-- ===== src/KissVm/Interpreter/Termination.antt =====
-- Every script ends in src/kissvm/Interpreter.cpp, whatever it loops over or executes.
use kiss_vm_interpreter.Prelude.{
  ℕ, zero, suc, ◌+◌, ◌*◌, ◌≤◌, Bool, true, false, not, arith, if◌then◌else◌, Bytes,
}
use kiss_vm_interpreter.KissVm.Token.{Token}
use kiss_vm_interpreter.KissVm.Scan.{Scan, Ends, Ends-bind, raises}
use kiss_vm_interpreter.KissVm.Node.{NodeKind, Node, Nodes, node, nil, cons}
use kiss_vm_interpreter.KissVm.Tokenizer.Total.{tokenize-IsTokenList}
use kiss_vm_interpreter.KissVm.Parser.Total.{parse-IsProgram}
use kiss_vm_interpreter.KissVm.Value.{Numbers, Value, boolean, script, is_true}
use kiss_vm_interpreter.KissVm.Shape.{
  IsExpr, OneExpr, let_stmt, return_stmt, assert_stmt, exec_stmt, mast_stmt, expr_stmt, IsStmt,
  simple, if_stmt, while_stmt, program, IsStmts, no_stmts, stmts, IsBranches, no_branch, otherwise,
  elseif, IsProgram, program_of,
}
use kiss_vm_interpreter.KissVm.Interpreter.{
  Builtins, assert_failed, exec_requires_script, Outcome, State, Run, pure, ◌>>=◌, ◌>>◌,
  set_variable, max_loop, syntax,
}
use kiss_vm_interpreter.KissVm.Interpreter.Eval.{eval_node, eval_first}
use kiss_vm_interpreter.KissVm.Interpreter.Exec.{
  parse_script, catch_return, return_signal, while_loop, assert_true, exec_value, exec_statement,
  exec_branches, exec_all, run_statement, run_statements, execute, execute_parsed, exec_script,
  run_script,
}
use kiss_vm_interpreter.KissVm.Interpreter.Fine.{
  Fine, gives, signals, throws, Fine-bind, Fine-weaken, Keeps, Pays, tick-Fine, Pays-tick,
  Pays-Keeps, Keeps-mono, Keeps-pure, Keeps-raise, Keeps-if, Keeps-bind,
}
use kiss_vm_interpreter.KissVm.Interpreter.Limit.{eval_first-Pays, eval_node-Pays}

Keeps-return_signal : {Num : Type 0} (k : ℕ) (v : Value Num) → Keeps k (return_signal v)
Keeps-return_signal k v s hk hs = signals (omega arith) hs

Keeps-set_variable :
    {Num : Type 0} (k : ℕ) (name : Bytes) (v : Value Num) → Keeps k (set_variable name v)
Keeps-set_variable k name v s hk hs = gives (omega arith) (omega arith) hs

Fine-catch_return :
    {Num : Type 0} {low m : ℕ} {r : Outcome Num (Value Num) × State Num}
    → Fine low m r
    → Fine low low (catch_return r)
Fine-catch_return (gives hm hl h) = gives hl hl h
Fine-catch_return (signals hl h) = gives hl hl h
Fine-catch_return (throws p hl h) = throws p hl h

-- The syntax stages together: errors, or a tree of the right shape.
parse_script-Ends : (src : Bytes) → Ends IsProgram (parse_script src)
unfolding parse_script
parse_script-Ends src = Ends-bind (tokenize-IsTokenList src) (λ ts h. parse-IsProgram ts h)

module _ (n : Numbers) (reg : Builtins n.Num) where
  -- 512 rounds are more than 1024 instructions allow, so the limit on rounds is never met.
  while_loop-Fine :
      (k : ℕ) (cond : Run n.Num (Value n.Num)) (body : Run n.Num (Unit {0}))
      → Pays k cond
      → Keeps k body
      → (r : ℕ) (s : State n.Num) → k ≤ s.count
      → s.count ≤ 1024
      → 1025 ≤ s.count + 2 * r
      → Fine s.count s.count (while_loop n reg r cond body s)
  unfolding while_loop
  while_loop-Fine k cond body hc hb zero s hk hs hr = absurd (omega arith)
  while_loop-Fine k cond body hc hb (suc r) s hk hs hr =
      Fine-bind (tick-Fine s hs) λ _ t more low top.
        Fine-bind (Fine-weaken {m' = suc t.count} low (omega arith) (hc t (omega arith) top))
          λ v u more' low' top'. go (is_true n v) u (omega arith) low' top' (λ w low'' top''.
            while_loop-Fine k cond body hc hb r w (omega arith) top'' (omega arith))
    where
      go :
          (b : Bool) (u : State n.Num)
          → suc (suc s.count) ≤ u.count
          → s.count ≤ u.count
          → u.count ≤ 1024
          → ((w : State n.Num)
              → u.count ≤ w.count
              → w.count ≤ 1024
              → Fine w.count w.count (while_loop n reg r cond body w))
          → Fine s.count s.count
              ((if not b then pure tt else (body >> while_loop n reg r cond body)) u)
      go false u a l h rec = gives l l h
      go true u a l h rec =
          Fine-bind (Fine-weaken {m' = u.count} l (omega arith) (hb u (omega arith) h))
            λ _ w more low top. Fine-weaken low low (rec w more top)

  assert_true-Keeps : (k : ℕ) (v : Value n.Num) → Keeps k (assert_true n reg v)
  unfolding assert_true
  assert_true-Keeps k v =
      Keeps-if k (is_true n v) (Keeps-pure k tt) (Keeps-raise k assert_failed tt)

  module _ (k : ℕ) (es : Bytes → Run n.Num (Unit {0}))
      (hes : (src : Bytes) → Keeps (suc k) (es src)) where
    exec_value-Keeps : (v : Value n.Num) → Keeps (suc k) (exec_value n reg es v)
    unfolding exec_value
    exec_value-Keeps (script src) = hes src
    exec_value-Keeps _ = Keeps-raise (suc k) exec_requires_script tt

    first-Keeps {ℓ} :
        {A : Type ℓ} (e : Node)
        → IsExpr e
        → (f : Value n.Num → Run n.Num A) → ((v : Value n.Num) → Keeps (suc k) (f v))
        → Keeps (suc k) (eval_first n reg (cons e nil) >>= f)
    first-Keeps e h f hf =
        Keeps-bind (suc k) (eval_first n reg (cons e nil)) f
          (Pays-Keeps (suc k) _ (eval_first-Pays n reg e nil h (suc k))) hf

    -- A statement, given that the condition and the parts of the tree do not lower the counter.
    choose-Keeps :
        (c : Node) (x y : Run n.Num (Unit {0}))
        → IsExpr c
        → Keeps (suc k) x
        → Keeps (suc k) y
        → Keeps (suc k) (eval_node n reg c >>= λ v. if is_true n v then x else y)
    choose-Keeps c x y hc hx hy =
        Keeps-bind (suc k) (eval_node n reg c) _
          (Pays-Keeps (suc k) _ (eval_node-Pays n reg hc (suc k)))
          λ v. Keeps-if (suc k) (is_true n v) hx hy

    simple-Pays :
        {kind : NodeKind} (one : OneExpr kind) (t : Token) (e : Node) (v : Bytes) (b : Bool)
        → IsExpr e
        → Pays k (exec_statement n reg es (node kind t (cons e nil) v b))
    unfolding exec_statement
    simple-Pays let_stmt t e v b h =
        Pays-tick k _ (first-Keeps e h (set_variable v) (Keeps-set_variable (suc k) v))
    simple-Pays return_stmt t e v b h =
        Pays-tick k _ (first-Keeps e h return_signal (Keeps-return_signal (suc k)))
    simple-Pays assert_stmt t e v b h =
        Pays-tick k _ (first-Keeps e h (assert_true n reg) (assert_true-Keeps (suc k)))
    simple-Pays exec_stmt t e v b h =
        Pays-tick k _ (first-Keeps e h (exec_value n reg es) exec_value-Keeps)
    simple-Pays mast_stmt t e v b h =
        Pays-tick k _ (first-Keeps e h (exec_value n reg es) exec_value-Keeps)
    simple-Pays expr_stmt t e v b h =
        Pays-tick k _ (first-Keeps e h (λ _. pure tt) (λ _. Keeps-pure (suc k) tt))

    mutual
      unfolding exec_statement

      exec_statement-Pays : {s : Node} → IsStmt s → Pays k (exec_statement n reg es s)
      exec_statement-Pays (simple kind t e v b one h) = simple-Pays one t e v b h
      exec_statement-Pays (if_stmt t c b rest v x hc hb hr) = Pays-tick k _ (
          choose-Keeps c _ _ hc
            (Keeps-mono k (suc k) _ (omega arith) (Pays-Keeps k _ (exec_statement-Pays hb)))
            (exec_branches-Keeps hr))
      exec_statement-Pays (while_stmt t c body v b hc hb) = Pays-tick k _ λ s hk hs.
          while_loop-Fine (suc k) _ _ (eval_first-Pays n reg c body hc (suc k)) (exec_all-Keeps hb)
            max_loop s hk hs (omega arith)
      exec_statement-Pays (program t ss v b h) = Pays-tick k _ (exec_all-Keeps h)

      exec_branches-Keeps : {bs : Nodes} → IsBranches bs → Keeps (suc k) (exec_branches n reg es bs)
      exec_branches-Keeps no_branch = Keeps-pure (suc k) tt
      exec_branches-Keeps (otherwise b h) =
          Keeps-mono k (suc k) _ (omega arith) (Pays-Keeps k _ (exec_statement-Pays h))
      exec_branches-Keeps (elseif c b rest hc hb hr) =
          choose-Keeps c _ _ hc
            (Keeps-mono k (suc k) _ (omega arith) (Pays-Keeps k _ (exec_statement-Pays hb)))
            (exec_branches-Keeps hr)

      exec_all-Keeps : {ss : Nodes} → IsStmts ss → Keeps (suc k) (exec_all n reg es ss)
      exec_all-Keeps no_stmts = Keeps-pure (suc k) tt
      exec_all-Keeps (stmts s ss h hs) =
          Keeps-bind (suc k) (exec_statement n reg es s) _
            (Keeps-mono k (suc k) _ (omega arith) (Pays-Keeps k _ (exec_statement-Pays h)))
            λ _. exec_all-Keeps hs

    statement-Keeps :
        {s : Node}
        → IsStmt s
        → (last : Value n.Num) → Keeps (suc k) (exec_statement n reg es s >> pure last)
    statement-Keeps {s} h last =
        Keeps-bind (suc k) (exec_statement n reg es s) _
          (Keeps-mono k (suc k) _ (omega arith) (Pays-Keeps k _ (exec_statement-Pays h)))
          (λ _. Keeps-pure (suc k) last)

    run_statement-Keeps :
        {s : Node} → IsStmt s → (last : Value n.Num) → Keeps (suc k) (run_statement n reg es s last)
    unfolding run_statement
    run_statement-Keeps (simple _ t e v b expr_stmt h) last =
        Pays-Keeps (suc k) _ (eval_first-Pays n reg e nil h (suc k))
    run_statement-Keeps (simple _ t e v b let_stmt h) last =
        statement-Keeps (simple _ t e v b let_stmt h) last
    run_statement-Keeps (simple _ t e v b return_stmt h) last =
        statement-Keeps (simple _ t e v b return_stmt h) last
    run_statement-Keeps (simple _ t e v b assert_stmt h) last =
        statement-Keeps (simple _ t e v b assert_stmt h) last
    run_statement-Keeps (simple _ t e v b exec_stmt h) last =
        statement-Keeps (simple _ t e v b exec_stmt h) last
    run_statement-Keeps (simple _ t e v b mast_stmt h) last =
        statement-Keeps (simple _ t e v b mast_stmt h) last
    run_statement-Keeps (if_stmt t c b rest v x hc hb hr) last =
        statement-Keeps (if_stmt t c b rest v x hc hb hr) last
    run_statement-Keeps (while_stmt t c body v b hc hb) last =
        statement-Keeps (while_stmt t c body v b hc hb) last
    run_statement-Keeps (program t ss v b h) last = statement-Keeps (program t ss v b h) last

    run_statements-Keeps :
        {ss : Nodes} → IsStmts ss → (last : Value n.Num) → Keeps k (run_statements n reg es ss last)
    unfolding run_statements
    run_statements-Keeps no_stmts last = Keeps-pure k last
    run_statements-Keeps (stmts s ss h hs) last = Pays-Keeps k _ (
        Pays-tick k _ (
          Keeps-bind (suc k) (run_statement n reg es s last) _ (run_statement-Keeps h last)
            (λ v. Keeps-mono k (suc k) _ (omega arith) (run_statements-Keeps hs v))))

    execute-Keeps : {p : Node} → IsProgram p → Keeps k (execute n reg es p)
    unfolding execute
    execute-Keeps (program_of t ss v b h) s hk hs =
        Fine-catch_return (run_statements-Keeps h (boolean false) s hk hs)

    execute_parsed-Keeps : {r : Scan Node} → Ends IsProgram r → Keeps k (execute_parsed n reg es r)
    unfolding execute_parsed
    execute_parsed-Keeps (Ends.gives h) = execute-Keeps h
    execute_parsed-Keeps (raises {e}) = Keeps-raise k (syntax e) tt

  exec_script-Keeps : (f k : ℕ) → 1025 ≤ k + f → (src : Bytes) → Keeps k (exec_script n reg f src)
  unfolding exec_script
  exec_script-Keeps zero k h src s hk hs = absurd (omega arith)
  exec_script-Keeps (suc f) k h src s hk hs =
      Keeps-bind k (execute_parsed n reg (exec_script n reg f) (parse_script src)) _
        (execute_parsed-Keeps k (exec_script n reg f) (exec_script-Keeps f (suc k) (omega arith))
          (parse_script-Ends src))
        (λ _. Keeps-pure k tt) s hk hs

  pub run_script-Fine :
      (fuel : ℕ) (src : Bytes) (s : State n.Num)
      → 1024 ≤ s.count + fuel
      → s.count ≤ 1024
      → Fine s.count s.count (run_script n reg fuel src s)
  unfolding run_script
  run_script-Fine fuel src s h hs =
      execute_parsed-Keeps s.count (exec_script n reg fuel)
        (exec_script-Keeps fuel (suc s.count) (omega arith)) (parse_script-Ends src) s (omega arith)
        hs
