-- ===== src/KissVm/Tests.antt =====
-- Runs of the KISS VM stages on small scripts, and the theorems at concrete inputs.
use kiss_vm_interpreter.Prelude.{
  ℕ, ◌+◌, ◌-◌, ◌*◌, ◌/◌, ◌%◌, ◌≡◌, refl, ◌≢◌, ◌≤◌, true, false, List, [], ◌∷◌, map, Option, none,
  some, arith, Bytes, codes, ltb, ◌==◌, if◌then◌else◌, same, length, is_space, is_digit, is_alpha,
  is_alnum, to_upper, is_xdigit,
}
use kiss_vm_interpreter.KissVm.Token.{Token, TokenType, index}
use kiss_vm_interpreter.KissVm.Scan.{Scan, ok, ◌>>=◌}
use kiss_vm_interpreter.KissVm.Tokenizer.{tokenize}
use kiss_vm_interpreter.KissVm.Tokenizer.Proper.{all}
use kiss_vm_interpreter.KissVm.Node.{Node, node, nil, cons, NodeKind}
use kiss_vm_interpreter.KissVm.Parser.{parse_expr}
use kiss_vm_interpreter.KissVm.Parser.Statements.{parse}
use kiss_vm_interpreter.KissVm.Value.{Numbers, below, equal, above, Value, boolean, number}
use kiss_vm_interpreter.KissVm.Interpreter.{
  Builtins, State, Outcome, value, done, raised, loop_limit, missing_child, bad_hex_literal,
  instruction_limit, neq_reads_no_children, hex_literal_bytes,
}
use kiss_vm_interpreter.KissVm.Interpreter.Exec.{run_script}
use kiss_vm_interpreter.KissVm.Interpreter.Eval.{eval_node, eval_first}
use kiss_vm_interpreter.KissVm.Interpreter.Pure.{eval_node-env}
use kiss_vm_interpreter.KissVm.Interpreter.Hex.{hex_literal_bytes_total}
use kiss_vm_interpreter.KissVm.Interpreter.Guarantees.{
  run_script_terminates, run_script-ne-loop_limit, run_script_reads_children,
}
use kiss_vm_interpreter.KissVm.Environment.{set, get}
use kiss_vm_interpreter.KissVm.Contract.{Contract}

-- Natural numbers in place of MiniNumber, for runs.
abbrev digits_from : ℕ → Bytes → Option ℕ
digits_from acc [] = some acc
digits_from acc (c ∷ cs) =
    let rest = digits_from (acc * 10 + (c - b'0')) cs in
    elim (ltb c b'0') [ true ↦ none | false ↦ rest ]

abbrev naturals : Numbers
naturals = record {
  Num = ℕ;
  of_text = digits_from 0;
  of_int = λ k. k;
  add = λ a b. some (a + b);
  sub = λ a b. some (a - b);
  mult = λ a b. some (a * b);
  div = λ a b. if b == 0 then none else some (a / b);
  modulo = λ a b. if b == 0 then none else some (a % b);
  compare_to = λ a b. if ltb a b then below else if a == b then equal else above;
  is_zero = λ a. a == 0;
  text = λ a. a ∷ [];
}

-- One built-in function, LEN, in place of the registry.
abbrev only_len : Builtins ℕ
only_len = record { has = same (codes "LEN"); call = λ name args env. value (number 3) }

abbrev fresh : State ℕ
fresh = record { env = []; count = 0 }

run : Bytes → Outcome ℕ (Value ℕ) × State ℕ
unfolding run_script tokenize is_space is_digit is_alpha is_alnum parse parse_expr to_upper
    eval_first get set
run src = run_script naturals only_len 1025 src fresh

-- An IF, an assignment and a RETURN: the value 10 after 15 instructions.
return_runs :
    run (codes "LET x = (2 + 3) IF x EQ 5 THEN RETURN x * 2 ELSE RETURN FALSE ENDIF")
    ≡ (done (number 10), record { env = (codes "x", number 5) ∷ []; count = 15 })
unfolding run
return_runs = refl

-- A loop without an end meets the instruction limit.
endless_loop_runs : (run (codes "WHILE TRUE DO LET x = 1 ENDWHILE")).0 ≡ raised instruction_limit
unfolding run
endless_loop_runs = refl

-- So does a script that executes itself.
endless_exec_runs : (run (codes "LET s = [EXEC s] EXEC s")).0 ≡ raised instruction_limit
unfolding run
endless_exec_runs = refl

neq_runs : (run (codes "1 NEQ 2")).0 ≡ raised neq_reads_no_children
unfolding run
neq_runs = refl

-- `5-3` is two number literals.
types : Scan (List Token) → Scan (List ℕ)
types r = r >>= λ ts. ok (map (λ (t : Token). index t.type) ts)

minus_runs : types (tokenize (codes "5-3")) ≡ ok (0 ∷ 0 ∷ 34 ∷ [])
unfolding tokenize types is_space is_digit
minus_runs = refl

abbrev comparison : Bytes
comparison = codes "IF (x + 1) LT 0xFF THEN ASSERT [a] ENDIF /* done */"

abbrev self_exec : Bytes
self_exec = codes "LET s = [EXEC s] EXEC s"

abbrev contract : Contract ℕ
contract = record { src = comparison; env = []; instr_count = 0; result = false; trace = none }

hex_literal_bytes_total_example :
    (bs : Bytes) × (hex_literal_bytes (codes "0xABC") ≡ some bs)
    × (2 * length bs ≡ length (codes "0xABC") - 2 + length (codes "0xABC") % 2)
unfolding all is_xdigit
hex_literal_bytes_total_example =
    hex_literal_bytes_total (codes "0xABC") (codes "ABC", refl, cc, refl)

run_script_terminates_example :
    ((run_script naturals only_len 1024 self_exec fresh).0 ≢ Outcome.out_of_fuel)
    × (0 ≤ (run_script naturals only_len 1024 self_exec fresh).1.count)
    × ((run_script naturals only_len 1024 self_exec fresh).1.count ≤ 1025)
run_script_terminates_example =
    run_script_terminates naturals only_len 1024 self_exec fresh (omega arith) (omega arith)

run_script-ne-loop_limit_example :
    (run_script naturals only_len 1024 self_exec fresh).0 ≢ raised loop_limit
run_script-ne-loop_limit_example =
    run_script-ne-loop_limit naturals only_len 1024 self_exec fresh (omega arith) (omega arith)

run_script_reads_children_example :
    ((run_script naturals only_len 1024 self_exec fresh).0 ≢ raised missing_child)
    × ((run_script naturals only_len 1024 self_exec fresh).0 ≢ raised bad_hex_literal)
run_script_reads_children_example =
    run_script_reads_children naturals only_len 1024 self_exec fresh (omega arith) (omega arith)

-- x + 1
abbrev sum_node : Node
sum_node =
    node NodeKind.binary (record { type = TokenType.plus; value = codes "+"; line = 1; col = 3 })
      (cons (variable) (cons (literal) nil)) [] false
  where
    variable : Node
    variable =
        node NodeKind.var
          (record { type = TokenType.identifier; value = codes "x"; line = 1; col = 1 }) nil
          (codes "x") false

    literal : Node
    literal =
        node NodeKind.num_lit
          (record { type = TokenType.number_literal; value = codes "1"; line = 1; col = 5 }) nil []
          false

eval_node-env_example : (eval_node naturals only_len sum_node fresh).1.env ≡ []
eval_node-env_example = eval_node-env naturals only_len sum_node fresh

abbrev flag : Value ℕ
flag = boolean true
