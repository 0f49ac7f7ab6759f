-- ===== src/KissVm/Interpreter.antt =====
-- src/kissvm/Interpreter.cpp: the tree walker, over interfaces to MiniNumber and to the function
-- registry of src/kissvm/functions.
pub mod Eval
pub mod Exec
pub mod Hex
pub mod Fine
pub mod Limit
pub mod Pure
pub mod Termination
pub mod Guarantees
use kiss_vm_interpreter.Prelude.{
  ℕ, zero, suc, ◌+◌, ◌*◌, ◌-◌, ◌%◌, Bool, true, false, not, ◌&&◌, ◌||◌, List, [], ◌∷◌, Option, none,
  some, map, length, ltb, ◌==◌, if◌then◌else◌, Bytes, codes, same, is_xdigit, is_digit, to_upper,
}
use kiss_vm_interpreter.KissVm.Token.{TokenType, Token, is, SyntaxError}
use kiss_vm_interpreter.KissVm.Scan
use kiss_vm_interpreter.KissVm.Scan.{Scan, ok, fail}
use kiss_vm_interpreter.KissVm.Node.{NodeKind, Node, Nodes, node, nil, cons}
use kiss_vm_interpreter.KissVm.Tokenizer.{tokenize}
use kiss_vm_interpreter.KissVm.Parser.Statements.{parse}
use kiss_vm_interpreter.KissVm.Value.{
  Sign, Numbers, Value, boolean, number, hex, script, is_true, to_string,
}
use kiss_vm_interpreter.KissVm.Environment.{Env, set, get}

-- How the call of a built-in function ends: in a value, in an exception, or not in a defined way,
-- where it runs for ever, overflows a signed integer or reads past the end of a buffer.
pub data Called (Num : Type 0) : Type 0 where
  value : Value Num → Called Num
  exception undefined : Called Num

-- What the interpreter uses of FunctionRegistry. The built-in functions read the environment and
-- never write it.
pub record Builtins (Num : Type 0) : Type 0 where
  pub has : Bytes → Bool
  pub call : Bytes → List (Value Num) → Env Num → Called Num

-- One constructor for each throw. `function_undefined` is the call of a built-in function that does
-- not end in a defined way. Of the last three, `missing_child` and `neq_reads_no_children`
-- are reads of `children[i]` past the end, which C++ leaves undefined; `bad_hex_literal` stands for
-- what std::stoul does with characters that are not hexadecimal digits.
pub data RunError : Type 0 where
  instruction_limit loop_limit assert_failed exec_requires_script : RunError
  unknown_statement cannot_evaluate unknown_binary unknown_unary : RunError
  requires_number : TokenType → RunError
  unary_minus_requires_number number_error : RunError
  unknown_function function_error function_undefined : Bytes → RunError
  syntax : SyntaxError → RunError
  missing_child bad_hex_literal neq_reads_no_children : RunError

abbrev pub is_undefined : RunError → Bool
is_undefined missing_child = true
is_undefined bad_hex_literal = true
is_undefined neq_reads_no_children = true
is_undefined (function_undefined name) = true
is_undefined _ = false

-- How a step ends: `returned` is a ReturnSignal on its way up.
pub data Outcome {ℓ} (Num : Type 0) (A : Type ℓ) : Type ℓ where
  done : A → Outcome Num A
  returned : Value Num → Outcome Num A
  raised : RunError → Outcome Num A
  out_of_fuel : Outcome Num A

abbrev pub max_instructions : ℕ
max_instructions = 1024

abbrev pub max_loop : ℕ
max_loop = 512

pub record State (Num : Type 0) : Type 0 where
  pub env : Env Num
  pub count : ℕ

abbrev pub Run {ℓ} : Type 0 → Type ℓ → Type ℓ
Run Num A = State Num → Outcome Num A × State Num

module _ {Num : Type 0} where
  abbrev pub pure {ℓ} : {A : Type ℓ} → A → Run Num A
  pure a s = (done a, s)

  abbrev pub raise {ℓ} : {A : Type ℓ} → RunError → Run Num A
  raise e s = (raised e, s)

  -- A signal or an exception passes the rest by.
  abbrev pub bind_outcome {ℓ κ} :
      {A : Type ℓ} {B : Type κ}
      → Outcome Num A × State Num
      → (A → Run Num B)
      → Outcome Num B × State Num
  bind_outcome (done a, s) f = f a s
  bind_outcome (returned v, s) f = (returned v, s)
  bind_outcome (raised e, s) f = (raised e, s)
  bind_outcome (out_of_fuel, s) f = (out_of_fuel, s)

  infixl 5 ◌>>=◌ ◌>>◌
  abbrev pub ◌>>=◌ {ℓ κ} : {A : Type ℓ} {B : Type κ} → Run Num A → (A → Run Num B) → Run Num B
  ◌>>=◌ m f s = bind_outcome (m s) f

  abbrev pub ◌>>◌ {ℓ κ} : {A : Type ℓ} {B : Type κ} → Run Num A → Run Num B → Run Num B
  m >> k = m >>= λ _. k

  -- An optional result whose absence is an exception.
  abbrev pub or_raise {ℓ} : {A : Type ℓ} → Option A → RunError → Run Num A
  or_raise none e = raise e
  or_raise (some a) e = pure a

  -- tick(): the counter goes up also where the limit is met.
  unfoldable pub tick : Run Num (Unit {0})
  tick s =
      let t : State Num = record s { count = s.count + 1 } in
      if ltb max_instructions t.count then (raised instruction_limit, t) else (done tt, t)

  abbrev pub get_env : Run Num (Env Num)
  get_env s = (done s.env, s)

  abbrev pub set_variable : Bytes → Value Num → Run Num (Unit {0})
  set_variable name v s = (done tt, record s { env = set name v s.env })

-- A hexadecimal digit's value, and the bytes that evalHexLit() makes of pairs of digits.
unfoldable pub nibble : ℕ → ℕ
nibble c = if is_digit c then c - b'0' else to_upper c - 55

unfoldable pub pairs : Bytes → Option Bytes
unfolding nibble
pairs [] = some []
pairs (c ∷ []) = none
pairs (c ∷ d ∷ cs) =
    if is_xdigit c && is_xdigit d
    then elim (pairs cs) [ none ↦ none | some bs ↦ some ((nibble c * 16 + nibble d) ∷ bs) ]
    else none

-- substr(2), and a zero in front of an odd number of digits
unfoldable pub hex_literal_bytes : Bytes → Option Bytes
unfolding pairs
hex_literal_bytes (z ∷ x ∷ h) = if length h % 2 == 0 then pairs h else pairs (b'0' ∷ h)
hex_literal_bytes _ = none
