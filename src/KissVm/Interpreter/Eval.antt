-- ===== src/KissVm/Interpreter/Eval.antt =====
-- The expressions of src/kissvm/Interpreter.cpp.
use kiss_vm_interpreter.Prelude.{
  Bool, true, false, not, ◌&&◌, ◌||◌, List, [], ◌∷◌, Option, none, some, if◌then◌else◌, Bytes,
  codes, same,
}
use mathlib.Core.Option
use mathlib.Core.Bool.{xor}
use kiss_vm_interpreter.KissVm.Token.{TokenType, is}
use kiss_vm_interpreter.KissVm.Node.{NodeKind, Node, Nodes, node, nil, cons}
use kiss_vm_interpreter.KissVm.Value.{
  Sign, below, equal, above, Numbers, Value, boolean, number, hex, script, is_true, to_string,
}
use kiss_vm_interpreter.KissVm.Environment.{get}
use kiss_vm_interpreter.KissVm.Interpreter.{
  Builtins, cannot_evaluate, unknown_binary, unknown_unary, requires_number,
  unary_minus_requires_number, number_error, unknown_function, function_error, missing_child,
  Called, value, exception, undefined, function_undefined, bad_hex_literal, neq_reads_no_children,
  Run, pure, raise, ◌>>=◌, ◌>>◌, or_raise, tick, get_env, hex_literal_bytes,
}

-- operator== of two MiniNumbers, two byte arrays or two bools
abbrev pub is_equal : Sign → Bool
is_equal equal = true
is_equal _ = false

abbrev pub is_below : Sign → Bool
is_below below = true
is_below _ = false

abbrev pub is_above : Sign → Bool
is_above above = true
is_above _ = false

module _ (n : Numbers) where
  -- Value::number(MiniNumber(text))
  unfoldable pub number_of : Bytes → Run n.Num (Value n.Num)
  number_of v = or_raise (Option.map number (n.of_text v)) number_error

  -- The EQ case of evalBinary(), in its order of tests.
  unfoldable pub values_equal : Value n.Num → Value n.Num → Bool
  unfolding to_string
  values_equal (number a) (number b) = is_equal (n.compare_to a b)
  values_equal (hex a) (hex b) = same a b
  values_equal (boolean a) (boolean b) = not (xor a b)
  values_equal (script a) (script b) = same a b
  values_equal a b = same (to_string n a) (to_string n b)

  -- A case of evalBinary() that wants numbers.
  abbrev pub on_numbers :
      TokenType
      → (n.Num → n.Num → Run n.Num (Value n.Num))
      → Value n.Num
      → Value n.Num
      → Run n.Num (Value n.Num)
  on_numbers op f (number a) (number b) = f a b
  on_numbers op f a b = raise (requires_number op)

  abbrev pub compared : (Sign → Bool) → n.Num → n.Num → Run n.Num (Value n.Num)
  compared test a b = pure (boolean (test (n.compare_to a b)))

  abbrev pub computed : (n.Num → n.Num → Option n.Num) → n.Num → n.Num → Run n.Num (Value n.Num)
  computed f a b = or_raise (Option.map number (f a b)) number_error

  -- The switch of evalBinary(), with both operands evaluated. NEQ first calls evalBinary() on an
  -- empty node, which reads the first of no children.
  unfoldable pub apply_binary : TokenType → Value n.Num → Value n.Num → Run n.Num (Value n.Num)
  unfolding values_equal
  apply_binary TokenType.xor a b = pure (boolean (xor (is_true n a) (is_true n b)))
  apply_binary TokenType.eq a b = pure (boolean (values_equal a b))
  apply_binary TokenType.neq a b = raise neq_reads_no_children
  apply_binary TokenType.lt a b = on_numbers TokenType.lt (compared is_below) a b
  apply_binary TokenType.gt a b = on_numbers TokenType.gt (compared is_above) a b
  apply_binary TokenType.lte a b = on_numbers TokenType.lte (compared (λ s. not (is_above s))) a b
  apply_binary TokenType.gte a b = on_numbers TokenType.gte (compared (λ s. not (is_below s))) a b
  apply_binary TokenType.plus a b = on_numbers TokenType.plus (computed n.add) a b
  apply_binary TokenType.minus a b = on_numbers TokenType.minus (computed n.sub) a b
  apply_binary TokenType.multiply a b = on_numbers TokenType.multiply (computed n.mult) a b
  apply_binary TokenType.divide a b = on_numbers TokenType.divide (computed n.div) a b
  apply_binary TokenType.modulo a b = on_numbers TokenType.modulo (computed n.modulo) a b
  apply_binary _ a b = raise unknown_binary

  -- evalBinary(), given what its children evaluate to
  unfoldable pub eval_binary :
      TokenType → Run n.Num (Value n.Num) → Run n.Num (Value n.Num) → Run n.Num (Value n.Num)
  unfolding apply_binary is_true
  eval_binary op left right =
      if is op TokenType.and || is op TokenType.nand
      then (do
        a ← left
        if not (is_true n a) then pure (boolean (is op TokenType.nand)) else (do
          b ← right
          let result = is_true n a && is_true n b
          pure (boolean (if is op TokenType.nand then not result else result))))
      else if is op TokenType.or || is op TokenType.nor
      then (do
        a ← left
        if is_true n a then pure (boolean (not (is op TokenType.nor))) else (do
          b ← right
          let result = is_true n a || is_true n b
          pure (boolean (if is op TokenType.nor then not result else result))))
      else (do a ← left; b ← right; apply_binary op a b)

  -- The unary minus subtracts from MiniNumber("0").
  unfoldable pub negate : Value n.Num → Run n.Num (Value n.Num)
  negate (number x) = or_raise (n.of_text (codes "0")) number_error >>= λ z. computed n.sub z x
  negate v = raise unary_minus_requires_number

  unfoldable pub eval_unary : TokenType → Run n.Num (Value n.Num) → Run n.Num (Value n.Num)
  unfolding negate is_true
  eval_unary op operand = do
    v ← operand
    if is op TokenType.not
        then pure (boolean (not (is_true n v)))
        else if is op TokenType.minus
        then negate v
        else raise unknown_unary

  -- An unknown variable is 0.
  unfoldable pub eval_var : Bytes → Run n.Num (Value n.Num)
  unfolding number_of
  eval_var name = do
    env ← get_env
    elim (get name env) [ none ↦ number_of (codes "0") | some v ↦ pure v ]

  unfoldable pub eval_hex_lit : Bytes → Run n.Num (Value n.Num)
  eval_hex_lit v = or_raise (Option.map hex (hex_literal_bytes v)) bad_hex_literal

  abbrev pub of_call : Bytes → Called n.Num → Run n.Num (Value n.Num)
  of_call name (value v) = pure v
  of_call name exception = raise (function_error name)
  of_call name undefined = raise (function_undefined name)

  module _ (reg : Builtins n.Num) where
    unfoldable pub call_function : Bytes → List (Value n.Num) → Run n.Num (Value n.Num)
    call_function name args = do
      env ← get_env
      if reg.has name then of_call name (reg.call name args env) else raise (unknown_function name)

    unfoldable mutual
      unfolding eval_binary eval_unary eval_var eval_hex_lit number_of call_function tick

      -- evalNode(), with the methods that it dispatches to
      pub eval_node : Node → Run n.Num (Value n.Num)
      eval_node (node NodeKind.bool_lit t cs name b) = tick >> pure (boolean b)
      eval_node (node NodeKind.num_lit t cs name b) = tick >> number_of t.value
      eval_node (node NodeKind.hex_lit t cs name b) = tick >> eval_hex_lit t.value
      eval_node (node NodeKind.str_lit t cs name b) = tick >> pure (script t.value)
      eval_node (node NodeKind.var t cs name b) = tick >> eval_var name
      eval_node (node NodeKind.binary t cs name b) =
          tick >> eval_binary t.type (eval_first cs) (eval_second cs)
      eval_node (node NodeKind.unary t cs name b) = tick >> eval_unary t.type (eval_first cs)
      eval_node (node NodeKind.call t cs name b) = tick >> (eval_args cs >>= call_function name)
      eval_node (node NodeKind.expr_stmt t cs name b) = tick >> eval_first cs
      eval_node (node k t cs name b) = tick >> raise cannot_evaluate

      -- evalNode(*n.children[0]) and evalNode(*n.children[1])
      pub eval_first : Nodes → Run n.Num (Value n.Num)
      eval_first nil = raise missing_child
      eval_first (cons c cs) = eval_node c

      pub eval_second : Nodes → Run n.Num (Value n.Num)
      eval_second (cons c (cons d cs)) = eval_node d
      eval_second _ = raise missing_child

      -- the arguments, from the left
      pub eval_args : Nodes → Run n.Num (List (Value n.Num))
      eval_args nil = pure []
      eval_args (cons c cs) = do v ← eval_node c; vs ← eval_args cs; pure (v ∷ vs)
