-- ===== src/KissVm/Interpreter/Pure.antt =====
-- Expressions of src/kissvm/Interpreter.cpp leave the environment alone: only LET writes it.
use kiss_vm_interpreter.Prelude.{
  ◌≡◌, refl, ◌∙◌, Bool, true, false, not, ◌||◌, List, Option, none, some, if◌then◌else◌, Bytes,
  codes, arith,
}
use mathlib.Core.Option
use kiss_vm_interpreter.KissVm.Token.{TokenType, is}
use kiss_vm_interpreter.KissVm.Node.{NodeKind, Node, Nodes, node, nil, cons}
use kiss_vm_interpreter.KissVm.Value.{Numbers, Value, boolean, number, hex, script, is_true}
use kiss_vm_interpreter.KissVm.Environment.{get}
use kiss_vm_interpreter.KissVm.Interpreter.{
  Builtins, Called, value, exception, undefined, RunError, Outcome, done, returned, raised,
  out_of_fuel, State, Run, pure, bind_outcome, ◌>>=◌, ◌>>◌, or_raise, tick, number_error,
  bad_hex_literal, hex_literal_bytes,
}
use kiss_vm_interpreter.KissVm.Interpreter.Eval.{
  number_of, on_numbers, computed, apply_binary, eval_binary, negate, eval_unary, eval_var,
  eval_hex_lit, of_call, call_function, eval_node, eval_args, eval_first, eval_second,
}

-- No variable is written.
abbrev IsPure {ℓ} : {Num : Type 0} {A : Type ℓ} → Run Num A → Type 0
IsPure {Num} m = (s : State Num) → (m s).1.env ≡ s.env

module _ {Num : Type 0} where
  bind_outcome-env {ℓ κ} :
      {A : Type ℓ} {B : Type κ} (r : Outcome Num A × State Num) (f : A → Run Num B)
      → ((a : A) → IsPure (f a))
      → (bind_outcome r f).1.env ≡ r.1.env
  bind_outcome-env (done a, s) f h = h a s
  bind_outcome-env (returned v, s) f h = refl
  bind_outcome-env (raised e, s) f h = refl
  bind_outcome-env (out_of_fuel, s) f h = refl

  IsPure-bind {ℓ κ} :
      {A : Type ℓ} {B : Type κ} (m : Run Num A) (f : A → Run Num B)
      → IsPure m
      → ((a : A) → IsPure (f a))
      → IsPure (m >>= f)
  IsPure-bind m f hm hf s = bind_outcome-env (m s) f hf ∙ hm s

  IsPure-or_raise {ℓ} :
      {A : Type ℓ} (o : Option A) (e : RunError) → IsPure {Num = Num} (or_raise o e)
  IsPure-or_raise none e s = refl
  IsPure-or_raise (some a) e s = refl

  IsPure-if {ℓ} :
      {A : Type ℓ} (b : Bool) (x y : Run Num A) → IsPure x → IsPure y → IsPure (if b then x else y)
  IsPure-if true x y hx hy = hx
  IsPure-if false x y hx hy = hy

  IsPure-tick : IsPure {Num = Num} tick
  unfolding tick
  IsPure-tick s = ground arith

  IsPure-ticked {ℓ} : {A : Type ℓ} (m : Run Num A) → IsPure m → IsPure (tick >> m)
  IsPure-ticked m h = IsPure-bind tick (λ _. m) IsPure-tick (λ _. h)

module _ (n : Numbers) where
  on_numbers-IsPure :
      (op : TokenType) (f : n.Num → n.Num → Run n.Num (Value n.Num))
      → ((a b : n.Num) → IsPure (f a b))
      → (v w : Value n.Num) → IsPure (on_numbers n op f v w)
  on_numbers-IsPure op f h (number a) (number b) = h a b
  on_numbers-IsPure op f h (number a) _ = λ s. refl
  on_numbers-IsPure op f h (boolean a) w = λ s. refl
  on_numbers-IsPure op f h (hex a) w = λ s. refl
  on_numbers-IsPure op f h (script a) w = λ s. refl

  computed-IsPure : (f : n.Num → n.Num → Option n.Num) (a b : n.Num) → IsPure (computed n f a b)
  computed-IsPure f a b = IsPure-or_raise (Option.map number (f a b)) number_error

  apply_binary-IsPure : (op : TokenType) (a b : Value n.Num) → IsPure (apply_binary n op a b)
  unfolding apply_binary
  apply_binary-IsPure TokenType.plus a b =
      on_numbers-IsPure TokenType.plus _ (computed-IsPure n.add) a b
  apply_binary-IsPure TokenType.minus a b =
      on_numbers-IsPure TokenType.minus _ (computed-IsPure n.sub) a b
  apply_binary-IsPure TokenType.multiply a b =
      on_numbers-IsPure TokenType.multiply _ (computed-IsPure n.mult) a b
  apply_binary-IsPure TokenType.divide a b =
      on_numbers-IsPure TokenType.divide _ (computed-IsPure n.div) a b
  apply_binary-IsPure TokenType.modulo a b =
      on_numbers-IsPure TokenType.modulo _ (computed-IsPure n.modulo) a b
  apply_binary-IsPure TokenType.lt a b = on_numbers-IsPure TokenType.lt _ (λ x y s. refl) a b
  apply_binary-IsPure TokenType.gt a b = on_numbers-IsPure TokenType.gt _ (λ x y s. refl) a b
  apply_binary-IsPure TokenType.lte a b = on_numbers-IsPure TokenType.lte _ (λ x y s. refl) a b
  apply_binary-IsPure TokenType.gte a b = on_numbers-IsPure TokenType.gte _ (λ x y s. refl) a b
  apply_binary-IsPure _ a b = λ s. refl

  eval_binary-IsPure :
      (op : TokenType) (left right : Run n.Num (Value n.Num))
      → IsPure left
      → IsPure right
      → IsPure (eval_binary n op left right)
  unfolding eval_binary
  eval_binary-IsPure op left right hl hr =
      IsPure-if (is op TokenType.and || is op TokenType.nand) _ _
        (IsPure-bind left _ hl
          λ a. IsPure-if (not (is_true n a)) _ _ (λ s. refl) (IsPure-bind right _ hr λ b s. refl))
        (IsPure-if (is op TokenType.or || is op TokenType.nor) _ _
          (IsPure-bind left _ hl
            λ a. IsPure-if (is_true n a) _ _ (λ s. refl) (IsPure-bind right _ hr λ b s. refl))
          (IsPure-bind left _ hl λ a. IsPure-bind right _ hr λ b. apply_binary-IsPure op a b))

  negate-IsPure : (v : Value n.Num) → IsPure (negate n v)
  unfolding negate
  negate-IsPure (number x) =
      IsPure-bind (or_raise (n.of_text (codes "0")) number_error) _
        (IsPure-or_raise (n.of_text (codes "0")) number_error) (λ z. computed-IsPure n.sub z x)
  negate-IsPure _ = λ s. refl

  eval_unary-IsPure :
      (op : TokenType) (m : Run n.Num (Value n.Num)) → IsPure m → IsPure (eval_unary n op m)
  unfolding eval_unary
  eval_unary-IsPure op m h = IsPure-bind m _ h λ v.
      IsPure-if (is op TokenType.not) _ _ (λ s. refl)
        (IsPure-if (is op TokenType.minus) _ _ (negate-IsPure v) (λ s. refl))

  number_of-IsPure : (v : Bytes) → IsPure (number_of n v)
  unfolding number_of
  number_of-IsPure v = IsPure-or_raise (Option.map number (n.of_text v)) number_error

  found-IsPure :
      (o : Option (Value n.Num))
      → IsPure (elim o [ none ↦ number_of n (codes "0") | some v ↦ pure v ])
  found-IsPure none = number_of-IsPure (codes "0")
  found-IsPure (some v) = λ s. refl

  eval_var-IsPure : (name : Bytes) → IsPure (eval_var n name)
  unfolding eval_var
  eval_var-IsPure name s = found-IsPure (get name s.env) s

  eval_hex_lit-IsPure : (v : Bytes) → IsPure (eval_hex_lit n v)
  unfolding eval_hex_lit
  eval_hex_lit-IsPure v = IsPure-or_raise (Option.map hex (hex_literal_bytes v)) bad_hex_literal

  of_call-IsPure : (name : Bytes) (c : Called n.Num) → IsPure (of_call n name c)
  of_call-IsPure name (value v) s = refl
  of_call-IsPure name exception s = refl
  of_call-IsPure name undefined s = refl

  module _ (reg : Builtins n.Num) where
    call_function-IsPure :
        (name : Bytes) (args : List (Value n.Num)) → IsPure (call_function n reg name args)
    unfolding call_function
    call_function-IsPure name args s =
        IsPure-if (reg.has name) _ _ (of_call-IsPure name (reg.call name args s.env)) (λ t. refl) s

    mutual
      unfolding eval_node

      eval_node-IsPure : (e : Node) → IsPure (eval_node n reg e)
      eval_node-IsPure (node NodeKind.bool_lit t cs name b) = IsPure-ticked _ (λ s. refl)
      eval_node-IsPure (node NodeKind.num_lit t cs name b) =
          IsPure-ticked _ (number_of-IsPure t.value)
      eval_node-IsPure (node NodeKind.hex_lit t cs name b) =
          IsPure-ticked _ (eval_hex_lit-IsPure t.value)
      eval_node-IsPure (node NodeKind.var t cs name b) = IsPure-ticked _ (eval_var-IsPure name)
      eval_node-IsPure (node NodeKind.binary t cs name b) = IsPure-ticked _ (
          eval_binary-IsPure t.type (eval_first n reg cs) (eval_second n reg cs)
            (eval_first-IsPure cs) (eval_second-IsPure cs))
      eval_node-IsPure (node NodeKind.unary t cs name b) =
          IsPure-ticked _ (eval_unary-IsPure t.type (eval_first n reg cs) (eval_first-IsPure cs))
      eval_node-IsPure (node NodeKind.call t cs name b) =
          IsPure-ticked _
            (IsPure-bind (eval_args n reg cs) _ (eval_args-IsPure cs) (call_function-IsPure name))
      eval_node-IsPure (node NodeKind.expr_stmt t cs name b) =
          IsPure-ticked _ (eval_first-IsPure cs)
      eval_node-IsPure (node _ t cs name b) = IsPure-ticked _ (λ s. refl)

      eval_first-IsPure : (cs : Nodes) → IsPure (eval_first n reg cs)
      eval_first-IsPure nil = λ s. refl
      eval_first-IsPure (cons c cs) = eval_node-IsPure c

      eval_second-IsPure : (cs : Nodes) → IsPure (eval_second n reg cs)
      eval_second-IsPure nil = λ s. refl
      eval_second-IsPure (cons c nil) = λ s. refl
      eval_second-IsPure (cons c (cons d cs)) = eval_node-IsPure d

      eval_args-IsPure : (cs : Nodes) → IsPure (eval_args n reg cs)
      eval_args-IsPure nil = λ s. refl
      eval_args-IsPure (cons c cs) =
          IsPure-bind (eval_node n reg c) _ (eval_node-IsPure c)
            λ v. IsPure-bind (eval_args n reg cs) _ (eval_args-IsPure cs) λ vs s. refl

    -- Evaluating any expression leaves every variable as it was, however the evaluation ends.
    pub eval_node-env : (e : Node) (s : State n.Num) → (eval_node n reg e s).1.env ≡ s.env
    eval_node-env e s = eval_node-IsPure e s
