-- ===== src/KissVm/Interpreter/Limit.antt =====
-- The counter over the expressions and statements of src/kissvm/Interpreter.cpp.
use kiss_vm_interpreter.Prelude.{
  ℕ, suc, not, ◌||◌, List, [], ◌∷◌, Option, none, some, arith, Bytes, codes,
}
use mathlib.Core.Option
use kiss_vm_interpreter.KissVm.Token.{TokenType, is}
use kiss_vm_interpreter.KissVm.Node.{Node, Nodes, cons}
use kiss_vm_interpreter.KissVm.Value.{Numbers, Value, boolean, number, hex, script, is_true}
use kiss_vm_interpreter.KissVm.Environment.{get}
use kiss_vm_interpreter.KissVm.Shape.{
  IsExpr, IsExprs, bool_lit, num_lit, hex_lit, str_lit, var, binary, unary, call, no_exprs, exprs,
}
use kiss_vm_interpreter.KissVm.Interpreter.{
  Builtins, Called, value, exception, undefined, function_undefined, Run, pure, or_raise, get_env,
  number_error, function_error, unknown_unary, unknown_binary, requires_number, unknown_function,
}
use kiss_vm_interpreter.KissVm.Interpreter.Eval.{
  number_of, on_numbers, computed, apply_binary, eval_binary, negate, eval_unary, eval_var,
  eval_hex_lit, of_call, call_function, eval_node, eval_args, eval_first,
}
use kiss_vm_interpreter.KissVm.Tokenizer.Proper.{IsHexLiteral}
use kiss_vm_interpreter.KissVm.Interpreter.Hex.{hex_literal_bytes_total}
use kiss_vm_interpreter.KissVm.Interpreter.Fine.{
  gives, Keeps, Pays, Pays-tick, Pays-Keeps, Keeps-pure, Keeps-raise, Keeps-or_raise, Keeps-if,
  Keeps-bind,
}

Keeps-get_env : {Num : Type 0} (k : ℕ) → Keeps {Num = Num} k get_env
Keeps-get_env k s hk hs = gives (omega arith) (omega arith) hs

module _ (n : Numbers) where
  number_of-Keeps : (k : ℕ) (v : Bytes) → Keeps k (number_of n v)
  unfolding number_of
  number_of-Keeps k v = Keeps-or_raise k (Option.map number (n.of_text v)) number_error tt

  computed-Keeps :
      (k : ℕ) (f : n.Num → n.Num → Option n.Num) (a b : n.Num) → Keeps k (computed n f a b)
  computed-Keeps k f a b = Keeps-or_raise k (Option.map number (f a b)) number_error tt

  on_numbers-Keeps :
      (k : ℕ) (op : TokenType) (f : n.Num → n.Num → Run n.Num (Value n.Num))
      → ((a b : n.Num) → Keeps k (f a b))
      → (v w : Value n.Num) → Keeps k (on_numbers n op f v w)
  on_numbers-Keeps k op f h (number a) (number b) = h a b
  on_numbers-Keeps k op f h (number a) _ = Keeps-raise k (requires_number op) tt
  on_numbers-Keeps k op f h (boolean a) w = Keeps-raise k (requires_number op) tt
  on_numbers-Keeps k op f h (hex a) w = Keeps-raise k (requires_number op) tt
  on_numbers-Keeps k op f h (script a) w = Keeps-raise k (requires_number op) tt

  apply_binary-Keeps :
      (k : ℕ) (op : TokenType) (a b : Value n.Num) → Keeps k (apply_binary n op a b)
  unfolding apply_binary
  apply_binary-Keeps k TokenType.plus a b =
      on_numbers-Keeps k TokenType.plus (computed n n.add) (computed-Keeps k n.add) a b
  apply_binary-Keeps k TokenType.minus a b =
      on_numbers-Keeps k TokenType.minus (computed n n.sub) (computed-Keeps k n.sub) a b
  apply_binary-Keeps k TokenType.multiply a b =
      on_numbers-Keeps k TokenType.multiply (computed n n.mult) (computed-Keeps k n.mult) a b
  apply_binary-Keeps k TokenType.divide a b =
      on_numbers-Keeps k TokenType.divide (computed n n.div) (computed-Keeps k n.div) a b
  apply_binary-Keeps k TokenType.modulo a b =
      on_numbers-Keeps k TokenType.modulo (computed n n.modulo) (computed-Keeps k n.modulo) a b
  apply_binary-Keeps k TokenType.xor a b = Keeps-pure k _
  apply_binary-Keeps k TokenType.eq a b = Keeps-pure k _
  apply_binary-Keeps k TokenType.neq a b = Keeps-raise k _ tt
  apply_binary-Keeps k TokenType.lt a b =
      on_numbers-Keeps k TokenType.lt _ (λ x y. Keeps-pure k _) a b
  apply_binary-Keeps k TokenType.gt a b =
      on_numbers-Keeps k TokenType.gt _ (λ x y. Keeps-pure k _) a b
  apply_binary-Keeps k TokenType.lte a b =
      on_numbers-Keeps k TokenType.lte _ (λ x y. Keeps-pure k _) a b
  apply_binary-Keeps k TokenType.gte a b =
      on_numbers-Keeps k TokenType.gte _ (λ x y. Keeps-pure k _) a b
  apply_binary-Keeps k _ a b = Keeps-raise k unknown_binary tt

  eval_binary-Keeps :
      (k : ℕ) (op : TokenType) (left right : Run n.Num (Value n.Num))
      → Keeps k left
      → Keeps k right
      → Keeps k (eval_binary n op left right)
  unfolding eval_binary
  eval_binary-Keeps k op left right hl hr =
      Keeps-if k (is op TokenType.and || is op TokenType.nand)
        (Keeps-bind k left _ hl λ a.
          Keeps-if k (not (is_true n a)) (Keeps-pure k _)
            (Keeps-bind k right _ hr λ b. Keeps-pure k _))
        (Keeps-if k (is op TokenType.or || is op TokenType.nor)
          (Keeps-bind k left _ hl λ a.
            Keeps-if k (is_true n a) (Keeps-pure k _) (Keeps-bind k right _ hr λ b. Keeps-pure k _))
          (Keeps-bind k left _ hl λ a. Keeps-bind k right _ hr λ b. apply_binary-Keeps k op a b))

  negate-Keeps : (k : ℕ) (v : Value n.Num) → Keeps k (negate n v)
  unfolding negate
  negate-Keeps k (number x) =
      Keeps-bind k (or_raise (n.of_text (codes "0")) number_error) _
        (Keeps-or_raise k (n.of_text (codes "0")) number_error tt) (λ z. computed-Keeps k n.sub z x)
  negate-Keeps k _ = Keeps-raise k _ tt

  eval_unary-Keeps :
      (k : ℕ) (op : TokenType) (m : Run n.Num (Value n.Num))
      → Keeps k m
      → Keeps k (eval_unary n op m)
  unfolding eval_unary
  eval_unary-Keeps k op m h = Keeps-bind k m _ h λ v.
      Keeps-if k (is op TokenType.not) (Keeps-pure k _)
        (Keeps-if k (is op TokenType.minus) (negate-Keeps k v) (Keeps-raise k unknown_unary tt))

  eval_var-Keeps : (k : ℕ) (name : Bytes) → Keeps k (eval_var n name)
  unfolding eval_var
  eval_var-Keeps k name = Keeps-bind k get_env _ (Keeps-get_env k) λ env. found k (get name env)
    where
      found :
          (k : ℕ) (o : Option (Value n.Num))
          → Keeps k (elim o [ none ↦ number_of n (codes "0") | some v ↦ pure v ])
      found k none = number_of-Keeps k (codes "0")
      found k (some v) = Keeps-pure k v

  eval_hex_lit-Keeps : (k : ℕ) (v : Bytes) → IsHexLiteral v → Keeps k (eval_hex_lit n v)
  unfolding eval_hex_lit
  eval_hex_lit-Keeps k v h =
      let (bs, p, q) = hex_literal_bytes_total v h in rw p (Keeps-pure k (hex bs))

module _ (n : Numbers) (reg : Builtins n.Num) where
  of_call-Keeps : (k : ℕ) (name : Bytes) (c : Called n.Num) → Keeps k (of_call n name c)
  of_call-Keeps k name (value v) = Keeps-pure k v
  of_call-Keeps k name exception = Keeps-raise k (function_error name) tt
  of_call-Keeps k name undefined = Keeps-raise k (function_undefined name) tt

  call_function-Keeps :
      (k : ℕ) (name : Bytes) (args : List (Value n.Num)) → Keeps k (call_function n reg name args)
  unfolding call_function
  call_function-Keeps k name args = Keeps-bind k get_env _ (Keeps-get_env k) λ env.
      Keeps-if k (reg.has name) (of_call-Keeps k name (reg.call name args env))
        (Keeps-raise k (unknown_function name) tt)

  mutual
    unfolding eval_node

    pub eval_node-Pays : {e : Node} → IsExpr e → (k : ℕ) → Pays k (eval_node n reg e)
    eval_node-Pays (bool_lit t v b) k = Pays-tick k _ (Keeps-pure (suc k) (boolean b))
    eval_node-Pays (num_lit t v b) k = Pays-tick k _ (number_of-Keeps n (suc k) t.value)
    eval_node-Pays (hex_lit t v b h) k = Pays-tick k _ (eval_hex_lit-Keeps n (suc k) t.value h)
    eval_node-Pays (str_lit t v b) k = Pays-tick k _ (Keeps-pure (suc k) (script t.value))
    eval_node-Pays (var t v b) k = Pays-tick k _ (eval_var-Keeps n (suc k) v)
    eval_node-Pays (binary t l r v b o hl hr) k = Pays-tick k _ (
        eval_binary-Keeps n (suc k) t.type _ _ (Pays-Keeps (suc k) _ (eval_node-Pays hl (suc k)))
          (Pays-Keeps (suc k) _ (eval_node-Pays hr (suc k))))
    eval_node-Pays (unary t c v b o h) k =
        Pays-tick k _
          (eval_unary-Keeps n (suc k) t.type _ (Pays-Keeps (suc k) _ (eval_node-Pays h (suc k))))
    eval_node-Pays (call t args v b h) k = Pays-tick k _ (
        Keeps-bind (suc k) (eval_args n reg args) _ (eval_args-Keeps h (suc k))
          (call_function-Keeps (suc k) v))

    eval_args-Keeps : {es : Nodes} → IsExprs es → (k : ℕ) → Keeps k (eval_args n reg es)
    eval_args-Keeps no_exprs k = Keeps-pure k []
    eval_args-Keeps (exprs c cs h hs) k =
        Keeps-bind k (eval_node n reg c) _ (Pays-Keeps k _ (eval_node-Pays h k)) λ v.
          Keeps-bind k (eval_args n reg cs) _ (eval_args-Keeps hs k) λ vs. Keeps-pure k (v ∷ vs)

  pub eval_first-Pays :
      (e : Node) (cs : Nodes) → IsExpr e → (k : ℕ) → Pays k (eval_first n reg (cons e cs))
  unfolding eval_node
  eval_first-Pays e cs h k = eval_node-Pays h k
