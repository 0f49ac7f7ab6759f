-- ===== src/KissVm/Environment.antt =====
-- src/kissvm/Environment.cpp: the variables, an unordered_map as an association list.
use kiss_vm_interpreter.Prelude.{
  Bool, true, false, List, [], ◌∷◌, Option, none, some, Bytes, codes, same, if◌then◌else◌,
}
use kiss_vm_interpreter.KissVm.Value.{Value, number, hex, script}

abbrev pub Env : Type 0 → Type 0
Env Num = List (Bytes × Value Num)

module _ {Num : Type 0} where
  -- m_vars[name] = v
  unfoldable pub set : Bytes → Value Num → Env Num → Env Num
  set name v [] = (name, v) ∷ []
  set name v ((k, w) ∷ env) = if same k name then (k, v) ∷ env else (k, w) ∷ set name v env

  unfoldable pub get : Bytes → Env Num → Option (Value Num)
  get name [] = none
  get name ((k, w) ∷ env) = if same k name then some w else get name env

  unfoldable pub has : Bytes → Env Num → Bool
  has name [] = false
  has name ((k, w) ∷ env) = if same k name then true else has name env

  -- The setters of the variables that a script reads.
  abbrev pub set_block : Num → Env Num → Env Num
  set_block block env = set (codes "@BLOCK") (number block) env

  abbrev pub set_coinage : Num → Env Num → Env Num
  set_coinage age env = set (codes "@COINAGE") (number age) env

  abbrev pub set_amount : Num → Env Num → Env Num
  set_amount amount env = set (codes "@AMOUNT") (number amount) env

  abbrev pub set_address : Bytes → Env Num → Env Num
  set_address address env = set (codes "@ADDRESS") (hex address) env

  abbrev pub set_script : Bytes → Env Num → Env Num
  set_script text env = set (codes "@SCRIPT") (script text) env

  abbrev pub set_tot_in : Num → Env Num → Env Num
  set_tot_in total env = set (codes "@TOTIN") (number total) env

  abbrev pub set_tot_out : Num → Env Num → Env Num
  set_tot_out total env = set (codes "@TOTOUT") (number total) env
