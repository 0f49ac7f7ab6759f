-- ===== src/KissVm/Contract.antt =====
-- src/kissvm/Contract.cpp: the context of one coin's script, and its verdict.
use kiss_vm_interpreter.Prelude.{
  ℕ, ◌+◌, Bool, false, List, [], ◌∷◌, Option, none, some, Bytes, codes, length, get_elem?,
  if◌then◌else◌,
}
use kiss_vm_interpreter.KissVm.Value.{Numbers, Value, boolean, number, is_true}
use kiss_vm_interpreter.KissVm.Environment.{
  Env, set, set_amount, set_address, set_script, set_tot_in, set_tot_out,
}
use kiss_vm_interpreter.KissVm.Interpreter.{
  Builtins, RunError, is_undefined, Outcome, done, returned, raised, out_of_fuel, State,
  max_instructions,
}
use kiss_vm_interpreter.KissVm.Interpreter.Exec.{run_script}

-- What setupEnvironment() reads of a coin.
pub record CoinView (Num : Type 0) : Type 0 where
  pub amount : Num
  pub address : Bytes

-- The members that execute() writes; `trace` is the exception that m_trace reports.
pub record Contract (Num : Type 0) : Type 0 where
  pub src : Bytes
  pub env : Env Num
  pub instr_count : ℕ
  pub result : Bool
  pub trace : Option RunError

-- How execute() ends: `undefined` is a run into undefined behaviour, and `unfinished` one that used
-- up the model's fuel.
pub data Executed (Num : Type 0) : Type 0 where
  verdict : Value Num → Contract Num → Executed Num
  undefined unfinished : Executed Num

module _ (n : Numbers) where
  -- for (const auto& coin : coins) total = total + coin.amount();
  unfoldable pub total_from : n.Num → List (CoinView n.Num) → Option n.Num
  total_from total [] = some total
  total_from total (c ∷ cs) = elim (n.add total c.amount) [ none ↦ none | some t ↦ total_from t cs ]

  unfoldable pub total : List (CoinView n.Num) → Option n.Num
  unfolding total_from
  total cs = elim (n.of_text (codes "0")) [ none ↦ none | some z ↦ total_from z cs ]

  -- @AMOUNT and @ADDRESS of the coin that is spent, if the index is in range
  unfoldable pub set_coin : Option (CoinView n.Num) → Env n.Num → Env n.Num
  unfolding set
  set_coin none env = env
  set_coin (some c) env = set_address c.address (set_amount c.amount env)

  -- setupEnvironment()
  unfoldable pub setup_environment :
      Bytes → List (CoinView n.Num) → List (CoinView n.Num) → ℕ → Option (Env n.Num)
  unfolding set_coin total set
  setup_environment src inputs outputs input_idx =
      let env = set_script src (set_coin (get_elem? inputs input_idx) []) in
      elim (total inputs) [
        | none ↦ none
        | some tot_in ↦ elim (total outputs) [
          | none ↦ none
          | some tot_out ↦ some (
              set (codes "@OUTPUT") (number (n.of_int (length outputs))) (
                set (codes "@INPUT") (number (n.of_int (length inputs)))
                  (set_tot_out tot_out (set_tot_in tot_in env))))
        ]
      ]

  -- The try block and the catch clauses of execute(): every exception makes the verdict false.
  abbrev pub finish : Contract n.Num → Outcome n.Num (Value n.Num) × State n.Num → Executed n.Num
  finish c (done v, s) =
      verdict v
        (record c { env = s.env; instr_count = s.count; result = is_true n v; trace = none })
  finish c (returned v, s) =
      verdict (boolean false)
        (record c { env = s.env; instr_count = 0; result = false; trace = none })
  finish c (raised e, s) =
      if is_undefined e
      then undefined
      else verdict (boolean false)
          (record c { env = s.env; instr_count = 0; result = false; trace = some e })
  finish c (out_of_fuel, s) = unfinished

  -- execute(). An EXEC nests no deeper than the counter goes up.
  unfoldable pub execute : Builtins n.Num → Contract n.Num → Executed n.Num
  unfolding run_script is_true
  execute reg c =
      finish c (run_script n reg (max_instructions + 1) c.src (record { env = c.env; count = 0 }))
