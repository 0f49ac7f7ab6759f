-- ===== src/KissVm/Interpreter/Guarantees.antt =====
-- What src/kissvm/Interpreter.cpp and src/kissvm/Contract.cpp promise for every script.
use kiss_vm_interpreter.Prelude.{ℕ, ◌+◌, ◌≤◌, ◌≡◌, subst, ◌≢◌, ◌⊎◌, false, none, arith, Bytes}
use kiss_vm_interpreter.KissVm.Value.{Numbers, Value, boolean, is_true}
use kiss_vm_interpreter.KissVm.Interpreter.{
  Builtins, RunError, loop_limit, missing_child, bad_hex_literal, neq_reads_no_children,
  function_undefined, Outcome, done, raised, out_of_fuel, State,
}
use kiss_vm_interpreter.KissVm.Interpreter.Exec.{run_script, execute as execute_program}
use kiss_vm_interpreter.KissVm.Node.{Node}
use kiss_vm_interpreter.KissVm.Scan.{Scan}
use kiss_vm_interpreter.KissVm.Interpreter.Fine.{IsPossible, Fine, gives, signals, throws}
use kiss_vm_interpreter.KissVm.Interpreter.Termination.{run_script-Fine}
use kiss_vm_interpreter.KissVm.Contract.{
  Contract, Executed, verdict, undefined, unfinished, execute,
}

raised-injective :
    {Num A : Type 0} (e f : RunError) → ◌≡◌ {A = Outcome Num A} (raised e) (raised f) → e ≡ f
raised-injective e f q = cc

module _ {Num : Type 0} {A : Type 0} {low m : ℕ} where
  Fine-bounds :
      {r : Outcome Num A × State Num}
      → Fine low m r
      → (r.0 ≢ out_of_fuel) × (low ≤ r.1.count) × (r.1.count ≤ 1025)
  Fine-bounds (gives a b c) = (cc, b, omega arith)
  Fine-bounds (signals b c) = (cc, b, omega arith)
  Fine-bounds (throws p b c) = (cc, b, c)

  Fine-errors :
      {r : Outcome Num A × State Num}
      → Fine low m r
      → (r.0 ≢ raised loop_limit) × (r.0 ≢ raised missing_child) × (r.0 ≢ raised bad_hex_literal)
  Fine-errors (gives a b c) = (cc, cc, cc)
  Fine-errors (signals b c) = (cc, cc, cc)
  Fine-errors (throws {e = e} p b c) = (
    λ q. subst IsPossible (raised-injective e _ q) p,
    λ q. subst IsPossible (raised-injective e _ q) p,
    λ q. subst IsPossible (raised-injective e _ q) p,
  )

module _ (n : Numbers) (reg : Builtins n.Num) where
  module _ (fuel : ℕ) (src : Bytes) (s : State n.Num) (enough : 1024 ≤ s.count + fuel)
      (in_limit : s.count ≤ 1024) where
    -- Whatever the script text is, with EXEC and MAST nested as deep as it likes, running it from a
    -- counter of 1024 at most ends, where a call of a built-in function that does not end in a defined
    -- way is an outcome of its own: the fuel is not used up where counter and fuel together are
    -- 1024 at least. The counter does not fall, and is 1025 at most.
    pub run_script_terminates :
        ((run_script n reg fuel src s).0 ≢ out_of_fuel)
        × (s.count ≤ (run_script n reg fuel src s).1.count)
        × ((run_script n reg fuel src s).1.count ≤ 1025)
    run_script_terminates = Fine-bounds (run_script-Fine n reg fuel src s enough in_limit)

    -- The exception "While loop exceeded iteration limit" is never thrown: from a counter of 1024
    -- at most, 512 rounds of any loop meet the instruction limit first.
    pub run_script-ne-loop_limit : (run_script n reg fuel src s).0 ≢ raised loop_limit
    run_script-ne-loop_limit = (Fine-errors (run_script-Fine n reg fuel src s enough in_limit)).0

    -- On the trees that the parser makes of any script text, also at run time for EXEC, the
    -- interpreter never reads a child that a node does not have, but for the one read of NEQ that
    -- has an error of its own, and std::stoul is only given hexadecimal digits.
    pub run_script_reads_children :
        ((run_script n reg fuel src s).0 ≢ raised missing_child)
        × ((run_script n reg fuel src s).0 ≢ raised bad_hex_literal)
    run_script_reads_children =
        let h = Fine-errors (run_script-Fine n reg fuel src s enough in_limit) in (h.1, h.2)

  -- The shape of what execute() leaves, by how the run of the script ended.
  abbrev pub IsSound : Contract n.Num → Outcome n.Num (Value n.Num) → Executed n.Num → Type 0
  IsSound c o (verdict v d) =
      (d.result ≡ is_true n v)
      × (d.src ≡ c.src)
      × (d.instr_count ≤ 1024)
      × ((o ≡ done v) × (d.trace ≡ none)
          ⊎ (v ≡ boolean false) × (d.instr_count ≡ 0) × (d.trace ≢ none))
  IsSound c o undefined =
      (o ≡ raised neq_reads_no_children) ⊎ (name : Bytes) × (o ≡ raised (function_undefined name))
  IsSound c o unfinished = ⊥
