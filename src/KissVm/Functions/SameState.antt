-- ===== src/KissVm/Functions/SameState.antt =====
-- SAMESTATE of src/kissvm/functions/Functions.cpp: what it tells of a range of state variables.
use kiss_vm_interpreter.Prelude.{
  ℕ, zero, suc, ◌<◌, ◌≡◌, ◌↔◌, refl, sym, ap, ◌∙◌, Bool, Bool-cases, inl, inr, true, false, ◌&&◌,
  codes, same, arith,
}
use kiss_vm_interpreter.Prelude.Int.{ℤ, pos, negsuc, ◌+ℤ◌, ◌≤ℤ◌}
use kiss_vm_interpreter.KissVm.Value.{boolean}
use kiss_vm_interpreter.KissVm.Environment.{Env}
use kiss_vm_interpreter.MiniNumber.{MiniNumber}
use kiss_vm_interpreter.KissVm.Interpreter.{Called, value, undefined}
use kiss_vm_interpreter.KissVm.Functions.Coins.{state_text, same_states}

-- The state variable i shows the same before and now.
abbrev pub same_at : Env MiniNumber → ℤ → Bool
same_at env i = same (state_text (codes "@PREVSTATE") env i) (state_text (codes "@STATE") env i)

next_index : (f : ℤ) (k : ℕ) → f +ℤ pos (suc k) ≡ (f +ℤ pos 1) +ℤ pos k
unfolding ◌+ℤ◌
next_index (pos n) k = ground arith
next_index (negsuc n) k = ground arith

first_index : (f : ℤ) → f +ℤ pos 0 ≡ f
unfolding ◌+ℤ◌
first_index (pos n) = ground arith
first_index (negsuc n) = ground arith

one_more :
    (n : ℕ) (f : ℤ) (env : Env MiniNumber)
    → same_states (suc n) f env ≡ same_at env f && same_states n (f +ℤ pos 1) env
unfolding same_states
one_more n f env = refl

no_round : (f : ℤ) (env : Env MiniNumber) → same_states 0 f env ≡ true
unfolding same_states
no_round f env = refl

-- A variable of the range that shows something else.
abbrev pub Differs : Env MiniNumber → ℤ → ℕ → Type 0
Differs env f n = (k : ℕ) × (k < n) × (same_at env (f +ℤ pos k) ≡ false)

difference_later :
    (env : Env MiniNumber) (f : ℤ) (n : ℕ) → Differs env (f +ℤ pos 1) n → Differs env f (suc n)
difference_later env f n (k, lt, e) =
    (suc k, omega arith, ap (λ (i : ℤ). same_at env i) (next_index f k) ∙ e)

difference_found :
    (n : ℕ) (f : ℤ) (env : Env MiniNumber) → same_states n f env ≡ false → Differs env f n
difference_found zero f env e = absurd (cc (e, no_round f env))
difference_found (suc n) f env e = elim (Bool-cases (same_at env f)) [
  | inl s ↦
      difference_later env f n (difference_found n (f +ℤ pos 1) env (cc (e, one_more n f env, s)))
  | inr s ↦ (0, omega arith, ap (λ (i : ℤ). same_at env i) (first_index f) ∙ s)
]

and_false : (b : Bool) → b && false ≡ false
and_false true = refl
and_false false = refl

difference_counts :
    (n : ℕ) (f : ℤ) (env : Env MiniNumber) (k : ℕ)
    → k < n
    → same_at env (f +ℤ pos k) ≡ false
    → same_states n f env ≡ false
difference_counts zero f env k lt e = absurd (omega arith)
difference_counts (suc n) f env zero lt e =
    let s = sym (ap (λ (i : ℤ). same_at env i) (first_index f)) ∙ e in cc (one_more n f env, s)
difference_counts (suc n) f env (suc k) lt e =
    let s = sym (ap (λ (i : ℤ). same_at env i) (next_index f k)) ∙ e in
    let rest = difference_counts n (f +ℤ pos 1) env k (omega arith) s in
    one_more n f env ∙ (ap (λ (b : Bool). same_at env f && b) rest ∙ and_false (same_at env f))

same_states-Differs :
    (n : ℕ) (f : ℤ) (env : Env MiniNumber) → (same_states n f env ≡ false) ↔ Differs env f n
same_states-Differs n f env = (difference_found n f env, λ d. difference_counts n f env d.0 d.1 d.2)

-- A variable of f to t, both included, that shows something else; and the loop whose last i++
-- overflows.
abbrev pub IsDifferent : Env MiniNumber → ℤ → ℤ → Type 0
IsDifferent env f t = (i : ℤ) × (f ≤ℤ i) × (i ≤ℤ t) × (same_at env i ≡ false)

abbrev pub Overflows : ℤ → ℤ → Type 0
Overflows f t = (f ≤ℤ t) × (pos 9223372036854775807 ≤ℤ t)

abbrev pub Decides : Env MiniNumber → ℤ → ℤ → Called MiniNumber → Type 0
Decides env f t (value (boolean false)) = IsDifferent env f t
Decides env f t (value (boolean true)) = (¬ IsDifferent env f t) × (¬ Overflows f t)
Decides env f t undefined = (¬ IsDifferent env f t) × Overflows f t
Decides env f t _ = ⊥
