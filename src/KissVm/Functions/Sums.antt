-- ===== src/KissVm/Functions/Sums.antt =====
-- SUMINPUTS and SUMOUTPUTS of src/kissvm/functions/Functions.cpp: when they throw.
use kiss_vm_interpreter.Prelude.{
  ◌≡◌, refl, ◌∙◌, Bool, true, false, ◌||◌, List, [], ◌∷◌, Bytes, same, Option, none, some, if_ind,
  arith, if◌then◌else◌,
}
use kiss_vm_interpreter.KissVm.Value.{hex}
use kiss_vm_interpreter.MiniNumber.{MiniNumber, add}
use kiss_vm_interpreter.MiniNumber.Arithmetic.{IsNumber}
use kiss_vm_interpreter.MiniNumber.Total.{arithmetic-IsNumber}
use kiss_vm_interpreter.MiniNumber.Given.{Gives}
use kiss_vm_interpreter.KissVm.Functions.{FnCoin, nought, and_number}
use kiss_vm_interpreter.KissVm.Functions.Coins.{sum_from, sum_coins, sum_inputs, sum_outputs}

-- A coin of the native currency has no token.
abbrev pub is_native : FnCoin → Bool
is_native c = elim c.token_id [ none ↦ true | some t ↦ false ]

abbrev pub any_native : List FnCoin → Bool
any_native [] = false
any_native (c ∷ cs) = is_native c || any_native cs

abbrev pub AreNumbers : List FnCoin → Type 0
AreNumbers [] = Unit
AreNumbers (c ∷ cs) = IsNumber c.amount × AreNumbers cs

-- Whether a result is an exception.
abbrev pub throws : {A : Type 0} → Option A → Bool
throws none = true
throws (some a) = false

next_sum :
    (token : Bytes) (o : Option MiniNumber) (cs : List FnCoin)
    → Gives o
    → ((s : MiniNumber) → IsNumber s → throws (sum_from token s cs) ≡ any_native cs)
    → throws (elim o [ none ↦ none | some s ↦ sum_from token s cs ]) ≡ any_native cs
next_sum token none cs h rest = absurd h
next_sum token (some s) cs h rest = rest s h

with_token :
    (token : Bytes) (id : Option Bytes) (sum : MiniNumber) (o : Option MiniNumber)
    (cs : List FnCoin)
    → IsNumber sum
    → Gives o
    → ((s : MiniNumber) → IsNumber s → throws (sum_from token s cs) ≡ any_native cs)
    → throws (elim id [
      | none ↦ none
      | some t ↦
          if same t token
          then elim o [ none ↦ none | some s ↦ sum_from token s cs ]
          else sum_from token sum cs
    ])
      ≡ (elim id [ none ↦ true | some t ↦ false ] || any_native cs)
with_token token none sum o cs h k rest = refl
with_token token (some t) sum o cs h k rest =
    if_ind (λ r. throws r ≡ any_native cs) (same t token) (λ e. next_sum token o cs k rest)
      (λ e. rest sum h)

sum_from-throws :
    (token : Bytes) (sum : MiniNumber) (cs : List FnCoin)
    → IsNumber sum
    → AreNumbers cs
    → throws (sum_from token sum cs) ≡ any_native cs
unfolding sum_from
sum_from-throws token sum [] h k = refl
sum_from-throws token sum (c ∷ cs) h k =
    with_token token c.token_id sum (add sum c.amount) cs h
      (arithmetic-IsNumber sum c.amount h k.0).0
      (λ (s : MiniNumber) (p : IsNumber s). sum_from-throws token s cs p k.1)

nought-IsNumber : IsNumber nought
nought-IsNumber = record { bytes = (omega arith, tt); places = omega arith }

and_number-throws : (o : Option MiniNumber) → throws (and_number o) ≡ throws o
and_number-throws none = refl
and_number-throws (some x) = refl

sum_coins-throws :
    (token : Bytes) (coins : List FnCoin)
    → AreNumbers coins
    → throws (sum_coins coins (hex token ∷ [])) ≡ any_native coins
unfolding sum_coins
sum_coins-throws token coins h =
    and_number-throws (sum_from token nought coins)
    ∙ sum_from-throws token nought coins nought-IsNumber h

-- SUMINPUTS and SUMOUTPUTS of a transaction whose amounts are well-formed throw where one of the
-- inputs, or of the outputs, has no token, whatever token is asked for, and only there.
pub sums-throws :
    (token : Bytes) (inputs outputs : List FnCoin)
    → AreNumbers inputs
    → AreNumbers outputs
    → (throws (sum_inputs inputs (hex token ∷ [])) ≡ any_native inputs)
      × (throws (sum_outputs outputs (hex token ∷ [])) ≡ any_native outputs)
unfolding sum_inputs sum_outputs
sums-throws token inputs outputs h k =
    (sum_coins-throws token inputs h, sum_coins-throws token outputs k)
