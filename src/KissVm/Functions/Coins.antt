-- ===== src/KissVm/Functions/Coins.antt =====
-- The functions on the coins of the transaction and on the state variables, of
-- src/kissvm/functions/Functions.cpp.
use kiss_vm_interpreter.Prelude.{
  ℕ, zero, suc, Bool, true, false, not, ◌&&◌, List, [], ◌∷◌, ◌++◌, Option, none, some, Bytes, codes,
  same, if◌then◌else◌, get_elem?,
}
use kiss_vm_interpreter.Prelude.Int.{ℤ, pos, negsuc, pos_part, ltb_ℤ, leb_ℤ, ◌+ℤ◌, ◌-ℤ◌}
use kiss_vm_interpreter.BigInt.Decimal.{to_decimal_string}
use kiss_vm_interpreter.KissVm.Value.{number, hex, boolean, script, to_string, to_hex_string}
use kiss_vm_interpreter.KissVm.Environment.{Env, get}
use kiss_vm_interpreter.KissVm.Interpreter.{Called, value, exception, undefined}
use kiss_vm_interpreter.KissVm.Numbers.{mini_numbers}
use kiss_vm_interpreter.MiniNumber.{MiniNumber, of_ℤ, add, compare_to}
use kiss_vm_interpreter.MiniNumber.Derived.{is_equal, get_as_long}
use kiss_vm_interpreter.MiniNumber.Text
use kiss_vm_interpreter.KissVm.Functions.{
  V, Result, nought, with_hex, with_number, with_long, and_number, FnCoin,
}

-- The coin at a long index, where that is in range
abbrev pub coin_at : List FnCoin → ℤ → Option FnCoin
coin_at coins (pos n) = get_elem? coins n
coin_at coins (negsuc n) = none

-- GETINADDR, GETINAMT, GETINID, GETOUTADDR, GETOUTAMT and others: a member of a coin, or an
-- exception.
unfoldable pub of_coin : (FnCoin → Result) → List FnCoin → List V → Result
unfolding with_long
of_coin f coins (v ∷ []) =
    with_long v (λ (i : ℤ). elim (coin_at coins i) [ none ↦ none | some c ↦ f c ])
of_coin f coins _ = none

abbrev pub address_of : FnCoin → Result
address_of c = some (hex c.address)

abbrev pub amount_of : FnCoin → Result
amount_of c = some (number c.amount)

abbrev pub id_of : FnCoin → Result
id_of c = some (hex c.coin_id)

-- GETOUTTOKEN takes the token without a look whether there is one; GETINTOK looks.
abbrev pub token_of : FnCoin → Result
token_of c = elim c.token_id [ none ↦ none | some t ↦ some (hex t) ]

abbrev pub token_or_empty : FnCoin → Result
token_or_empty c = elim c.token_id [ none ↦ some (hex []) | some t ↦ some (hex t) ]

abbrev pub keeps_state : FnCoin → Result
keeps_state c = some (boolean c.has_state)

-- GETOUTADDR, GETOUTAMT, GETOUTTOKEN, GETOUTKEEPSTATE, GETINADDR, GETINAMT, GETINID and GETINTOK, of the
-- coins of the transaction.
unfoldable pub get_out_addr : List FnCoin → List V → Result
unfolding of_coin
get_out_addr coins args = of_coin address_of coins args

unfoldable pub get_out_amt : List FnCoin → List V → Result
unfolding of_coin
get_out_amt coins args = of_coin amount_of coins args

unfoldable pub get_out_token : List FnCoin → List V → Result
unfolding of_coin
get_out_token coins args = of_coin token_of coins args

unfoldable pub get_out_keep_state : List FnCoin → List V → Result
unfolding of_coin
get_out_keep_state coins args = of_coin keeps_state coins args

unfoldable pub get_in_addr : List FnCoin → List V → Result
unfolding of_coin
get_in_addr coins args = of_coin address_of coins args

unfoldable pub get_in_amt : List FnCoin → List V → Result
unfolding of_coin
get_in_amt coins args = of_coin amount_of coins args

unfoldable pub get_in_id : List FnCoin → List V → Result
unfolding of_coin
get_in_id coins args = of_coin id_of coins args

unfoldable pub get_in_tok : List FnCoin → List V → Result
unfolding of_coin
get_in_tok coins args = of_coin token_or_empty coins args

-- VERIFYIN and VERIFYOUT: the checks, where an argument of another type is not looked at.
abbrev pub address_differs : V → FnCoin → Bool
address_differs (hex d) c = not (same c.address d)
address_differs _ c = false

unfoldable pub amount_differs : V → FnCoin → Bool
unfolding compare_to
amount_differs (number x) c = not (is_equal (compare_to c.amount x))
amount_differs _ c = false

abbrev pub token_check : List V → FnCoin → Result
token_check (hex d ∷ rest) c = elim c.token_id [ none ↦ none | some t ↦ some (boolean (same t d)) ]
token_check _ c = some (boolean true)

unfoldable pub verify_coin : V → V → List V → Option FnCoin → Result
unfolding same amount_differs
verify_coin address amount rest none = some (boolean false)
verify_coin address amount rest (some c) =
    if address_differs address c
    then some (boolean false)
    else if amount_differs amount c
    then some (boolean false)
    else token_check rest c

unfoldable pub verify : List FnCoin → List V → Result
unfolding with_long verify_coin
verify coins (i ∷ address ∷ amount ∷ rest) =
    with_long i (λ (n : ℤ). verify_coin address amount rest (coin_at coins n))
verify coins _ = none

unfoldable pub verify_out : List FnCoin → List V → Result
unfolding verify
verify_out outputs args = verify outputs args

unfoldable pub verify_in : List FnCoin → List V → Result
unfolding verify
verify_in inputs args = verify inputs args

-- SUMINPUTS and SUMOUTPUTS: a coin without a token makes tokenID() throw.
unfoldable pub sum_from : Bytes → MiniNumber → List FnCoin → Option MiniNumber
unfolding add same
sum_from token sum [] = some sum
sum_from token sum (c ∷ cs) = elim c.token_id [
  | none ↦ none
  | some t ↦
      if same t token
      then elim (add sum c.amount) [ none ↦ none | some s ↦ sum_from token s cs ]
      else sum_from token sum cs
]

unfoldable pub sum_coins : List FnCoin → List V → Result
unfolding sum_from
sum_coins coins (v ∷ []) = with_hex v (λ (token : Bytes). and_number (sum_from token nought coins))
sum_coins coins _ = none

unfoldable pub sum_inputs : List FnCoin → List V → Result
unfolding sum_coins
sum_inputs inputs args = sum_coins inputs args

unfoldable pub sum_outputs : List FnCoin → List V → Result
unfolding sum_coins
sum_outputs outputs args = sum_coins outputs args

-- STATE and PREVSTATE
abbrev pub or_empty : Option V → V
or_empty none = hex []
or_empty (some v) = v

unfoldable pub state_var : Bytes → Env MiniNumber → List V → Result
unfolding get Text.to_string
state_var prefix env (v ∷ []) =
    with_number v (λ (n : MiniNumber). some (or_empty (get (prefix ++ Text.to_string n) env)))
state_var prefix env _ = none

unfoldable pub state : Env MiniNumber → List V → Result
unfolding state_var
state env args = state_var (codes "@STATE") env args

unfoldable pub prev_state : Env MiniNumber → List V → Result
unfolding state_var
prev_state env args = state_var (codes "@PREVSTATE") env args

abbrev pub long_max : ℕ
long_max = 9223372036854775807

-- SAMESTATE: the loop, with the rounds from `from` to `to`
unfoldable pub shown : Option V → Bytes
unfolding to_string
shown none = []
shown (some v) = to_string mini_numbers v

unfoldable pub state_text : Bytes → Env MiniNumber → ℤ → Bytes
unfolding get shown to_decimal_string
state_text prefix env i = shown (get (prefix ++ to_decimal_string (of_ℤ i)) env)

unfoldable pub same_states : ℕ → ℤ → Env MiniNumber → Bool
unfolding state_text same ◌+ℤ◌
same_states zero i env = true
same_states (suc rounds) i env =
    same (state_text (codes "@PREVSTATE") env i) (state_text (codes "@STATE") env i)
    && same_states rounds (i +ℤ pos 1) env

-- The last round of a loop up to LONG_MAX makes i++ overflow, which is undefined; a difference found
-- before leaves the loop.
unfoldable pub same_range : ℤ → ℤ → Env MiniNumber → Called MiniNumber
unfolding same_states ◌-ℤ◌ ◌+ℤ◌
same_range f t env =
    if ltb_ℤ t f
    then value (boolean true)
    else if same_states (pos_part (t -ℤ f +ℤ pos 1)) f env
    then (if leb_ℤ (pos long_max) t then undefined else value (boolean true))
    else value (boolean false)

unfoldable pub same_state : Env MiniNumber → List V → Called MiniNumber
unfolding get_as_long same_range
same_state env (number x ∷ number y ∷ []) = same_range (get_as_long x) (get_as_long y) env
same_state env _ = exception

-- EXISTS
abbrev pub is_there : Option V → Bool
is_there none = false
is_there (some v) = true

unfoldable pub exists : Env MiniNumber → List V → Result
unfolding get to_hex_string
exists env (script s ∷ []) = some (boolean (is_there (get s env)))
exists env (hex d ∷ []) = some (boolean (is_there (get (to_hex_string d) env)))
exists env _ = none
