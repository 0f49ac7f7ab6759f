-- ===== src/KissVm/Functions/Tests.antt =====
-- Runs of the built-in functions (src/kissvm/functions/Functions.cpp), and of scripts that call them.
use kiss_vm_interpreter.Prelude.{
  ◌<◌, ◌≡◌, refl, true, false, [], ◌∷◌, Bytes, codes, length, none, some, get_elem?, arith,
  is_space, is_digit, is_alpha, is_alnum, is_xdigit, to_upper,
}
use kiss_vm_interpreter.Prelude.Int.{pos, negsuc, ◌-ℤ◌, nat_abs}
use kiss_vm_interpreter.BigInt.Signed.{is_negative, long_bytes}
use kiss_vm_interpreter.BigInt.Integer.{integer}
use kiss_vm_interpreter.BigInt.Value.{little, base}
use kiss_vm_interpreter.BigInt.Value as BytesValue
use kiss_vm_interpreter.BigInt.Printed.{ten_power}
use kiss_vm_interpreter.MiniNumber.Room.{ten_power_le}
use kiss_vm_interpreter.KissVm.Value.{number, hex, script, boolean, is_true}
use kiss_vm_interpreter.KissVm.Numbers.{mini_numbers}
use kiss_vm_interpreter.KissVm.Environment.{Env, get, set}
use kiss_vm_interpreter.KissVm.Tokenizer.{tokenize}
use kiss_vm_interpreter.KissVm.Parser.{parse_expr}
use kiss_vm_interpreter.KissVm.Parser.Statements.{parse}
use kiss_vm_interpreter.KissVm.Interpreter.{
  hex_literal_bytes, Outcome, State, done, value, exception,
}
use kiss_vm_interpreter.KissVm.Interpreter.Eval.{eval_first}
use kiss_vm_interpreter.KissVm.Interpreter.Exec.{run_script}
use kiss_vm_interpreter.MiniNumber.{MiniNumber, add, of_long, cut_places}
use kiss_vm_interpreter.MiniNumber.Arithmetic.{IsNumber}
use kiss_vm_interpreter.MiniNumber.Longs.{get_as_long-of_long}
use kiss_vm_interpreter.MiniNumber.Text
use kiss_vm_interpreter.MiniNumber.Text.{of_text}
use kiss_vm_interpreter.MiniNumber.Derived.{get_as_long, to_bytes}
use kiss_vm_interpreter.KissVm.Functions.{V, FnCoin, nought}
use kiss_vm_interpreter.KissVm.Functions.Strings.{concat, to_len, subset, replace, replace_first}
use kiss_vm_interpreter.KissVm.Functions.Bits.{set_at, bit_set, bit_get}
use kiss_vm_interpreter.KissVm.Functions.Convert.{num_to_hex, hex_to_num, to_hex}
use kiss_vm_interpreter.KissVm.Functions.Coins.{same_state, sum_inputs, sum_outputs}
use kiss_vm_interpreter.KissVm.Functions.Registry.{FnContext, registry}
use kiss_vm_interpreter.KissVm.Functions.RoundTrip.{
  subset-concat, ComputesNumber, hex_to_num-num_to_hex,
}
use kiss_vm_interpreter.KissVm.Functions.Sums.{throws, any_native, sums-throws}
use kiss_vm_interpreter.KissVm.Functions.SetBits.{bit_get-bit_set}

abbrev thousand : MiniNumber
thousand = record { unscaled = 3 ∷ 232 ∷ []; scale = pos 0 }

nought_read : of_text (codes "0") ≡ some nought
unfolding of_text ◌-ℤ◌ cut_places
nought_read = refl

abbrev native_coin : FnCoin
native_coin = record {
  address = 1 ∷ [];
  amount = thousand;
  coin_id = [];
  token_id = none;
  has_state = false;
}

abbrev token_coin : FnCoin
token_coin = record native_coin { token_id = some (7 ∷ []) }

abbrev context : FnContext
context = record {
  inputs = native_coin ∷ [];
  outputs = token_coin ∷ token_coin ∷ [];
  signatures = [];
  sha2 = λ d. d;
  sha3 = λ d. d;
  rsa_verify = none;
  sig_dig = λ args. none;
  proof = λ args. exception;
  memory = 4096;
}

replaced :
    replace (hex (1 ∷ 2 ∷ 1 ∷ 2 ∷ 3 ∷ []) ∷ hex (1 ∷ 2 ∷ []) ∷ hex (9 ∷ []) ∷ [])
    ≡ some (hex (9 ∷ 9 ∷ 3 ∷ []))
unfolding replace
replaced = refl

replaced_first :
    replace_first (script (codes "abab") ∷ script (codes "b") ∷ script (codes "") ∷ [])
    ≡ some (script (codes "aab"))
unfolding replace_first
replaced_first = refl

-- The characters behind a digit that is none are dropped.
hex_of_text : to_hex (script (codes "0x1g") ∷ []) ≡ some (hex (1 ∷ []))
unfolding to_hex
hex_of_text = refl

-- A script with its numbers and a built-in function.
run : Bytes → Outcome MiniNumber V × State MiniNumber
unfolding run_script tokenize is_space is_digit is_alpha is_alnum parse parse_expr to_upper
    eval_first get set registry
run src = run_script mini_numbers (registry context) 1025 src (record { env = []; count = 0 })

script_runs :
    (run (codes "RETURN LEN(0xFFEE) + 1.5")).0
    ≡ done (number (record { unscaled = 35 ∷ []; scale = pos 1 }))
unfolding run ◌-ℤ◌ cut_places is_xdigit hex_literal_bytes to_len of_text add long_bytes
script_runs = refl

get_as_long-of_long_example :
    get_as_long (of_long (negsuc 9223372036854775807)) ≡ negsuc 9223372036854775807
get_as_long-of_long_example =
    get_as_long-of_long (negsuc 9223372036854775807) (omega arith, omega arith)

subset-concat_example :
    (concat (hex (1 ∷ 2 ∷ []) ∷ hex (3 ∷ []) ∷ []) ≡ some (hex (1 ∷ 2 ∷ 3 ∷ [])))
    × (subset (hex (1 ∷ 2 ∷ 3 ∷ []) ∷ number (of_long (pos 0)) ∷ number (of_long (pos 2)) ∷ [])
        ≡ some (hex (1 ∷ 2 ∷ [])))
    × (subset (hex (1 ∷ 2 ∷ 3 ∷ []) ∷ number (of_long (pos 2)) ∷ number (of_long (pos 1)) ∷ [])
        ≡ some (hex (3 ∷ [])))
subset-concat_example =
    subset-concat (1 ∷ 2 ∷ []) (3 ∷ []) (omega arith, omega arith) (omega arith, omega arith)

few_digits : nat_abs (integer thousand.unscaled) < ten_power 2147483648
unfolding integer BytesValue.value little base
few_digits =
    let e : ten_power 4 ≡ 10000 = unfold ten_power in refl in
    omega (arith, e, ten_power_le 4 2147483648 (omega arith))

hex_to_num-num_to_hex_example :
    (num_to_hex (number thousand ∷ []) ≡ some (hex (to_bytes thousand)))
    × ComputesNumber (integer thousand.unscaled) (hex_to_num (hex (to_bytes thousand) ∷ []))
hex_to_num-num_to_hex_example =
    hex_to_num-num_to_hex thousand (omega arith, (omega arith, tt)) (unfold is_negative in refl)
      few_digits

amount_is : IsNumber thousand
amount_is = record { bytes = (omega arith, (omega arith, tt)); places = omega arith }

sums-throws_example :
    (throws (sum_inputs (native_coin ∷ []) (hex (7 ∷ []) ∷ [])) ≡ any_native (native_coin ∷ []))
    × (throws (sum_outputs (token_coin ∷ []) (hex (7 ∷ []) ∷ [])) ≡ any_native (token_coin ∷ []))
sums-throws_example =
    sums-throws (7 ∷ []) (native_coin ∷ []) (token_coin ∷ []) (amount_is, tt) (amount_is, tt)

abbrev states : Env MiniNumber
states = (codes "@STATE1", number thousand) ∷ []

-- Variable 1 is there now and was not before.
same_up_to_0 :
    same_state states (number (of_long (pos 0)) ∷ number (of_long (pos 0)) ∷ [])
    ≡ value (boolean true)
unfolding same_state get_as_long long_bytes Text.to_string
same_up_to_0 = refl

differs_at_1 :
    same_state states (number (of_long (pos 0)) ∷ number (of_long (pos 1)) ∷ [])
    ≡ value (boolean false)
unfolding same_state get_as_long long_bytes Text.to_string
differs_at_1 = refl

bit_get-bit_set_example :
    (bit_set (hex (0 ∷ 255 ∷ []) ∷ number (of_long (pos 5)) ∷ boolean true ∷ [])
      ≡ some (hex (set_at 0 2 true (0 ∷ 255 ∷ []))))
    × (bit_get (hex (set_at 0 2 true (0 ∷ 255 ∷ [])) ∷ number (of_long (pos 5)) ∷ [])
        ≡ some (boolean true))
    × (length (set_at 0 2 true (0 ∷ 255 ∷ [])) ≡ 2)
    × (get_elem? (set_at 0 2 true (0 ∷ 255 ∷ [])) 1 ≡ some 255)
unfolding is_true
bit_get-bit_set_example =
    bit_get-bit_set (of_long (pos 5)) (boolean true) 5 1 (0 ∷ 255 ∷ [])
      (get_as_long-of_long (pos 5) (omega arith, omega arith)) (omega arith)
      (omega arith, (omega arith, tt)) (λ e. absurd (cc e))
