-- ===== src/KissVm/Functions/Registry.antt =====
-- FunctionRegistry of src/kissvm/functions/Functions.cpp: the names and the calls.
use kiss_vm_interpreter.Prelude.{
  ℕ, Bool, true, false, List, [], ◌∷◌, Option, none, some, Bytes, codes, same, if◌then◌else◌,
}
use kiss_vm_interpreter.KissVm.Environment.{Env}
use kiss_vm_interpreter.KissVm.Interpreter.{Builtins, Called, value, exception}
use kiss_vm_interpreter.MiniNumber.{MiniNumber}
use kiss_vm_interpreter.KissVm.Functions.{V, Result, FnCoin, FnSignature}
use kiss_vm_interpreter.KissVm.Functions.Strings.{
  concat, subset, substr, to_len, rev, replace, replace_first, clean, utf8, string, ascii,
  overwrite, set_len,
}
use kiss_vm_interpreter.KissVm.Functions.Bits.{bit_set, bit_get, bit_count}
use kiss_vm_interpreter.KissVm.Functions.Convert.{
  to_number, to_hex, to_script, to_bool, hex_to_num, num_to_hex,
}
use kiss_vm_interpreter.KissVm.Functions.Math
use kiss_vm_interpreter.KissVm.Functions.Math.{to_floor, to_ceil, to_power, square_root}
use kiss_vm_interpreter.KissVm.Functions.Coins.{
  get_out_addr, get_out_amt, get_out_token, get_out_keep_state, get_in_addr, get_in_amt, get_in_id,
  get_in_tok, verify_out, verify_in, sum_inputs, sum_outputs, state, prev_state, same_state, exists,
}
use kiss_vm_interpreter.KissVm.Functions.Signatures.{signed_by, multi_sig, check_sig, sha2, sha3}

-- What a call reads of the contract, with the code that is not modelled: the hashes, the check of a
-- signature (`none` in a build without OpenSSL), SIGDIG with its floating point, and PROOF; and the
-- length that a vector can have.
pub record FnContext : Type 0 where
  pub inputs : List FnCoin
  pub outputs : List FnCoin
  pub signatures : List FnSignature
  pub sha2 : Bytes → Bytes
  pub sha3 : Bytes → Bytes
  pub rsa_verify : Option (Bytes → Bytes → Bytes → Bool)
  pub sig_dig : List V → Result
  pub proof : List V → Called MiniNumber
  pub memory : ℕ

abbrev pub Function : Type 0
Function = List V → Env MiniNumber → Called MiniNumber

abbrev pub of_result : Result → Called MiniNumber
of_result none = exception
of_result (some v) = value v

abbrev pub pure_fn : (List V → Result) → Function
pure_fn f args env = of_result (f args)

abbrev pub with_env : (Env MiniNumber → List V → Result) → Function
with_env f args env = of_result (f env args)

-- registerAll()
abbrev pub functions : FnContext → List (Bytes × Function)
functions ctx =
    (codes "SIGNEDBY", pure_fn (signed_by ctx.signatures))
    ∷ (codes "CHECKSIG", pure_fn (check_sig ctx.rsa_verify ctx.signatures))
    ∷ (codes "MULTISIG", pure_fn (multi_sig ctx.signatures))
    ∷ (codes "STATE", with_env state)
    ∷ (codes "PREVSTATE", with_env prev_state)
    ∷ (codes "SAMESTATE", λ args env. same_state env args)
    ∷ (codes "SHA2", pure_fn (sha2 ctx.sha2))
    ∷ (codes "SHA3", pure_fn (sha3 ctx.sha3))
    ∷ (codes "CONCAT", pure_fn concat)
    ∷ (codes "SUBSET", pure_fn subset)
    ∷ (codes "LEN", pure_fn to_len)
    ∷ (codes "REV", pure_fn rev)
    ∷ (codes "REPLACE", pure_fn replace)
    ∷ (codes "CLEAN", pure_fn clean)
    ∷ (codes "UTF8", pure_fn utf8)
    ∷ (codes "ASCII", pure_fn ascii)
    ∷ (codes "NUMBER", pure_fn to_number)
    ∷ (codes "HEX", pure_fn to_hex)
    ∷ (codes "SCRIPT", pure_fn to_script)
    ∷ (codes "BOOL", pure_fn to_bool)
    ∷ (codes "HEXTONUM", pure_fn hex_to_num)
    ∷ (codes "NUMTOHEX", pure_fn num_to_hex)
    ∷ (codes "ABS", pure_fn Math.abs)
    ∷ (codes "MAX", pure_fn Math.max)
    ∷ (codes "MIN", pure_fn Math.min)
    ∷ (codes "DEC", pure_fn Math.dec)
    ∷ (codes "INC", pure_fn Math.inc)
    ∷ (codes "FLOOR", pure_fn to_floor)
    ∷ (codes "CEIL", pure_fn to_ceil)
    ∷ (codes "POW", pure_fn to_power)
    ∷ (codes "SQRT", pure_fn square_root)
    ∷ (codes "BITSET", pure_fn bit_set)
    ∷ (codes "BITGET", pure_fn bit_get)
    ∷ (codes "BITCOUNT", pure_fn bit_count)
    ∷ (codes "VERIFYOUT", pure_fn (verify_out ctx.outputs))
    ∷ (codes "VERIFYIN", pure_fn (verify_in ctx.inputs))
    ∷ (codes "GETOUTADDR", pure_fn (get_out_addr ctx.outputs))
    ∷ (codes "GETOUTAMT", pure_fn (get_out_amt ctx.outputs))
    ∷ (codes "GETOUTTOKEN", pure_fn (get_out_token ctx.outputs))
    ∷ (codes "SUMINPUTS", pure_fn (sum_inputs ctx.inputs))
    ∷ (codes "SUMOUTPUTS", pure_fn (sum_outputs ctx.outputs))
    ∷ (codes "STRING", pure_fn string)
    ∷ (codes "EXISTS", with_env exists)
    ∷ (codes "OVERWRITE", pure_fn overwrite)
    ∷ (codes "SETLEN", pure_fn (set_len ctx.memory))
    ∷ (codes "SIGDIG", pure_fn ctx.sig_dig)
    ∷ (codes "PROOF", λ args env. ctx.proof args)
    ∷ (codes "REPLACEFIRST", pure_fn replace_first)
    ∷ (codes "SUBSTR", pure_fn substr)
    ∷ (codes "GETINADDR", pure_fn (get_in_addr ctx.inputs))
    ∷ (codes "GETINAMT", pure_fn (get_in_amt ctx.inputs))
    ∷ (codes "GETINID", pure_fn (get_in_id ctx.inputs))
    ∷ (codes "GETINTOK", pure_fn (get_in_tok ctx.inputs))
    ∷ (codes "GETOUTKEEPSTATE", pure_fn (get_out_keep_state ctx.outputs))
    ∷ []

-- m_funcs.find(name)
unfoldable pub find : Bytes → List (Bytes × Function) → Option Function
unfolding same
find name [] = none
find name ((k, f) ∷ fs) = if same k name then some f else find name fs

-- has() and call()
unfoldable pub registry : FnContext → Builtins MiniNumber
unfolding find
registry ctx = record {
  has = λ name. elim (find name (functions ctx)) [ none ↦ false | some f ↦ true ];
  call =
      λ name args env. elim (find name (functions ctx)) [ none ↦ exception | some f ↦ f args env ];
}
