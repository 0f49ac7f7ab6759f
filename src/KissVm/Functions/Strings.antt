-- ===== src/KissVm/Functions/Strings.antt =====
-- The functions on byte strings and texts of src/kissvm/functions/Functions.cpp.
use kiss_vm_interpreter.Prelude.{
  ℕ, zero, suc, ◌+◌, ◌-◌, Bool, true, false, ◌&&◌, ◌||◌, List, [], ◌∷◌, ◌++◌, Option, none, some,
  Bytes, length, ltb, ◌==◌, if◌then◌else◌, reverse,
}
use kiss_vm_interpreter.Prelude.Int.{ℤ, pos, pos_part, is_neg}
use kiss_vm_interpreter.KissVm.Value.{number, hex, script, is_empty, as_hex, to_string}
use kiss_vm_interpreter.KissVm.Numbers.{mini_numbers}
use kiss_vm_interpreter.MiniNumber.{take, drop, of_long}
use kiss_vm_interpreter.KissVm.Functions.{V, Result, with_hex, with_long}

-- CONCAT
unfoldable pub concat : List V → Result
unfolding to_string
concat (hex a ∷ hex b ∷ []) = some (hex (a ++ b))
concat (a ∷ b ∷ []) = some (script (to_string mini_numbers a ++ to_string mini_numbers b))
concat _ = none

-- The bytes from start on, as many as length says, or an exception.
abbrev pub slice : Bytes → ℤ → ℤ → Option Bytes
slice bytes start len =
    if is_neg start || is_neg len || ltb (length bytes) (pos_part start + pos_part len)
    then none
    else some (take (pos_part len) (drop (pos_part start) bytes))

abbrev pub and_hex : Option Bytes → Result
and_hex none = none
and_hex (some d) = some (hex d)

abbrev pub and_script : Option Bytes → Result
and_script none = none
and_script (some s) = some (script s)

-- SUBSET and SUBSTR
unfoldable pub subset : List V → Result
unfolding with_long
subset (d ∷ start ∷ len ∷ []) = with_hex d (λ (bytes : Bytes).
    with_long start (λ (s : ℤ). with_long len (λ (n : ℤ). and_hex (slice bytes s n))))
subset _ = none

-- A text, or bytes taken for a text
abbrev pub text_of : V → Option Bytes
text_of (script s) = some s
text_of v = as_hex v

abbrev pub with_text : V → (Bytes → Result) → Result
with_text v f = elim (text_of v) [ none ↦ none | some s ↦ f s ]

unfoldable pub substr : List V → Result
unfolding with_long
substr (t ∷ start ∷ len ∷ []) = with_text t (λ (s : Bytes).
    with_long start (λ (i : ℤ). with_long len (λ (n : ℤ). and_script (slice s i n))))
substr _ = none

-- LEN
unfoldable pub to_len : List V → Result
to_len (hex d ∷ []) = some (number (of_long (pos (length d))))
to_len (script s ∷ []) = some (number (of_long (pos (length s))))
to_len _ = none

-- REV
unfoldable pub rev : List V → Result
rev (hex d ∷ []) = some (hex (reverse d))
rev _ = none

-- std::equal over the length of find, and a piece that is long enough
unfoldable pub starts_with : Bytes → Bytes → Bool
starts_with [] s = true
starts_with (f ∷ find) [] = false
starts_with (f ∷ find) (c ∷ s) = (f == c) && starts_with find s

-- The loop of REPLACE; `skip` bytes of a piece that was found are still to pass.
unfoldable pub replace_from : ℕ → Bytes → Bytes → Bytes → Bytes
unfolding starts_with
replace_from skip find repl [] = []
replace_from skip find repl (c ∷ s) =
    let found = starts_with find (c ∷ s) in
    let rest =
      replace_from (if skip == 0 then (if found then length find - 1 else 0) else skip - 1) find
        repl s in
    if ltb 0 skip then rest else if found then repl ++ rest else c ∷ rest

unfoldable pub replace : List V → Result
unfolding replace_from
replace (hay ∷ find ∷ repl ∷ []) = with_hex hay (λ (h : Bytes). with_hex find (λ (f : Bytes).
    with_hex repl (λ (r : Bytes). some (hex (if is_empty f then h else replace_from 0 f r h)))))
replace _ = none

-- REPLACEFIRST: the first place where the text is found
unfoldable pub replace_at : Bytes → Bytes → Bytes → Bytes
unfolding starts_with
replace_at from to [] = if is_empty from then to else []
replace_at from to (c ∷ s) =
    let rest = replace_at from to s in
    if starts_with from (c ∷ s) then to ++ drop (length from) (c ∷ s) else c ∷ rest

unfoldable pub replace_first : List V → Result
unfolding replace_at
replace_first (str ∷ from ∷ to ∷ []) = with_text str (λ (s : Bytes).
    with_text from (λ (f : Bytes). with_text to (λ (t : Bytes). some (script (replace_at f t s)))))
replace_first _ = none

-- CLEAN
unfoldable pub drop_nulls : Bytes → Bytes
drop_nulls [] = []
drop_nulls (b ∷ bs) = let rest = drop_nulls bs in if b == 0 then rest else b ∷ bs

unfoldable pub clean : List V → Result
unfolding drop_nulls
clean (hex d ∷ []) = some (hex (drop_nulls d))
clean _ = none

-- UTF8, STRING and ASCII
unfoldable pub utf8 : List V → Result
utf8 (hex d ∷ []) = some (script d)
utf8 _ = none

unfoldable pub string : List V → Result
string (hex d ∷ []) = some (script d)
string _ = none

unfoldable pub ascii : List V → Result
ascii (script s ∷ []) = some (hex s)
ascii _ = none

-- OVERWRITE: std::copy at a position
unfoldable pub overwrite_at : ℕ → Bytes → Bytes → Bytes
overwrite_at at val bytes = take at bytes ++ val ++ drop (at + length val) bytes

unfoldable pub overwrite : List V → Result
unfolding with_long overwrite_at
overwrite (d ∷ at ∷ val ∷ []) = with_hex d (λ (bytes : Bytes). with_long at (λ (i : ℤ).
    with_hex val (λ (v : Bytes).
      if is_neg i || ltb (length bytes) (pos_part i + length v)
      then none
      else some (hex (overwrite_at (pos_part i) v bytes)))))
overwrite _ = none

-- SETLEN: resize()
unfoldable pub resize : ℕ → Bytes → Bytes
resize zero bytes = []
resize (suc n) [] = 0 ∷ resize n []
resize (suc n) (b ∷ bs) = b ∷ resize n bs

-- A length above what memory holds is an exception, bad_alloc or length_error.
unfoldable pub set_len : ℕ → List V → Result
unfolding with_long resize
set_len memory (d ∷ n ∷ []) = with_hex d (λ (bytes : Bytes). with_long n (λ (l : ℤ).
    if is_neg l || ltb memory (pos_part l) then none else some (hex (resize (pos_part l) bytes))))
set_len memory _ = none
