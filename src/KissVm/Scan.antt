-- ===== src/KissVm/Scan.antt =====
-- Results of the syntax stages. The C++ code throws; here an error is a value.
use kiss_vm_interpreter.Prelude.{◌≡◌, refl, subst, ◌≢◌, Bool, true, false, if◌then◌else◌}
use kiss_vm_interpreter.KissVm.Token.{SyntaxError}

-- `out_of_fuel` has no counterpart in the program.
pub data Scan {ℓ} (A : Type ℓ) : Type ℓ where
  ok : A → Scan A
  fail : SyntaxError → Scan A
  out_of_fuel : Scan A

infixl 5 ◌>>=◌ ◌>>◌
abbrev pub ◌>>=◌ {ℓ κ} : {A : Type ℓ} {B : Type κ} → Scan A → (A → Scan B) → Scan B
ok a >>= f = f a
fail e >>= f = fail e
out_of_fuel >>= f = out_of_fuel

abbrev pub ◌>>◌ {ℓ κ} : {A : Type ℓ} {B : Type κ} → Scan A → Scan B → Scan B
m >> k = m >>= λ _. k

-- The stage raised an error, or gave a value of which `P` holds; its fuel lasted.
pub data Ends {ℓ κ} {A : Type ℓ} (P : A → Type κ) : Scan A → Type (ℓ ⊔ κ) where
  gives : {a : A} → P a → Ends P (ok a)
  raises : {e : SyntaxError} → Ends P (fail e)

module _ {ℓ κ} {A : Type ℓ} {P : A → Type κ} where
  pub Ends-ok : {r : Scan A} {a : A} → Ends P r → r ≡ ok a → P a
  Ends-ok (gives h) e = subst P (cc) h
  Ends-ok raises e = cc

  pub Ends-ne-out_of_fuel : {r : Scan A} → Ends P r → r ≢ out_of_fuel
  Ends-ne-out_of_fuel (gives h) = cc
  Ends-ne-out_of_fuel raises = cc

  pub Ends-if :
      (b : Bool) {x y : Scan A}
      → (b ≡ true → Ends P x)
      → (b ≡ false → Ends P y)
      → Ends P (if b then x else y)
  Ends-if true hx hy = hx refl
  Ends-if false hx hy = hy refl

  pub Ends-map {κ'} : {Q : A → Type κ'} {r : Scan A} → Ends P r → ((a : A) → P a → Q a) → Ends Q r
  Ends-map (gives {a} h) k = gives (k a h)
  Ends-map raises k = raises

  pub Ends-bind {ℓ' κ'} :
      {B : Type ℓ'} {Q : B → Type κ'} {r : Scan A} {f : A → Scan B}
      → Ends P r
      → ((a : A) → P a → Ends Q (f a))
      → Ends Q (r >>= f)
  Ends-bind (gives {a} h) k = k a h
  Ends-bind raises k = raises

pub Ends-both {ℓ κ κ'} :
    {A : Type ℓ} {P : A → Type κ} {Q : A → Type κ'} {r : Scan A}
    → Ends P r
    → Ends Q r
    → Ends (λ a. P a × Q a) r
Ends-both (gives h) k = gives (h, Ends-ok k refl)
Ends-both raises k = raises
