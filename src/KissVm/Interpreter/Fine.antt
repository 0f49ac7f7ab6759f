-- ===== src/KissVm/Interpreter/Fine.antt =====
-- Bounds on the instruction counter of src/kissvm/Interpreter.cpp, as a postcondition of its steps.
use kiss_vm_interpreter.Prelude.{
  ℕ, suc, ◌+◌, ◌≤◌, Bool, true, false, Option, none, some, arith, if◌then◌else◌, ltb, if_ind,
}
use kiss_vm_interpreter.KissVm.Value.{Value}
use kiss_vm_interpreter.KissVm.Interpreter.{
  RunError, loop_limit, missing_child, bad_hex_literal, instruction_limit, Outcome, done, returned,
  raised, State, Run, pure, raise, bind_outcome, ◌>>=◌, ◌>>◌, or_raise, tick,
}

-- The errors that can come up: neither the limit on rounds nor a missing child is among them.
abbrev pub IsPossible : RunError → Type 0
IsPossible loop_limit = ⊥
IsPossible missing_child = ⊥
IsPossible bad_hex_literal = ⊥
IsPossible _ = Unit {0}

-- A step that began with the counter at `low` ended, with the counter at `m` at least if it gave
-- a value, and never above the limit but where an exception is on its way.
pub data Fine {ℓ} {Num : Type 0} {A : Type ℓ} (low m : ℕ) : Outcome Num A × State Num → Type ℓ where
  gives :
      {a : A} {s : State Num}
      → m ≤ s.count
      → low ≤ s.count
      → s.count ≤ 1024
      → Fine low m (done a, s)
  signals :
      {v : Value Num} {s : State Num} → low ≤ s.count → s.count ≤ 1024 → Fine low m (returned v, s)
  throws :
      {e : RunError} {s : State Num}
      → IsPossible e
      → low ≤ s.count
      → s.count ≤ 1025
      → Fine low m (raised e, s)

module _ {Num : Type 0} where
  pub Fine-bind {ℓ κ} :
      {A : Type ℓ} {B : Type κ} {low m k : ℕ} {r : Outcome Num A × State Num} {f : A → Run Num B}
      → Fine low m r
      → ((a : A) (s : State Num)
          → m ≤ s.count
          → low ≤ s.count
          → s.count ≤ 1024
          → Fine low k (f a s))
      → Fine low k (bind_outcome r f)
  Fine-bind (gives {a} {s} hm hl h) g = g a s hm hl h
  Fine-bind (signals hl h) g = signals hl h
  Fine-bind (throws p hl h) g = throws p hl h

  pub Fine-weaken {ℓ} :
      {A : Type ℓ} {low low' m m' : ℕ} {r : Outcome Num A × State Num}
      → low' ≤ low
      → m' ≤ m
      → Fine low m r
      → Fine low' m' r
  Fine-weaken hl hm (gives a b c) = gives (omega arith) (omega arith) c
  Fine-weaken hl hm (signals a b) = signals (omega arith) b
  Fine-weaken hl hm (throws p a b) = throws p (omega arith) b

-- From every state with the counter at `k` at least, the step does not lower the counter.
abbrev pub Keeps {ℓ} : {Num : Type 0} {A : Type ℓ} → ℕ → Run Num A → Type ℓ
Keeps {Num} k m = (s : State Num) → k ≤ s.count → s.count ≤ 1024 → Fine s.count s.count (m s)

-- It raises the counter where it gives a value.
abbrev pub Pays {ℓ} : {Num : Type 0} {A : Type ℓ} → ℕ → Run Num A → Type ℓ
Pays {Num} k m = (s : State Num) → k ≤ s.count → s.count ≤ 1024 → Fine s.count (suc s.count) (m s)

module _ {Num : Type 0} where
  -- tick() raises the counter, and lets no more than 1024 instructions pass.
  pub tick-Fine : (s : State Num) → s.count ≤ 1024 → Fine s.count (suc s.count) (tick s)
  unfolding tick
  tick-Fine s h =
      let t : State Num = record s { count = s.count + 1 } in
      if_ind (λ (r : Outcome Num (Unit {0}) × State Num). Fine s.count (suc s.count) r)
        (ltb 1024 (s.count + 1)) {x = (raised instruction_limit, t)} {y = (done tt, t)}
        (λ e. throws tt (omega arith) (omega arith))
        (λ e. gives (omega arith) (omega arith) (ground arith))

  pub Pays-tick {ℓ} : {A : Type ℓ} (k : ℕ) (m : Run Num A) → Keeps (suc k) m → Pays k (tick >> m)
  Pays-tick k m h s hk hs =
      Fine-bind (tick-Fine s hs) (λ _ t more low top. Fine-weaken low more (h t (omega arith) top))

  pub Pays-Keeps {ℓ} : {A : Type ℓ} (k : ℕ) (m : Run Num A) → Pays k m → Keeps k m
  Pays-Keeps k m h s hk hs = Fine-weaken (omega arith) (omega arith) (h s hk hs)

  pub Keeps-mono {ℓ} : {A : Type ℓ} (j k : ℕ) (m : Run Num A) → j ≤ k → Keeps j m → Keeps k m
  Keeps-mono j k m le h s hk hs = h s (omega arith) hs

  pub Keeps-pure {ℓ} : {A : Type ℓ} (k : ℕ) (a : A) → Keeps {Num = Num} k (pure a)
  Keeps-pure k a s hk hs = gives (omega arith) (omega arith) hs

  pub Keeps-raise {ℓ} :
      {A : Type ℓ} (k : ℕ) (e : RunError) → IsPossible e → Keeps {Num = Num} {A = A} k (raise e)
  Keeps-raise k e p s hk hs = throws p (omega arith) (omega arith)

  pub Keeps-or_raise {ℓ} :
      {A : Type ℓ} (k : ℕ) (o : Option A) (e : RunError)
      → IsPossible e
      → Keeps {Num = Num} k (or_raise o e)
  Keeps-or_raise k none e p = Keeps-raise k e p
  Keeps-or_raise k (some a) e p = Keeps-pure k a

  pub Keeps-if {ℓ} :
      {A : Type ℓ} (k : ℕ) (b : Bool) {x y : Run Num A}
      → Keeps k x
      → Keeps k y
      → Keeps k (if b then x else y)
  Keeps-if k true hx hy = hx
  Keeps-if k false hx hy = hy

  pub Keeps-bind {ℓ κ} :
      {A : Type ℓ} {B : Type κ} (k : ℕ) (m : Run Num A) (f : A → Run Num B)
      → Keeps k m
      → ((a : A) → Keeps k (f a))
      → Keeps k (m >>= f)
  Keeps-bind k m f h g s hk hs =
      Fine-bind (h s hk hs) (λ a t more low top. Fine-weaken low low (g a t (omega arith) top))
