-- ===== src/Base/Run.antt =====
-- How a call of the program ends, and the rules for calls that end well.
use mathlib.Core.Path.{◌≡◌, refl, subst}
use mathlib.Core.Bool.{Bool, true, false}
use video_server.Base.Tests.{if◌then◌else◌}

-- A returned value, an `assert` that fails, or the model's fuel running out.
pub data Run {ℓ} (A : Type ℓ) : Type ℓ where
  ok : A → Run A
  abort : Run A
  out_of_fuel : Run A

infixl 5 ◌>>=◌ ◌>>◌
abbrev pub ◌>>=◌ {ℓ κ} : {A : Type ℓ} {B : Type κ} → Run A → (A → Run B) → Run B
ok a >>= f = f a
abort >>= f = abort
out_of_fuel >>= f = out_of_fuel

abbrev pub ◌>>◌ {ℓ} : {B : Type ℓ} → Run (Unit {0}) → Run B → Run B
m >> k = m >>= λ _. k

-- `assert(b)`
abbrev pub check : Bool → Run (Unit {0})
check true = ok tt
check false = abort

-- The call returns, with a value that satisfies `P`.
pub data Ensures {ℓ κ} {A : Type ℓ} (P : A → Type κ) : Run A → Type (ℓ ⊔ κ) where
  ensures : {a : A} → P a → Ensures P (ok a)

module _ {ℓ κ} {A : Type ℓ} {P : A → Type κ} where
  pub Ensures-bind {ℓ' κ'} :
      {B : Type ℓ'} {Q : B → Type κ'} {m : Run A} {f : A → Run B}
      → Ensures P m
      → ((a : A) → P a → Ensures Q (f a))
      → Ensures Q (m >>= f)
  Ensures-bind (ensures p) next = next _ p

  pub Ensures-weaken {κ'} :
      {Q : A → Type κ'} {m : Run A} → Ensures P m → ((a : A) → P a → Q a) → Ensures Q m
  Ensures-weaken (ensures p) f = ensures (f _ p)

  pub Ensures-value : {m : Run A} → Ensures P m → (a : A) × (m ≡ ok a) × P a
  Ensures-value (ensures p) = (_, refl, p)

  pub Ensures-of : {m : Run A} (a : A) → m ≡ ok a → P a → Ensures P m
  Ensures-of a e p = rw e (ensures p)

  -- A sequence that ends well has a first call that ends well.
  pub Ensures-unbind {κ'} :
      {B : Type κ'} (m : Run B) {f : B → Run A}
      → Ensures P (m >>= f)
      → Ensures (λ b. Ensures P (f b)) m
  Ensures-unbind (ok b) h = ensures h
  Ensures-unbind abort h = elim h [ ]
  Ensures-unbind out_of_fuel h = elim h [ ]

  -- Both cases of a flag that the predicate is about too.
  pub Ensures-either :
      {m n : Run A} (b : Bool)
      → Ensures P m
      → Ensures P n
      → Ensures P (elim b [ true ↦ m | false ↦ n ])
  Ensures-either true p q = p
  Ensures-either false p q = q

  Ensures-ok : {a : A} → Ensures P (ok a) → P a
  Ensures-ok (ensures p) = p

  pub Ensures-both {κ'} :
      {Q : A → Type κ'} {m : Run A} → Ensures P m → Ensures Q m → Ensures (λ a. P a × Q a) m
  Ensures-both (ensures p) (ensures q) = ensures (p, q)

  pub Ensures-at : {m : Run A} (a : A) → m ≡ ok a → Ensures P m → P a
  Ensures-at a e h = Ensures-ok (subst (Ensures P) e h)

-- Where the call returns, its value satisfies `P`.
pub data Yields {ℓ κ} {A : Type ℓ} (P : A → Type κ) : Run A → Type (ℓ ⊔ κ) where
  yields : {a : A} → P a → Yields P (ok a)
  aborts : Yields P abort
  runs_out : Yields P out_of_fuel

module _ {ℓ κ} {A : Type ℓ} {P : A → Type κ} where
  pub Yields-any : (m : Run A) → ((a : A) → P a) → Yields P m
  Yields-any (ok a) f = yields (f a)
  Yields-any abort f = aborts
  Yields-any out_of_fuel f = runs_out

  pub Yields-bind {ℓ' κ'} :
      {B : Type ℓ'} {Q : B → Type κ'} {m : Run A} {f : A → Run B}
      → Yields P m
      → ((a : A) → P a → Yields Q (f a))
      → Yields Q (m >>= f)
  Yields-bind (yields p) next = next _ p
  Yields-bind aborts next = aborts
  Yields-bind runs_out next = runs_out

  pub Ensures-Yields : {m : Run A} → Ensures P m → Yields P m
  Ensures-Yields (ensures p) = yields p

  Yields-ok : {a : A} → Yields P (ok a) → P a
  Yields-ok (yields p) = p

  pub Yields-at : {m : Run A} (a : A) → m ≡ ok a → Yields P m → P a
  Yields-at a e h = Yields-ok (subst (Yields P) e h)

  pub Yields-either :
      {m n : Run A} (b : Bool)
      → Yields P m
      → Yields P n
      → Yields P (elim b [ true ↦ m | false ↦ n ])
  Yields-either true p q = p
  Yields-either false p q = q

  pub Yields-if : {m n : Run A} (b : Bool) → Yields P m → Yields P n → Yields P (if b then m else n)
  Yields-if true p q = p
  Yields-if false p q = q
