-- ===== src/Base/Lists.antt =====
-- Lists as arrays, under native indices.
use Prim.Native.Nat.{ℕ, zero, suc, ◌+◌, ◌-◌, ◌≤◌, ◌<◌, min}
use mathlib.Core.Path.{◌≡◌, refl, ap}
use mathlib.Core.Bool.{Bool, false, ◌||◌}
use mathlib.Core.List.{List, [], ◌∷◌, ◌++◌}
use mathlib.Core.Option.{Option, none, some}
use native.Mathlib.Omega.{arith}
use video_server.Base.Tests.{◌==◌, if◌then◌else◌}

module _ {ℓ} {A : Type ℓ} where
  abbrev pub length : List A → ℕ
  length [] = 0
  length (x ∷ xs) = suc (length xs)

  abbrev pub get_elem? : List A → ℕ → Option A
  get_elem? [] i = none
  get_elem? (x ∷ xs) zero = some x
  get_elem? (x ∷ xs) (suc i) = get_elem? xs i

  abbrev pub get_or : List A → ℕ → A → A
  get_or [] i d = d
  get_or (x ∷ xs) zero d = x
  get_or (x ∷ xs) (suc i) d = get_or xs i d

  -- A write out of bounds changes nothing.
  abbrev pub set : List A → ℕ → A → List A
  set [] i v = []
  set (x ∷ xs) zero v = v ∷ xs
  set (x ∷ xs) (suc i) v = x ∷ set xs i v

  abbrev pub take : ℕ → List A → List A
  take zero xs = []
  take (suc n) [] = []
  take (suc n) (x ∷ xs) = x ∷ take n xs

  abbrev pub drop : ℕ → List A → List A
  drop zero xs = xs
  drop (suc n) [] = []
  drop (suc n) (x ∷ xs) = drop n xs

  abbrev pub replicate : ℕ → A → List A
  replicate zero a = []
  replicate (suc n) a = a ∷ replicate n a

-- A predicate of every element.
abbrev pub All {ℓ κ} : {A : Type ℓ} → (A → Type κ) → List A → Type κ
All P [] = Unit
All P (x ∷ xs) = P x × All P xs

pub All-mono {ℓ κ κ'} :
    {A : Type ℓ} {P : A → Type κ} {Q : A → Type κ'} (xs : List A)
    → ((x : A) → P x → Q x)
    → All P xs
    → All Q xs
All-mono [] f h = tt
All-mono (x ∷ xs) f h = (f x h.0, All-mono xs f h.1)

abbrev pub contains : ℕ → List ℕ → Bool
contains n [] = false
contains n (x ∷ xs) = x == n || contains n xs

module _ {ℓ} {A : Type ℓ} where
  pub length-append : (xs ys : List A) → length (xs ++ ys) ≡ length xs + length ys
  length-append [] ys = omega arith
  length-append (x ∷ xs) ys = omega (arith, length-append xs ys)

  pub length-set : (xs : List A) (i : ℕ) (v : A) → length (set xs i v) ≡ length xs
  length-set [] i v = refl
  length-set (x ∷ xs) zero v = refl
  length-set (x ∷ xs) (suc i) v = ap suc (length-set xs i v)

  pub length-take : (n : ℕ) (xs : List A) → length (take n xs) ≡ min n (length xs)
  length-take zero xs = omega arith
  length-take (suc n) [] = omega arith
  length-take (suc n) (x ∷ xs) = omega (arith, length-take n xs)

  pub length-drop : (n : ℕ) (xs : List A) → length (drop n xs) ≡ length xs - n
  length-drop zero xs = omega arith
  length-drop (suc n) [] = omega arith
  length-drop (suc n) (x ∷ xs) = omega (arith, length-drop n xs)

  pub length-replicate : (n : ℕ) (a : A) → length (replicate n a) ≡ n
  length-replicate zero a = refl
  length-replicate (suc n) a = ap suc (length-replicate n a)

  pub get_or-set :
      (xs : List A) (i j : ℕ) (v d : A)
      → i < length xs
      → get_or (set xs i v) j d ≡ (if i == j then v else get_or xs j d)
  get_or-set [] i j v d h = absurd (omega arith)
  get_or-set (x ∷ xs) zero zero v d h = refl
  get_or-set (x ∷ xs) (suc i) (suc j) v d h = ground (arith, get_or-set xs i j v d)
  get_or-set (x ∷ xs) i j v d h = ground arith

  pub get_or-append :
      (xs ys : List A) (i : ℕ) (d : A) → i < length xs → get_or (xs ++ ys) i d ≡ get_or xs i d
  get_or-append [] ys i d h = absurd (omega arith)
  get_or-append (x ∷ xs) ys zero d h = refl
  get_or-append (x ∷ xs) ys (suc i) d h = get_or-append xs ys i d (omega arith)

  pub get_or-append_last : (xs : List A) (x d : A) → get_or (xs ++ x ∷ []) (length xs) d ≡ x
  get_or-append_last [] x d = refl
  get_or-append_last (y ∷ xs) x d = get_or-append_last xs x d

  pub get_or-take :
      (n : ℕ) (xs : List A) (i : ℕ) (d : A) → i < n → get_or (take n xs) i d ≡ get_or xs i d
  get_or-take zero xs i d h = absurd (omega arith)
  get_or-take (suc n) [] i d h = refl
  get_or-take (suc n) (x ∷ xs) zero d h = refl
  get_or-take (suc n) (x ∷ xs) (suc i) d h = get_or-take n xs i d (omega arith)

  pub get_elem?-eq-get_or :
      (xs : List A) (i : ℕ) (d : A) → i < length xs → get_elem? xs i ≡ some (get_or xs i d)
  get_elem?-eq-get_or [] i d h = absurd (omega arith)
  get_elem?-eq-get_or (x ∷ xs) zero d h = refl
  get_elem?-eq-get_or (x ∷ xs) (suc i) d h = get_elem?-eq-get_or xs i d (omega arith)

  pub get_elem?-none : (xs : List A) (i : ℕ) → length xs ≤ i → get_elem? xs i ≡ none
  get_elem?-none [] i h = refl
  get_elem?-none (x ∷ xs) zero h = absurd (omega arith)
  get_elem?-none (x ∷ xs) (suc i) h = get_elem?-none xs i (omega arith)

  pub take-append-drop : (n : ℕ) (xs : List A) → take n xs ++ drop n xs ≡ xs
  take-append-drop zero xs = refl
  take-append-drop (suc n) [] = refl
  take-append-drop (suc n) (x ∷ xs) = rw (take-append-drop n xs)

  pub take-length-append : (xs ys : List A) → take (length xs) (xs ++ ys) ≡ xs
  take-length-append [] ys = refl
  take-length-append (x ∷ xs) ys = ap (◌∷◌ x) (take-length-append xs ys)

  pub drop-length-append : (xs ys : List A) → drop (length xs) (xs ++ ys) ≡ ys
  drop-length-append [] ys = refl
  drop-length-append (x ∷ xs) ys = drop-length-append xs ys

  pub take-length : (n : ℕ) (xs : List A) → length xs ≤ n → take n xs ≡ xs
  take-length zero [] h = refl
  take-length (suc n) [] h = refl
  take-length zero (x ∷ xs) h = absurd (omega arith)
  take-length (suc n) (x ∷ xs) h = ap (◌∷◌ x) (take-length n xs (omega arith))

  pub drop-nil : (k : ℕ) → drop k (let e : List A = [] in e) ≡ []
  drop-nil zero = refl
  drop-nil (suc k) = refl

  pub take-nil : (k : ℕ) → take k (let e : List A = [] in e) ≡ []
  take-nil zero = refl
  take-nil (suc k) = refl

  -- Stated with the sum as a variable, since `suc m + n` is stuck.
  pub take-sum : (m n k : ℕ) (xs : List A) → k ≡ m + n → take k xs ≡ take m xs ++ take n (drop m xs)
  take-sum zero n k xs e = let e' : k ≡ n = omega arith in rw e'
  take-sum (suc m) n k [] e = ground (arith, take-nil n, take-nil k)
  take-sum (suc m) n (suc k) (x ∷ xs) e = ap (◌∷◌ x) (take-sum m n k xs (omega arith))
  take-sum (suc m) n zero (x ∷ xs) e = absurd (omega arith)

  pub drop-sum : (m n k : ℕ) (xs : List A) → k ≡ m + n → drop k xs ≡ drop n (drop m xs)
  drop-sum zero n k xs e = let e' : k ≡ n = omega arith in rw e'
  drop-sum (suc m) n k [] e = ground (arith, drop-nil n, drop-nil k)
  drop-sum (suc m) n (suc k) (x ∷ xs) e = drop-sum m n k xs (omega arith)
  drop-sum (suc m) n zero (x ∷ xs) e = absurd (omega arith)

module _ {ℓ} {A : Type ℓ} where
  pub drop-append_le :
      (n : ℕ) (xs ys : List A) → n ≤ length xs → drop n (xs ++ ys) ≡ drop n xs ++ ys
  drop-append_le zero xs ys h = refl
  drop-append_le (suc n) [] ys h = absurd (omega arith)
  drop-append_le (suc n) (x ∷ xs) ys h = drop-append_le n xs ys (omega arith)

  pub take-append_le : (n : ℕ) (xs ys : List A) → n ≤ length xs → take n (xs ++ ys) ≡ take n xs
  take-append_le zero xs ys h = refl
  take-append_le (suc n) [] ys h = absurd (omega arith)
  take-append_le (suc n) (x ∷ xs) ys h = ap (◌∷◌ x) (take-append_le n xs ys (omega arith))

  pub drop-take : (r w k : ℕ) (xs : List A) → w ≡ r + k → drop r (take w xs) ≡ take k (drop r xs)
  drop-take zero w k xs e = let e' : w ≡ k = omega arith in rw e'
  drop-take (suc r) zero k xs e = absurd (omega arith)
  drop-take (suc r) (suc w) k [] e = rw (take-nil {A = A} k)
  drop-take (suc r) (suc w) k (x ∷ xs) e = drop-take r w k xs (omega arith)

  pub take-append_exact : (n : ℕ) (xs ys : List A) → n ≡ length xs → take n (xs ++ ys) ≡ xs
  take-append_exact n xs ys e = rw e (take-length-append xs ys)

  pub drop-append_exact : (n : ℕ) (xs ys : List A) → n ≡ length xs → drop n (xs ++ ys) ≡ ys
  drop-append_exact n xs ys e = rw e (drop-length-append xs ys)

  pub get_or-past : (xs : List A) (i : ℕ) (d : A) → length xs ≤ i → get_or xs i d ≡ d
  get_or-past [] i d h = refl
  get_or-past (x ∷ xs) zero d h = absurd (omega arith)
  get_or-past (x ∷ xs) (suc i) d h = get_or-past xs i d (omega arith)

  pub set-set_self : (xs : List A) (i : ℕ) (v w : A) → set (set xs i v) i w ≡ set xs i w
  set-set_self [] i v w = refl
  set-set_self (x ∷ xs) zero v w = refl
  set-set_self (x ∷ xs) (suc i) v w = ap (◌∷◌ x) (set-set_self xs i v w)

  pub set-set_ne :
      (xs : List A) (i j : ℕ) (v w : A)
      → (i == j) ≡ false
      → set (set xs i v) j w ≡ set (set xs j w) i v
  set-set_ne [] i j v w h = refl
  set-set_ne (x ∷ xs) zero zero v w h = ground (arith, h)
  set-set_ne (x ∷ xs) zero (suc j) v w h = refl
  set-set_ne (x ∷ xs) (suc i) zero v w h = refl
  set-set_ne (x ∷ xs) (suc i) (suc j) v w h = ap (◌∷◌ x) (set-set_ne xs i j v w (ground arith))

  pub drop-append_ge :
      (n k : ℕ) (xs ys : List A) → n ≡ length xs + k → drop n (xs ++ ys) ≡ drop k ys
  drop-append_ge n k [] ys e = let e' : n ≡ k = omega arith in rw e'
  drop-append_ge zero k (x ∷ xs) ys e = absurd (omega arith)
  drop-append_ge (suc n) k (x ∷ xs) ys e = drop-append_ge n k xs ys (omega arith)
