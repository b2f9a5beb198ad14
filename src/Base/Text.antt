-- ===== src/Base/Text.antt =====
-- Texts as lists of bytes, with `std::unordered_map` on them as an association list.
use Prim.Native.Nat.{ℕ}
use Prim.Native.Char.{code}
use Prim.Native.String.{String}
use mathlib.Core.Path.{◌≡◌, refl}
use mathlib.Core.Bool.{Bool, true, false, ◌&&◌}
use mathlib.Core.List.{List, [], ◌∷◌, ◌++◌}
use mathlib.Core.Option.{Option, none, some}
use native.Mathlib.Omega.{arith}
use video_server.Base.Tests.{◌==◌, if◌then◌else◌}

-- The bytes of an ASCII text. `String` has its own `[]` and `∷`.
abbrev pub codes : String → List ℕ
codes String.[] = []
codes (String.◌∷◌ c s) = code c ∷ codes s

-- `operator==` of two texts
abbrev pub same_text : List ℕ → List ℕ → Bool
same_text [] [] = true
same_text (a ∷ s) (b ∷ t) = (a == b) && same_text s t
same_text s t = false

pub same_text_self : (s : List ℕ) → same_text s s ≡ true
same_text_self [] = refl
same_text_self (a ∷ s) = ground (arith, same_text_self s)

pub same_text-eq : (s t : List ℕ) → same_text s t ≡ true → s ≡ t
same_text-eq [] [] h = refl
same_text-eq (a ∷ s) (b ∷ t) h = ground (arith, same_text-eq s t)
same_text-eq [] (b ∷ t) h = absurd (ground arith)
same_text-eq (a ∷ s) [] h = absurd (ground arith)

abbrev pub Dictionary {ℓ} : Type ℓ → Type ℓ
Dictionary V = List (List ℕ × V)

module _ {ℓ} {V : Type ℓ} where
  abbrev pub lookup : List ℕ → Dictionary V → Option V
  lookup k [] = none
  lookup k ((j, v) ∷ m) = if same_text j k then some v else lookup k m

  -- `m[k] = v`
  abbrev pub insert : List ℕ → V → Dictionary V → Dictionary V
  insert k v [] = (k, v) ∷ []
  insert k v ((j, w) ∷ m) = if same_text j k then (j, v) ∷ m else (j, w) ∷ insert k v m

  pub lookup-insert_self :
      (k : List ℕ) (v : V) (m : Dictionary V) → lookup k (insert k v m) ≡ some v
  lookup-insert_self k v [] = ground (arith, same_text_self k)
  lookup-insert_self k v ((j, w) ∷ m) = ground (arith, lookup-insert_self k v m)

  pub lookup-insert_ne :
      (k j : List ℕ) (v : V) (m : Dictionary V)
      → same_text k j ≡ false
      → lookup j (insert k v m) ≡ lookup j m
  lookup-insert_ne k j v [] h = ground arith
  lookup-insert_ne k j v ((i, w) ∷ m) h =
      ground
        (arith, lookup-insert_ne k j v m h, same_text-eq i k, same_text-eq i j, same_text_self k)

-- Before the first byte `b`, and after it.
abbrev pub split_at : ℕ → List ℕ → Option (List ℕ × List ℕ)
split_at b [] = none
split_at b (c ∷ s) =
    if c == b
    then some ([], s)
    else elim (split_at b s) [ none ↦ none | some r ↦ some (c ∷ r.0, r.1) ]

abbrev pub has_byte : ℕ → List ℕ → Bool
has_byte b [] = false
has_byte b (c ∷ s) = if c == b then true else has_byte b s

pub split_at-append :
    (b : ℕ) (s t : List ℕ) → has_byte b s ≡ false → split_at b (s ++ b ∷ t) ≡ some (s, t)
split_at-append b [] t h = ground arith
split_at-append b (c ∷ s) t h = ground (arith, split_at-append b s t)
