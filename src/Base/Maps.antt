-- ===== src/Base/Maps.antt =====
-- Association lists with numbers as keys, for the source's maps.
use Prim.Native.Nat.{ℕ, ◌+◌, ◌≤◌, ◌<◌}
use mathlib.Core.Path.{◌≡◌, refl}
use mathlib.Core.Bool.{Bool, true, false}
use mathlib.Core.Option.{Option, none, some}
use mathlib.Core.List.{List, [], ◌∷◌}
use native.Mathlib.Omega.{arith}
use o_walkie.Base.Tests.{◌==◌, if◌then◌else◌}
use o_walkie.Base.Lists.{length}

abbrev pub Assoc {ℓ} : Type ℓ → Type ℓ
Assoc V = List (ℕ × V)

module _ {ℓ} {V : Type ℓ} where
  abbrev pub lookup : ℕ → Assoc V → Option V
  lookup k [] = none
  lookup k ((j, v) ∷ l) = if j == k then some v else lookup k l

  abbrev pub is_member : ℕ → Assoc V → Bool
  is_member k [] = false
  is_member k ((j, v) ∷ l) = if j == k then true else is_member k l

  -- The value of a key changed in place, if the key is there.
  abbrev pub adjust : ℕ → (V → V) → Assoc V → Assoc V
  adjust k f [] = []
  adjust k f ((j, v) ∷ l) = if j == k then (j, f v) ∷ l else (j, v) ∷ adjust k f l

  abbrev pub without : ℕ → Assoc V → Assoc V
  without k [] = []
  without k ((j, v) ∷ l) = if j == k then without k l else (j, v) ∷ without k l

  abbrev pub keys : Assoc V → List ℕ
  keys [] = []
  keys ((j, v) ∷ l) = j ∷ keys l

  abbrev pub on_value : (V → V) → Option V → Option V
  on_value f none = none
  on_value f (some v) = some (f v)

  -- Every key stands once.
  abbrev pub Distinct : Assoc V → Type 0
  Distinct [] = Unit {0}
  Distinct ((j, v) ∷ l) = (is_member j l ≡ false) × Distinct l

  -- Every key lies above 0 and below a bound.
  abbrev pub Below : ℕ → Assoc V → Type 0
  Below n [] = Unit {0}
  Below n ((j, v) ∷ l) = (0 < j) × (j < n) × Below n l

  pub lookup-without :
      (k j : ℕ) (l : Assoc V) → lookup j (without k l) ≡ (if k == j then none else lookup j l)
  lookup-without k j [] = ground arith
  lookup-without k j ((i, v) ∷ l) = ground (arith, lookup-without k j l)

  pub lookup-adjust :
      (k j : ℕ) (f : V → V) (l : Assoc V)
      → lookup j (adjust k f l) ≡ (if k == j then on_value f (lookup j l) else lookup j l)
  lookup-adjust k j f [] = ground arith
  lookup-adjust k j f ((i, v) ∷ l) = ground (arith, lookup-adjust k j f l)

  pub is_member-lookup-none : (k : ℕ) (l : Assoc V) → lookup k l ≡ none → is_member k l ≡ false
  is_member-lookup-none k [] h = refl
  is_member-lookup-none k ((i, v) ∷ l) h = ground (arith, is_member-lookup-none k l)

  pub is_member-lookup-some :
      (k : ℕ) (v : V) (l : Assoc V) → lookup k l ≡ some v → is_member k l ≡ true
  is_member-lookup-some k v [] h = cc
  is_member-lookup-some k v ((i, w) ∷ l) h = ground (arith, is_member-lookup-some k v l)

  pub is_member-adjust :
      (k j : ℕ) (f : V → V) (l : Assoc V) → is_member j (adjust k f l) ≡ is_member j l
  is_member-adjust k j f [] = refl
  is_member-adjust k j f ((i, v) ∷ l) = ground (arith, is_member-adjust k j f l)

  pub is_member-without :
      (k j : ℕ) (l : Assoc V) → is_member j l ≡ false → is_member j (without k l) ≡ false
  is_member-without k j [] h = refl
  is_member-without k j ((i, v) ∷ l) h = ground (arith, is_member-without k j l)

  pub is_member-without_self : (k : ℕ) (l : Assoc V) → is_member k (without k l) ≡ false
  is_member-without_self k [] = refl
  is_member-without_self k ((i, v) ∷ l) = ground (arith, is_member-without_self k l)

  pub length-adjust : (k : ℕ) (f : V → V) (l : Assoc V) → length (adjust k f l) ≡ length l
  length-adjust k f [] = refl
  length-adjust k f ((i, v) ∷ l) = ground (arith, length-adjust k f l)

  pub length-without : (k : ℕ) (l : Assoc V) → length (without k l) ≤ length l
  length-without k [] = omega arith
  length-without k ((i, v) ∷ l) = ground (arith, length-without k l)

  pub without_absent : (k : ℕ) (l : Assoc V) → is_member k l ≡ false → without k l ≡ l
  without_absent k [] h = refl
  without_absent k ((i, v) ∷ l) h = ground (arith, without_absent k l)

  -- A key that stands once takes one entry with it.
  pub length-without_member :
      (k : ℕ) (l : Assoc V)
      → Distinct l
      → is_member k l ≡ true
      → length (without k l) + 1 ≡ length l
  length-without_member k [] d h = cc
  length-without_member k ((i, v) ∷ l) d h =
      ground (arith, length-without_member k l d.1, without_absent k l)

  pub Distinct-adjust : (k : ℕ) (f : V → V) (l : Assoc V) → Distinct l → Distinct (adjust k f l)
  Distinct-adjust k f [] d = d
  Distinct-adjust k f ((i, v) ∷ l) d =
      ground (arith, Distinct-adjust k f l d.1, is_member-adjust k i f l)

  pub Distinct-without : (k : ℕ) (l : Assoc V) → Distinct l → Distinct (without k l)
  Distinct-without k [] d = d
  Distinct-without k ((i, v) ∷ l) d =
      ground (arith, Distinct-without k l d.1, is_member-without k i l)

  pub Below-adjust : (n k : ℕ) (f : V → V) (l : Assoc V) → Below n l → Below n (adjust k f l)
  Below-adjust n k f [] b = b
  Below-adjust n k f ((i, v) ∷ l) b = ground (arith, Below-adjust n k f l b.2)

  pub Below-without : (n k : ℕ) (l : Assoc V) → Below n l → Below n (without k l)
  Below-without n k [] b = b
  Below-without n k ((i, v) ∷ l) b = ground (arith, Below-without n k l b.2)

  pub Below-suc : (n : ℕ) (l : Assoc V) → Below n l → Below (n + 1) l
  Below-suc n [] b = b
  Below-suc n ((i, v) ∷ l) b = (b.0, omega arith, Below-suc n l b.2)

  -- A key beyond the bound is not there.
  pub is_member-Below : (n : ℕ) (l : Assoc V) → Below n l → is_member n l ≡ false
  is_member-Below n [] b = refl
  is_member-Below n ((i, v) ∷ l) b = ground (arith, is_member-Below n l b.2)

  pub is_member-without_if :
      (k j : ℕ) (l : Assoc V)
      → is_member j (without k l) ≡ (if k == j then false else is_member j l)
  is_member-without_if k j [] = ground arith
  is_member-without_if k j ((i, v) ∷ l) = ground (arith, is_member-without_if k j l)

  -- Putting back what is there changes nothing.
  pub adjust_same : (k : ℕ) (v : V) (l : Assoc V) → lookup k l ≡ some v → adjust k (λ _. v) l ≡ l
  adjust_same k v [] h = refl
  adjust_same k v ((i, w) ∷ l) h = ground (arith, adjust_same k v l)
