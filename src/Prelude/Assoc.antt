-- ===== src/Prelude/Assoc.antt =====
-- Association lists over keys with a decidable equality: the view through which the laws of the
-- maps of the program are stated.
use Prim.Native.Nat.{ℕ}
use mathlib.Core.Path.{◌≡◌, refl}
use mathlib.Core.Logic.{ite, if_pos, if_neg}
use mathlib.Core.List.{List, [], ◌∷◌, ◌++◌}
use mathlib.Core.Option.{Option, none, some}
use native.Mathlib.Decide.{ℕ_discrete}
use native.Mathlib.Omega.{arith}

module _ {ℓ} {K V : Type ℓ} (dec : Discrete K) where
  unfoldable pub lookup : K → List (K × V) → Option V
  lookup k [] = none
  lookup k ((j, v) ∷ l) = ite (dec j k) (some v) (lookup k l)

  unfoldable pub erase : K → List (K × V) → List (K × V)
  erase k [] = []
  erase k ((j, v) ∷ l) = let rest = erase k l in ite (dec j k) rest ((j, v) ∷ rest)

  -- No key stands twice.
  abbrev pub Distinct : List (K × V) → Type ℓ
  Distinct [] = Unit
  Distinct ((k, v) ∷ l) = (lookup k l ≡ none) × Distinct l

  pub lookup-erase :
      (j k : K) (l : List (K × V)) → lookup j (erase k l) ≡ ite (dec k j) none (lookup j l)
  unfolding lookup erase
  lookup-erase j k [] = ground arith
  lookup-erase j k ((i, v) ∷ l) = ground (arith, lookup-erase j k l)

  pub lookup-append :
      (j : K) (l m : List (K × V))
      → lookup j (l ++ m) ≡ elim (lookup j l) [ none ↦ lookup j m | some v ↦ some v ]
  unfolding lookup
  lookup-append j [] m = refl
  lookup-append j ((i, v) ∷ l) m = ground (arith, lookup-append j l m)

  -- An insertion that moves the key to the back.
  pub lookup-snoc :
      (j k : K) (v : V) (l : List (K × V))
      → lookup j (erase k l ++ (k, v) ∷ []) ≡ ite (dec k j) (some v) (lookup j l)
  unfolding lookup
  lookup-snoc j k v l =
      ground (arith, lookup-append j (erase k l) ((k, v) ∷ []), lookup-erase j k l)

  pub erase_absent : (k : K) (l : List (K × V)) → lookup k l ≡ none → erase k l ≡ l
  unfolding lookup erase
  erase_absent k [] h = refl
  erase_absent k ((j, v) ∷ l) h = ground (arith, erase_absent k l)

  pub Distinct-erase : (k : K) (l : List (K × V)) → Distinct l → Distinct (erase k l)
  unfolding erase
  Distinct-erase k [] h = h
  Distinct-erase k ((j, v) ∷ l) h = elim (dec j k) [
    | yes p ↦ rw (if_pos _ p) (Distinct-erase k l h.1)
    | no p ↦ rw (if_neg _ p) (ground (arith, lookup-erase j k l), Distinct-erase k l h.1)
  ]

  pub Distinct-snoc :
      (k : K) (v : V) (l : List (K × V))
      → lookup k l ≡ none
      → Distinct l
      → Distinct (l ++ (k, v) ∷ [])
  unfolding lookup
  Distinct-snoc k v [] h d = (refl, tt)
  Distinct-snoc k v ((j, w) ∷ l) h d =
      (ground (arith, lookup-append j l ((k, v) ∷ [])), Distinct-snoc k v l (ground arith) d.1)

-- The keys of the maps that are byte strings.
unfoldable pub bytes_discrete : Discrete (List ℕ)
bytes_discrete = hlevel ℕ_discrete
