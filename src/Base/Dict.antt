-- ===== src/Base/Dict.antt =====
-- A JavaScript Map: an association list in insertion order, one entry for each key.
use mathlib.Core.Path.{◌≡◌, refl}
use mathlib.Core.Bool.{false, not, ◌&&◌, ◌||◌}
use mathlib.Core.Option.{Option, none, some}
use mathlib.Core.List.{List, [], ◌∷◌}
use native.Mathlib.Omega.{arith}
use mathlib.Core.Logic.{inl, inr}
use almadar_runtime.Base.Tests.{StrictEq, ◌==◌, if◌then◌else◌, Bool-cases}
use almadar_runtime.Base.Lists.{contains, IsUnique, All, is_empty}

module _ {ℓ κ} {K : Type ℓ} {V : Type κ} where
  abbrev pub keys : List (K × V) → List K
  keys [] = []
  keys ((k, v) ∷ m) = k ∷ keys m

  abbrev pub values : List (K × V) → List V
  values [] = []
  values ((k, v) ∷ m) = v ∷ values m

module _ {ℓ κ} {K : Type ℓ} {V : Type κ} ⦃e : StrictEq K⦄ where
  unfoldable pub get : K → List (K × V) → Option V
  get k [] = none
  get k ((j, v) ∷ m) = if j == k then some v else get k m

  -- `Map.set` keeps the place of a key that is there, and adds a new key at the end.
  unfoldable pub put : K → V → List (K × V) → List (K × V)
  put k v [] = (k, v) ∷ []
  put k v ((j, w) ∷ m) = if j == k then (j, v) ∷ m else (j, w) ∷ put k v m

  unfoldable pub delete : K → List (K × V) → List (K × V)
  delete k [] = []
  delete k ((j, w) ∷ m) = if j == k then delete k m else (j, w) ∷ delete k m

  pub get-put :
      (k j : K) (v : V) (m : List (K × V))
      → get j (put k v m) ≡ (if k == j then some v else get j m)
  unfolding get put
  get-put k j v [] = refl
  get-put k j v ((i, w) ∷ m) =
      ground (arith, e.test_iff k j, e.test_iff i k, e.test_iff i j, get-put k j v m)

  pub get-delete :
      (k j : K) (m : List (K × V)) → get j (delete k m) ≡ (if k == j then none else get j m)
  unfolding get delete
  get-delete k j [] = ground arith
  get-delete k j ((i, w) ∷ m) =
      ground (arith, e.test_iff k j, e.test_iff i k, e.test_iff i j, get-delete k j m)

  pub contains-keys-put :
      (k j : K) (v : V) (m : List (K × V))
      → contains j (keys (put k v m)) ≡ (k == j || contains j (keys m))
  unfolding put
  contains-keys-put k j v [] = refl
  contains-keys-put k j v ((i, w) ∷ m) =
      ground (arith, e.test_iff i k, e.test_iff i j, e.test_iff k j, contains-keys-put k j v m)

  pub contains-keys-delete :
      (k j : K) (m : List (K × V))
      → contains j (keys (delete k m)) ≡ (not (k == j) && contains j (keys m))
  unfolding delete
  contains-keys-delete k j [] = ground arith
  contains-keys-delete k j ((i, w) ∷ m) =
      ground (arith, e.test_iff i k, e.test_iff i j, e.test_iff k j, contains-keys-delete k j m)

  pub put-IsUnique :
      (k : K) (v : V) (m : List (K × V)) → IsUnique (keys m) → IsUnique (keys (put k v m))
  unfolding put
  put-IsUnique k v [] h = (refl, tt)
  put-IsUnique k v ((j, w) ∷ m) (h, u) =
      ground
        (arith, e.test_iff j k, e.test_iff k j, contains-keys-put k j v m, put-IsUnique k v m u)

  pub delete-IsUnique :
      (k : K) (m : List (K × V)) → IsUnique (keys m) → IsUnique (keys (delete k m))
  unfolding delete
  delete-IsUnique k [] h = tt
  delete-IsUnique k ((j, w) ∷ m) (h, u) =
      ground (arith, contains-keys-delete k j m, delete-IsUnique k m u)

module _ {ℓ κ} {K : Type ℓ} {V : Type κ} ⦃e : StrictEq K⦄ where
  pub All-keys-put {ι} :
      (P : K → Type ι) (k : K) (v : V) (m : List (K × V))
      → P k
      → All P (keys m)
      → All P (keys (put k v m))
  unfolding put
  All-keys-put P k v [] p h = (p, tt)
  All-keys-put P k v ((j, w) ∷ m) p (q, h) = elim (Bool-cases (j == k)) [
    | inl same ↦ rw same (q, h)
    | inr other ↦ rw other (q, All-keys-put P k v m p h)
  ]

  pub All-keys-delete {ι} :
      (P : K → Type ι) (k : K) (m : List (K × V)) → All P (keys m) → All P (keys (delete k m))
  unfolding delete
  All-keys-delete P k [] h = tt
  All-keys-delete P k ((j, w) ∷ m) (q, h) = elim (Bool-cases (j == k)) [
    | inl same ↦ rw same (All-keys-delete P k m h)
    | inr other ↦ rw other (q, All-keys-delete P k m h)
  ]

  pub All-values-put {ι} :
      (P : V → Type ι) (k : K) (v : V) (m : List (K × V))
      → P v
      → All P (values m)
      → All P (values (put k v m))
  unfolding put
  All-values-put P k v [] p h = (p, tt)
  All-values-put P k v ((j, w) ∷ m) p (q, h) = elim (Bool-cases (j == k)) [
    | inl same ↦ rw same (p, h)
    | inr other ↦ rw other (q, All-values-put P k v m p h)
  ]

  pub All-values-delete {ι} :
      (P : V → Type ι) (k : K) (m : List (K × V)) → All P (values m) → All P (values (delete k m))
  unfolding delete
  All-values-delete P k [] h = tt
  All-values-delete P k ((j, w) ∷ m) (q, h) = elim (Bool-cases (j == k)) [
    | inl same ↦ rw same (All-values-delete P k m h)
    | inr other ↦ rw other (q, All-values-delete P k m h)
  ]

  pub is_empty-put : (k : K) (v : V) (m : List (K × V)) → is_empty (put k v m) ≡ false
  unfolding put
  is_empty-put k v [] = refl
  is_empty-put k v ((j, w) ∷ m) = ground arith
