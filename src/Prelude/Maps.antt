-- ===== src/Prelude/Maps.antt =====
-- Association lists: Go's maps, files of a disk by path.
use mathlib.Core.Path.{◌≡◌, refl}
use mathlib.Core.List.{List, [], ◌∷◌}
use mathlib.Core.Option.{Option, none, some}
use native.Mathlib.Omega.{arith}
use mathlib.Core.Logic.{◌≢◌, inl, inr}
use cerclbackup.Prelude.Lists.{In}
use cerclbackup.Prelude.Tests.{if◌then◌else◌, Eq, ◌==◌, beq_refl, Bool-cases}

module _ {ℓ κ} {K : Type ℓ} {V : Type κ} ⦃e : Eq K⦄ where
  -- m[k], and whether it is there
  unfoldable pub lookup : K → List (K × V) → Option V
  lookup k [] = none
  lookup k ((key, found) ∷ more) = if key == k then some found else lookup k more

  -- m[k] = v
  unfoldable pub insert : K → V → List (K × V) → List (K × V)
  insert k v [] = (k, v) ∷ []
  insert k v ((key, old) ∷ more) = if key == k then (k, v) ∷ more else (key, old) ∷ insert k v more

  -- delete(m, k)
  unfoldable pub erase : K → List (K × V) → List (K × V)
  erase k [] = []
  erase k ((key, old) ∷ more) =
      let rest = erase k more in if key == k then rest else (key, old) ∷ rest

  pub lookup-insert :
      (set asked : K) (v : V) (m : List (K × V))
      → lookup asked (insert set v m) ≡ (if set == asked then some v else lookup asked m)
  unfolding lookup insert
  lookup-insert set asked v [] = refl
  lookup-insert set asked v ((key, old) ∷ m) =
      let rest = lookup-insert set asked v m in
      ground (arith, rest, e.iff set asked, e.iff key set, e.iff key asked)

  pub lookup-erase :
      (k j : K) (m : List (K × V)) → lookup j (erase k m) ≡ (if k == j then none else lookup j m)
  unfolding lookup erase
  lookup-erase k j [] = ground arith
  lookup-erase k j ((i, w) ∷ m) =
      ground (arith, e.iff k j, e.iff i k, e.iff i j, lookup-erase k j m)

  pub lookup-insert_self : (k : K) (v : V) (m : List (K × V)) → lookup k (insert k v m) ≡ some v
  lookup-insert_self k v m = simp (lookup-insert, beq_refl)

module _ {K V : Type 0} ⦃e : Eq K⦄ where
  -- No key stands twice.
  abbrev pub Distinct : List (K × V) → Type 0
  Distinct [] = Unit
  Distinct ((k, v) ∷ m) = (lookup k m ≡ none) × Distinct m

  pub insert-Distinct : (k : K) (v : V) (m : List (K × V)) → Distinct m → Distinct (insert k v m)
  unfolding insert lookup
  insert-Distinct k v [] d = (refl, tt)
  insert-Distinct k v ((j, w) ∷ m) (n, d) = elim (Bool-cases (j == k)) [
    | inl t ↦ rw t (rw ((e.iff j k).0 t) at n, d)
    | inr t ↦
        rw t (rw lookup-insert (ground (arith, e.iff k j, e.iff j k, n)), insert-Distinct k v m d)
  ]

  pub lookup-erase-none :
      (k j : K) (m : List (K × V)) → lookup j m ≡ none → lookup j (erase k m) ≡ none
  lookup-erase-none k j m h = rw lookup-erase (ground (arith, h))

  pub erase-Distinct : (k : K) (m : List (K × V)) → Distinct m → Distinct (erase k m)
  unfolding erase
  erase-Distinct k [] d = tt
  erase-Distinct k ((j, w) ∷ m) (n, d) = elim (Bool-cases (j == k)) [
    | inl t ↦ rw t (erase-Distinct k m d)
    | inr t ↦ rw t (lookup-erase-none k j m n, erase-Distinct k m d)
  ]

  pub lookup_of_In :
      (k : K) (v : V) (m : List (K × V)) → Distinct m → In (k, v) m → lookup k m ≡ some v
  unfolding lookup
  lookup_of_In k v [] d h = absurd h
  lookup_of_In k v ((j, w) ∷ m) (n, d) (inl h) = ground (arith, h, e.iff j k)
  lookup_of_In k v ((j, w) ∷ m) (n, d) (inr h) = ground (arith, lookup_of_In k v m d h, e.iff j k)

  pub In-of_lookup : (k : K) (v : V) (m : List (K × V)) → lookup k m ≡ some v → In (k, v) m
  unfolding lookup
  In-of_lookup k v [] h = ground arith
  In-of_lookup k v ((j, w) ∷ m) h = elim (Bool-cases (j == k)) [
    | inl t ↦ inl (ground (arith, e.iff j k))
    | inr t ↦ inr (In-of_lookup k v m (ground arith))
  ]

  pub lookup-erase_ne : (k j : K) (m : List (K × V)) → k ≢ j → lookup j (erase k m) ≡ lookup j m
  lookup-erase_ne k j m h = rw lookup-erase (ground (arith, e.iff k j))

  pub lookup-erase_self : (k : K) (m : List (K × V)) → lookup k (erase k m) ≡ none
  lookup-erase_self k m = rw lookup-erase (ground (arith, e.iff k k))

  pub lookup-insert_ne :
      (k j : K) (v : V) (m : List (K × V)) → k ≢ j → lookup j (insert k v m) ≡ lookup j m
  lookup-insert_ne k j v m h = rw lookup-insert (ground (arith, e.iff k j))
