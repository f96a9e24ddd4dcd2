-- ===== src/Codec/Split.antt =====
-- How a chunk is padded and cut.
use Prim.Native.Nat.add
use cerclbackup.Prelude.{
  ℕ, zero, suc, ◌+◌, ◌-◌, ◌*◌, ◌/◌, ◌%◌, ◌≤◌, ◌<◌, ◌≡◌, refl, sym, ap, ◌∙◌, inl, inr, List, [], ◌∷◌,
  ◌++◌, arith, Bool-cases, ◌==◌, nat_eq, list_eq, Bytes, length, take, drop, replicate,
  length-append, length-take, length-drop, length-replicate, take-append-drop, take-append_length,
  take_of_length_le, drop_of_length_le,
}
use cerclbackup.Codec.Coder.{AllOf}
use cerclbackup.Codec.{slices, padded, concat}
use native.Mathlib.Nat.{mul-div_cancel_left, zero-add, mod-lt, div-add-mod}

drop-nil {ℓ} : {A : Type ℓ} (n : ℕ) → drop {A = A} n [] ≡ []
drop-nil zero = refl
drop-nil (suc n) = refl

drop-drop {ℓ} : {A : Type ℓ} (m n : ℕ) (xs : List A) → drop m (drop n xs) ≡ drop (n + m) xs
drop-drop m zero xs = rw zero-add
drop-drop m (suc n) [] = rw (drop-nil m, drop-nil (suc n + m))
drop-drop m (suc n) (x ∷ xs) = drop-drop m n xs ∙ simp add.suc

div_exact : (l n k : ℕ) → 0 < n → l ≡ n * k → l ≡ n * (l / n)
div_exact l n k h e = rw e (rw (mul-div_cancel_left k h))

module _ (n : ℕ) (chunk : Bytes) (some_shards : 0 < n) where
  -- The padded chunk has n shards of one size.
  pub length-padded : length (padded n chunk) ≡ n * (length (padded n chunk) / n)
  unfolding padded
  length-padded = elim (Bool-cases (length chunk % n == 0)) [
    | inl e ↦ rw e (
        div_exact (length chunk) n (length chunk / n) some_shards
          (ground (arith, div-add-mod (length chunk) n)))
    | inr e ↦ rw e (
        div_exact _ n (length chunk / n + 1) some_shards (
          rw (length-append, length-replicate)
            (grind (arith, div-add-mod (length chunk) n, mod-lt))))
  ]

  pub length-padded_bounds :
      (length chunk ≤ length (padded n chunk)) × (length (padded n chunk) < length chunk + n)
  unfolding padded
  length-padded_bounds = elim (Bool-cases (length chunk % n == 0)) [
    | inl e ↦ rw e (omega arith, omega arith)
    | inr e ↦ rw e (rw (length-append, length-replicate) (grind (arith, mod-lt)))
  ]

  -- The chunk is what stands in front of its padding.
  pub take-padded : take (length chunk) (padded n chunk) ≡ chunk
  unfolding padded
  take-padded = ground (
    arith,
    take_of_length_le (length chunk) chunk (omega arith),
    take-append_length chunk (replicate (n - length chunk % n) 0),
  )

pub length-slices : (n index size : ℕ) (chunk : Bytes) → length (slices n index size chunk) ≡ n
unfolding slices
length-slices zero index size chunk = refl
length-slices (suc n) index size chunk = ap suc (length-slices n (index + 1) size chunk)

pub slices-AllOf :
    (n index size : ℕ) (chunk : Bytes)
    → (index + n) * size ≤ length chunk
    → AllOf size (slices n index size chunk)
unfolding slices
slices-AllOf zero index size chunk h = tt
slices-AllOf (suc n) index size chunk h = (
  omega (arith, length-take size (drop (index * size) chunk), length-drop (index * size) chunk),
  slices-AllOf n (index + 1) size chunk (omega arith),
)

pub concat-slices :
    (n index size : ℕ) (chunk : Bytes) (parity : List Bytes)
    → (index + n) * size ≡ length chunk
    → concat n (slices n index size chunk ++ parity) ≡ drop (index * size) chunk
unfolding slices concat
concat-slices zero index size chunk parity h =
    sym (drop_of_length_le (index * size) chunk (omega arith))
concat-slices (suc n) index size chunk parity h =
    let e : (index + 1) * size ≡ index * size + size = omega arith in
    let rest = concat-slices n (index + 1) size chunk parity (omega arith) in
    rw (rest, e, ← drop-drop size (index * size) chunk)
      (take-append-drop size (drop (index * size) chunk))
