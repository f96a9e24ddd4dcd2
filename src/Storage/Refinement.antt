-- ===== src/Storage/Refinement.antt =====
-- The store as a map: what a sequence of calls of Put promises, without paths, directories and
-- metadata.
use cerclbackup.Prelude.{
  ◌≡◌, refl, ap, ◌∙◌, inl, inr, Bool, ◌&&◌, Option, none, some, List, [], ◌∷◌, arith, if◌then◌else◌,
  Bool-cases, Option-cases, ◌==◌, nat_eq, list_eq, Bytes, Text, All, Result, ok, err, Result-cases,
}
use cerclbackup.Files.{FilePath, Tree}
use cerclbackup.Files.Decimal.{ℤ}
use cerclbackup.Files.Paths.{IsPlain}
use cerclbackup.Storage.{ShardMeta, StorageError, same_index, store_put, store_get}
use cerclbackup.Storage.Shards.{store_get-store_put}

-- A call of Put.
pub record PutCall : Type 0 where
  pub file : Text
  pub index : ℤ
  pub parity : Bool
  pub shard : Bytes

-- The abstract store: the last shard that was put for a file and an index, if there is one.
unfoldable pub last_put : Text → ℤ → List PutCall → Option Bytes
last_put file index [] = none
last_put file index (c ∷ calls) = elim (last_put file index calls) [
  | some shard ↦ some shard
  | none ↦ if (c.file == file) && same_index c.index index then some c.shard else none
]

module _ (root : FilePath) (marshal : List ShardMeta → Option Bytes)
    (unmarshal : Bytes → Option (List ShardMeta)) where
  -- The calls one after the other, up to the first that fails.
  unfoldable pub put_calls : List PutCall → Tree → Result StorageError Tree
  put_calls [] t = ok t
  put_calls (c ∷ calls) t =
      let (stored, t1) = store_put root marshal unmarshal t c.file c.index c.parity c.shard in
      let rest = put_calls calls t1 in elim stored [ err x ↦ err x | ok u ↦ rest ]

  put_calls_inv :
      (c : PutCall) (calls : List PutCall) (t t' : Tree)
      → put_calls (c ∷ calls) t ≡ ok t'
      → (t1 : Tree) × (store_put root marshal unmarshal t c.file c.index c.parity c.shard
          ≡ (ok tt, t1))
        × (put_calls calls t1 ≡ ok t')
  unfolding put_calls
  put_calls_inv c calls t t' h =
      let put : Result StorageError (Unit {0}) × Tree =
        store_put root marshal unmarshal t c.file c.index c.parity c.shard in
      elim (Result-cases put.0) [
        | inr (x, e) ↦ absurd (ground (arith, h, e))
        | inl (u, e) ↦
            (put.1, ap (λ (a : Result StorageError (Unit {0})). (a, put.1)) e, ground (arith, h, e))
      ]

  -- After a sequence of calls of Put that all succeed, for file ids that are plain names: Get returns
  -- for every file and index what the abstract store holds, the last shard that was put there, and
  -- where none was put what it returned before.
  pub store_refines_map :
      (calls : List PutCall) (t t' : Tree) (file : Text) (index : ℤ)
      → All (λ (c : PutCall). IsPlain c.file) calls
      → IsPlain file
      → put_calls calls t ≡ ok t'
      → store_get root marshal unmarshal t' file index ≡ (elim (last_put file index calls) [
        | some shard ↦ ok shard
        | none ↦ store_get root marshal unmarshal t file index
      ])
  unfolding last_put
  store_refines_map [] t t' file index plain plain' h =
      ap (λ (x : Tree). store_get root marshal unmarshal x file index)
        (unfold put_calls in ground (arith, h))
  store_refines_map (c ∷ calls) t t' file index (plain_c, plain) plain' h =
      let (t1, stored, rest) = put_calls_inv c calls t t' h in
      let later = store_refines_map calls t1 t' file index plain plain' rest in
      let first =
        store_get-store_put root marshal unmarshal t t1 c.file file c.index index c.parity c.shard
          plain_c plain' stored in
      elim (Option-cases (last_put file index calls)) [
        | inr (shard, e) ↦ rw (last_put, e) (rw e at later)
        | inl e ↦
            rw (last_put, e)
              (rw e at later
                ∙ first
                ∙ elim (Bool-cases ((c.file == file) && same_index c.index index)) [
                  | inl q ↦ rw q refl
                  | inr q ↦ rw q refl
                ])
      ]
