-- ===== src/Storage/Shards.antt =====
-- What Put leaves on disk, shard by shard.
use cerclbackup.Prelude.{
  ◌≡◌, sym, ap, ◌∙◌, subst, ◌≢◌, ◌↔◌, inl, inr, Bool, true, ◌&&◌, Option, List, [], ◌∷◌, arith,
  if◌then◌else◌, Bool-cases, Option-cases, ◌==◌, beq_iff, beq_refl, nat_eq, list_eq, Bytes, Text,
  text, length, lookup, Result, ok, Result-cases,
}
use cerclbackup.Files.{FilePath, Tree, read_file, write_file}
use cerclbackup.Files.Decimal.{ℤ, pos, negsuc, itoa, itoa_injective}
use cerclbackup.Files.Paths.{IsPlain, join_plain, join_nil}
use cerclbackup.Files.Access.{write_file_sound}
use cerclbackup.BuddyStore.{shard_name}
use cerclbackup.BuddyStore.Confined.{shard_name-IsPlain}
use cerclbackup.BuddyStore.Integrity.{head_or, read_back, read_file_same}
use cerclbackup.Storage.{
  ShardMeta, StorageError, from_disk, same_index, put_meta, own_shard_path, meta_path, write_meta,
  known_meta, store_put, store_get,
}
use mathlib.Core.List.{append_cancel_right, reverse, reverse-append}

-- No shard has the name of the metadata.
shard_name-meta : (index : ℤ) → shard_name index ≢ text "meta.json"
unfolding shard_name
shard_name-meta index e =
    let backwards = sym (reverse-append (itoa index) (text ".shard")) ∙ ap reverse e in
    ground (arith, backwards)

meta_name-IsPlain : IsPlain (text "meta.json")
meta_name-IsPlain = record {
  no_slash = omega arith;
  not_empty = λ e. absurd (omega (arith, ap length e));
  not_dot = λ e. absurd (omega (arith, ap length e));
  not_dots = λ e. absurd (omega (arith, ap length e));
}

-- The second component of a path from its end.
abbrev second_or : FilePath → Text
second_or [] = []
second_or (c ∷ []) = []
second_or (c ∷ d ∷ p) = d

module _ (root : FilePath) (marshal : List ShardMeta → Option Bytes)
    (unmarshal : Bytes → Option (List ShardMeta)) where
  abbrev pub own_shard_at : Text → ℤ → FilePath
  own_shard_at file index = shard_name index ∷ file ∷ root

  abbrev pub meta_at : Text → FilePath
  meta_at file = text "meta.json" ∷ file ∷ root

  pub own_shard_path_lem :
      (file : Text) (index : ℤ)
      → IsPlain file
      → own_shard_path root marshal unmarshal file index ≡ own_shard_at file index
  unfolding own_shard_path
  own_shard_path_lem file index h = rw (
    join_plain root file (shard_name index ∷ []) h,
    join_plain (file ∷ root) (shard_name index) [] (shard_name-IsPlain index),
    join_nil,
  )

  pub meta_path_lem :
      (file : Text) → IsPlain file → meta_path root marshal unmarshal file ≡ meta_at file
  unfolding meta_path
  meta_path_lem file h = rw (
    join_plain root file (text "meta.json" ∷ []) h,
    join_plain (file ∷ root) (text "meta.json") [] meta_name-IsPlain,
    join_nil,
  )

  abbrev pub put : Tree → Text → ℤ → Bool → Bytes → Result StorageError (Unit {0}) × Tree
  put = store_put root marshal unmarshal

  abbrev pub fetch : Tree → Text → ℤ → Result StorageError Bytes
  fetch = store_get root marshal unmarshal

  -- The two writes of a Put that succeeds.
  put_inv :
      (t t' : Tree) (file : Text) (index : ℤ) (parity : Bool) (shard : Bytes)
      → IsPlain file
      → put t file index parity shard ≡ (ok tt, t')
      → (t1 : Tree) × (blob : Bytes) × (write_file t (own_shard_at file index) shard ≡ ok t1)
        × (write_file t1 (meta_at file) blob ≡ ok t')
  unfolding store_put write_meta from_disk
  put_inv t t' file index parity shard plain h =
      let p = own_shard_path_lem file index plain in
      let q = meta_path_lem file plain in
      elim (Result-cases (write_file t (own_shard_path root marshal unmarshal file index) shard)) [
        | inr (x, e) ↦ absurd (ground (arith, h, e))
        | inl (t1, e) ↦
            let meta : List ShardMeta =
              put_meta file index parity (length shard)
                (known_meta root marshal unmarshal t1 file) in
            elim (Option-cases (marshal meta)) [
              | inl m ↦ absurd (ground (arith, h, e, m))
              | inr (blob, m) ↦
                  elim (Result-cases (write_file t1 (meta_path root marshal unmarshal file) blob)) [
                    | inr (x, w) ↦ absurd (ground (arith, h, e, m, w))
                    | inl (t2, w) ↦
                        let same : t2 ≡ t' = ground (arith, h, e, m, w) in
                        (
                          t1,
                          blob,
                          subst (λ (r : FilePath). write_file t r shard ≡ ok t1) p e,
                          subst (λ (r : FilePath). write_file t1 r blob ≡ ok t') q (w ∙ ap ok same),
                        )
                  ]
            ]
      ]

  -- What a Put that succeeds leaves: the shard at its path, nothing changed but it and the metadata.
  put_files :
      (t t' : Tree) (file : Text) (index : ℤ) (parity : Bool) (shard : Bytes)
      → IsPlain file
      → put t file index parity shard ≡ (ok tt, t')
      → (read_file t' (own_shard_at file index) ≡ ok shard)
        × ((q : FilePath)
            → q ≢ own_shard_at file index
            → q ≢ meta_at file
            → lookup q t'.files ≡ lookup q t.files)
        × (t'.fault ≡ t.fault)
  put_files t t' file index parity shard plain h =
      let (t1, blob, w1, w2) = put_inv t t' file index parity shard plain h in
      let p : FilePath = own_shard_at file index in
      let m : FilePath = meta_at file in
      let (a, fa, na) = write_file_sound t t1 p shard w1 in
      let (b, fb, nb) = write_file_sound t1 t' m blob w2 in
      let apart : m ≢ p = λ q. shard_name-meta index (sym (ap (λ (r : FilePath). head_or r) q)) in
      (
        read_back t' p shard (ap (λ (f : FilePath → Bool). f p) (fb ∙ fa) ∙ na)
            (ground (arith, b p, a p, beq_iff m p, beq_refl p)),
        λ q np nm. ground (arith, b q, a q, beq_iff m q, beq_iff p q),
        fb ∙ fa,
      )

  -- A Put, by whether another file or index is asked for.
  pub fetch-put :
      (t t' : Tree) (file file' : Text) (index index' : ℤ) (parity : Bool) (shard : Bytes)
      → IsPlain file
      → IsPlain file'
      → put t file index parity shard ≡ (ok tt, t')
      → (fetch t' file index ≡ ok shard)
        × (¬ ((file ≡ file') × (index ≡ index')) → fetch t' file' index' ≡ fetch t file' index')
  unfolding store_get from_disk
  fetch-put t t' file file' index index' parity shard plain plain' h =
      let (here, rest, fault) = put_files t t' file index parity shard plain h in
      let p = own_shard_path_lem file index plain in
      let q = own_shard_path_lem file' index' plain' in
      (
        rw (p, here),
        λ other.
            let not_shard : own_shard_at file' index' ≢ own_shard_at file index = λ e. other (
              sym (ap (λ (r : FilePath). second_or r) e),
              itoa_injective index index' (
                  sym (
                    unfold shard_name in
                    append_cancel_right (itoa index') (itoa index) (text ".shard")
                      (ap (λ (r : FilePath). head_or r) e))),
            ) in
            let not_meta : own_shard_at file' index' ≢ meta_at file =
              λ e. shard_name-meta index' (ap (λ (r : FilePath). head_or r) e) in
            let at : FilePath = own_shard_at file' index' in
            rw (q, read_file_same t t' at (rest at not_shard not_meta) fault),
      )

  same_index_iff : (i j : ℤ) → (same_index i j ≡ true) ↔ (i ≡ j)
  unfolding same_index
  same_index_iff (pos m) (pos n) = ground (arith, beq_iff m n)
  same_index_iff (negsuc m) (negsuc n) = ground (arith, beq_iff m n)
  same_index_iff (pos m) (negsuc n) = ground arith
  same_index_iff (negsuc m) (pos n) = ground arith

  -- After a Put that succeeds, for file ids that are plain names: Get of the same file and index
  -- returns the shard that was put, and of every other file or index what it returned before.
  pub store_get-store_put :
      (t t' : Tree) (file file' : Text) (index index' : ℤ) (parity : Bool) (shard : Bytes)
      → IsPlain file
      → IsPlain file'
      → store_put root marshal unmarshal t file index parity shard ≡ (ok tt, t')
      → store_get root marshal unmarshal t' file' index' ≡ (
          if (file == file') && same_index index index'
          then ok shard
          else store_get root marshal unmarshal t file' index')
  store_get-store_put t t' file file' index index' parity shard plain plain' h =
      let (here, other) = fetch-put t t' file file' index index' parity shard plain plain' h in
      elim (Bool-cases ((file == file') && same_index index index')) [
        | inl q ↦
            let f : file ≡ file' = (beq_iff file file').0 (ground (arith, q)) in
            let i : index ≡ index' = (same_index_iff index index').0 (ground (arith, q)) in
            rw q (rw (sym f, sym i) here)
        | inr q ↦ rw q (
            other (λ both.
              let f : (file == file') ≡ true = (beq_iff file file').1 both.0 in
              let i : same_index index index' ≡ true = (same_index_iff index index').1 both.1 in
              absurd (ground (arith, q, f, i))))
      ]
