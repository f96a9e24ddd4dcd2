-- ===== src/BuddyStore/Integrity.antt =====
-- What PutWithHash stored is what Get returns and what Verify accepts.
use cerclbackup.Prelude.{
  ◌≡◌, sym, ap, ◌∙◌, ◌≢◌, inl, inr, Bool, true, false, some, [], ◌∷◌, ◌++◌, arith, beq_iff,
  beq_refl, nat_eq, list_eq, Bytes, Text, text, lookup, ok, Result-cases,
}
use cerclbackup.Files.{FilePath, Tree, read_file}
use cerclbackup.Files.Decimal.{ℤ, itoa}
use cerclbackup.Files.Access.{write_file_sound}
use cerclbackup.BuddyStore.{shard_name, on_disk, shard_path, get, put_with_hash, verify}
use cerclbackup.BuddyStore.Confined.{
  IsSafe, shard_path_lem, shard_path_inv, shard_path_injective, shard_at, hash_at, put_inv,
  hash_path_lem, put_with_hash_cases,
}
use mathlib.Core.List.{reverse, reverse-append}

-- The name of a shard is the name of no hash.
name_ne : (i j : ℤ) → shard_name i ≢ shard_name j ++ text ".hash"
unfolding shard_name
name_ne i j e =
    let backwards =
      sym (reverse-append (itoa i) (text ".shard"))
      ∙ ap reverse e
      ∙ reverse-append (itoa j ++ text ".shard") (text ".hash") in
    ground (arith, backwards)

abbrev pub head_or : FilePath → Text
head_or [] = []
head_or (c ∷ p) = c

pub read_back :
    (t : Tree) (p : FilePath) (b : Bytes)
    → t.fault p ≡ false
    → lookup p t.files ≡ some b
    → read_file t p ≡ ok b
unfolding read_file
read_back t p b f l = ground (arith, f, l)

pub read_file_same :
    (t t' : Tree) (p : FilePath)
    → lookup p t'.files ≡ lookup p t.files
    → t'.fault ≡ t.fault
    → read_file t' p ≡ read_file t p
unfolding read_file
read_file_same t t' p l f = rw (l, ap (λ (g : FilePath → Bool). g p) f)

module _ (root : FilePath) (sha256 : Bytes → Bytes) where
  -- What the two writes of a PutWithHash that succeeds leave on disk.
  pub stored :
      (t t' : Tree) (owner file : Text) (index : ℤ) (shard : Bytes)
      → put_with_hash root sha256 t owner file index shard ≡ (ok tt, t')
      → IsSafe owner
        × IsSafe file
        × (read_file t' (shard_at root owner file index) ≡ ok shard)
        × (read_file t' (hash_at root owner file index) ≡ ok (sha256 shard))
        × ((q : FilePath)
            → q ≢ shard_at root owner file index
            → q ≢ hash_at root owner file index
            → lookup q t'.files ≡ lookup q t.files)
        × (t'.fault ≡ t.fault)
  stored t t' owner file index shard h =
      elim (put_with_hash_cases root sha256 t t' (ok tt) owner file index shard h) [
        | inl (x, e, _) ↦ absurd (ground (arith, e))
        | inr (inl (x, e, _)) ↦ absurd (ground (arith, e))
        | inr (inr (t1, _, e, w)) ↦
            let p : FilePath = shard_at root owner file index in
            let hp : FilePath = hash_at root owner file index in
            let (w1, so, sf) = put_inv root t t1 owner file index shard e in
            let (a, fa, na) = write_file_sound t t1 p shard w1 in
            let (b, fb, nb) = write_file_sound t1 t' hp (sha256 shard) w in
            let apart : hp ≢ p =
              λ q. name_ne index index (sym (ap (λ (r : FilePath). head_or r) q)) in
            (
              so,
              sf,
              read_back t' p shard (ap (λ (f : FilePath → Bool). f p) (fb ∙ fa) ∙ na)
                  (ground (arith, b p, a p, beq_iff hp p, beq_refl p)),
              read_back t' hp (sha256 shard) (ap (λ (f : FilePath → Bool). f hp) fb ∙ nb)
                  (ground (arith, b hp, beq_refl hp)),
              λ q np nh. ground (arith, b q, a q, beq_iff hp q, beq_iff p q),
              fb ∙ fa,
            )
      ]

  -- After a PutWithHash that succeeds, Get returns the shard and Verify accepts it.
  pub verify-put_with_hash :
      (t t' : Tree) (owner file : Text) (index : ℤ) (shard : Bytes)
      → put_with_hash root sha256 t owner file index shard ≡ (ok tt, t')
      → (get root t' owner file index ≡ ok shard) × (verify root sha256 t' owner file index ≡ true)
  unfolding verify
  verify-put_with_hash t t' owner file index shard h =
      let (so, sf, rp, rh, _, _) = stored t t' owner file index shard h in
      let got : get root t' owner file index ≡ ok shard =
        unfold get on_disk in rw (shard_path_lem root owner file index so sf, rp) in
      (
        got,
        ground (arith, got, hash_path_lem root owner file index so sf, rh, beq_refl (sha256 shard)),
      )

  -- A PutWithHash that succeeds does not change what Get returns for any other shard.
  pub get-put_with_hash_other :
      (t t' : Tree) (owner owner' file file' : Text) (index index' : ℤ) (shard : Bytes)
      → put_with_hash root sha256 t owner file index shard ≡ (ok tt, t')
      → ¬ ((owner ≡ owner') × (file ≡ file') × (index ≡ index'))
      → get root t' owner' file' index' ≡ get root t owner' file' index'
  get-put_with_hash_other t t' owner owner' file file' index index' shard h other =
      let (so, sf, _, _, rest, fault) = stored t t' owner file index shard h in
      elim (Result-cases (shard_path root owner' file' index')) [
        | inr (x, e) ↦ unfold get in rw e
        | inl (p, e) ↦
            let (at, _, _) = shard_path_inv root owner' file' index' p e in
            let not_shard : p ≢ shard_at root owner file index = λ q. other (
              shard_path_injective root owner owner' file file' index index' p
                (shard_path_lem root owner file index so sf ∙ ap ok (sym q)) e) in
            let not_hash : p ≢ hash_at root owner file index =
              λ q. name_ne index' index (ap (λ (r : FilePath). head_or r) (sym at ∙ q)) in
            unfold get in rw (e, read_file_same t t' p (rest p not_shard not_hash) fault)
      ]
