-- ===== src/BuddyStore/Confined.antt =====
-- Every path that the store touches for an owner lies below that owner's directory.
use cerclbackup.Prelude.{
  ◌≡◌, refl, ap, ◌∙◌, subst, ◌⊎◌, inl, inr, true, false, none, [], ◌∷◌, ◌++◌, arith, if◌then◌else◌,
  Bool-cases, ◌==◌, beq_iff, beq_refl, nat_eq, list_eq, Bytes, Text, text, length, lookup, Result,
  ok, err, Result-cases,
}
use cerclbackup.Files.{FilePath, join, is_below, Tree, write_file, remove_all}
use cerclbackup.Files.Decimal.{ℤ, itoa, itoa_injective, itoa_plain}
use cerclbackup.Files.Paths.{NoSlash, IsPlain, join_plain, join_nil, extension-IsPlain}
use cerclbackup.Files.Access.{write_file_sound, remove_all_sound}
use cerclbackup.BuddyStore.{
  StoreError, disk, contains_any_slash, is_safe_path_component, remote, shard_name, on_disk,
  shard_path, hash_path, put, delete_owner, put_with_hash,
}
use mathlib.Core.List.{append_cancel_right}

contains_any_slash_sound : (s : Text) → contains_any_slash s ≡ false → NoSlash s
unfolding contains_any_slash
contains_any_slash_sound [] h = tt
contains_any_slash_sound (c ∷ s) h =
    (λ e. ground (arith, e), contains_any_slash_sound s (ground arith))

pub is_safe_path_component-IsPlain : (s : Text) → is_safe_path_component s ≡ true → IsPlain s
unfolding is_safe_path_component
is_safe_path_component-IsPlain s h = record {
  no_slash = contains_any_slash_sound s (ground arith);
  not_empty = ground (arith, beq_iff s (text ""));
  not_dot = ground (arith, beq_iff s (text "."));
  not_dots = ground (arith, beq_iff s (text ".."));
}

pub shard_name-IsPlain : (index : ℤ) → IsPlain (shard_name index)
unfolding shard_name
shard_name-IsPlain index =
    extension-IsPlain (itoa index) (text ".shard") (itoa_plain index) (omega arith) (omega arith)

abbrev pub IsSafe : Text → Type 0
IsSafe s = is_safe_path_component s ≡ true

module _ (root : FilePath) where
  abbrev pub owner_dir : Text → FilePath
  owner_dir owner = owner ∷ remote ∷ root

  pub remote-IsPlain : IsPlain remote
  remote-IsPlain = record {
    no_slash = omega arith;
    not_empty = λ e. absurd (omega (arith, ap length e));
    not_dot = λ e. absurd (omega (arith, ap length e));
    not_dots = λ e. absurd (omega (arith, ap length e));
  }

  -- For safe names the path of a shard is <root>/remote/<owner>/<file>/<index>.shard, component by
  -- component; an unsafe owner or file has no path.
  pub shard_path_lem :
      (owner file : Text) (index : ℤ)
      → IsSafe owner
      → IsSafe file
      → shard_path root owner file index ≡ ok (shard_name index ∷ file ∷ owner ∷ remote ∷ root)
  unfolding shard_path
  shard_path_lem owner file index ho hf =
      rw (ho, hf)
        (rw (
          join_plain root remote (owner ∷ file ∷ shard_name index ∷ []) remote-IsPlain,
          join_plain (remote ∷ root) owner (file ∷ shard_name index ∷ [])
              (is_safe_path_component-IsPlain owner ho),
          join_plain (owner ∷ remote ∷ root) file (shard_name index ∷ [])
              (is_safe_path_component-IsPlain file hf),
          join_plain (file ∷ owner ∷ remote ∷ root) (shard_name index) []
              (shard_name-IsPlain index),
          join_nil,
        ))

  -- What a path that shardPath returns says of its arguments.
  pub shard_path_inv :
      (owner file : Text) (index : ℤ) (p : FilePath)
      → shard_path root owner file index ≡ ok p
      → (p ≡ shard_name index ∷ file ∷ owner ∷ remote ∷ root) × IsSafe owner × IsSafe file
  shard_path_inv owner file index p h =
      let safe : IsSafe owner × IsSafe file = unfold shard_path in ground arith in
      (ground (arith, shard_path_lem owner file index safe.0 safe.1, h), safe.0, safe.1)

  -- Two shards with one path are one: no owner, file or index can stand for another one's shard.
  pub shard_path_injective :
      (owner owner' file file' : Text) (index index' : ℤ) (p : FilePath)
      → shard_path root owner file index ≡ ok p
      → shard_path root owner' file' index' ≡ ok p
      → (owner ≡ owner') × (file ≡ file') × (index ≡ index')
  shard_path_injective owner owner' file file' index index' p h h' =
      let (e, _, _) = shard_path_inv owner file index p h in
      let (e', _, _) = shard_path_inv owner' file' index' p h' in
      let same : shard_name index ≡ shard_name index' = cc in
      (
        cc,
        cc,
        itoa_injective index index' (
            unfold shard_name in
            append_cancel_right (itoa index) (itoa index') (text ".shard") same),
      )

  -- The path p goes nowhere but below the directory of the owner.
  abbrev pub Outside : Text → FilePath → Type 0
  Outside owner q = is_below (owner_dir owner) q ≡ false

  is_below_two :
      (owner : Text) (a b : Text) → is_below (owner_dir owner) (a ∷ b ∷ owner_dir owner) ≡ true
  unfolding is_below
  is_below_two owner a b = ground (arith, beq_refl (owner_dir owner))

  is_below_one : (owner : Text) (a : Text) → is_below (owner_dir owner) (a ∷ owner_dir owner) ≡ true
  unfolding is_below
  is_below_one owner a = ground (arith, beq_refl (owner_dir owner))

  shard_ne :
      (owner a b : Text) (q : FilePath) → Outside owner q → ((a ∷ b ∷ owner_dir owner) == q) ≡ false
  shard_ne owner a b q out = elim (Bool-cases ((a ∷ b ∷ owner_dir owner) == q)) [
    | inr t ↦ t
    | inl t ↦
        let same = (beq_iff (a ∷ b ∷ owner_dir owner) q).0 t in
        absurd (ground (arith, is_below_two owner a b, ap (is_below (owner_dir owner)) same))
  ]

  pub blob_ne :
      (owner : Text) (q : FilePath)
      → Outside owner q
      → ((text "manifest.enc" ∷ owner_dir owner) == q) ≡ false
  blob_ne owner q out = elim (Bool-cases ((text "manifest.enc" ∷ owner_dir owner) == q)) [
    | inr t ↦ t
    | inl t ↦
        let same = (beq_iff (text "manifest.enc" ∷ owner_dir owner) q).0 t in
        absurd (
          ground
            (arith, is_below_one owner (text "manifest.enc"), ap (is_below (owner_dir owner)) same))
  ]

  write-Outside :
      (t t' : Tree) (owner a b : Text) (bytes : Bytes) (q : FilePath)
      → write_file t (a ∷ b ∷ owner_dir owner) bytes ≡ ok t'
      → Outside owner q
      → lookup q t'.files ≡ lookup q t.files
  write-Outside t t' owner a b bytes q h out =
      let (all, _, _) = write_file_sound t t' (a ∷ b ∷ owner_dir owner) bytes h in
      all q ∙ rw (shard_ne owner a b q out)

  abbrev pub shard_at : Text → Text → ℤ → FilePath
  shard_at owner file index = shard_name index ∷ file ∷ owner_dir owner

  abbrev pub hash_at : Text → Text → ℤ → FilePath
  hash_at owner file index = (shard_name index ++ text ".hash") ∷ file ∷ owner_dir owner

  -- A Put that succeeds is a write at the path of the shard.
  pub put_inv :
      (t t' : Tree) (owner file : Text) (index : ℤ) (shard : Bytes)
      → put root t owner file index shard ≡ ok t'
      → (write_file t (shard_at owner file index) shard ≡ ok t') × IsSafe owner × IsSafe file
  unfolding put on_disk
  put_inv t t' owner file index shard h = elim (Result-cases (shard_path root owner file index)) [
    | inr (x, e) ↦ absurd (ground (arith, e))
    | inl (p, e) ↦
        let (eq, so, sf) = shard_path_inv owner file index p e in
        elim (Result-cases (write_file t p shard)) [
          | inr (x, w) ↦ absurd (ground (arith, e, w))
          | inl (t1, w) ↦
              let same : t1 ≡ t' = ground (arith, e, w) in
              (subst (λ (r : FilePath). write_file t r shard ≡ ok t') eq (w ∙ ap ok same), so, sf)
        ]
  ]

  pub hash_path_lem :
      (owner file : Text) (index : ℤ)
      → IsSafe owner
      → IsSafe file
      → hash_path root owner file index ≡ ok (hash_at owner file index)
  unfolding hash_path
  hash_path_lem owner file index so sf = rw (shard_path_lem owner file index so sf)

  module _ (sha256 : Bytes → Bytes) where
    -- The three ways in which PutWithHash can end.
    pub put_with_hash_cases :
        (t t' : Tree) (r : Result StoreError (Unit {0})) (owner file : Text) (index : ℤ)
        (shard : Bytes)
        → put_with_hash root sha256 t owner file index shard ≡ (r, t')
        → ((x : StoreError) × (r ≡ err x) × (t' ≡ t))
          ⊎ ((x : StoreError) × (r ≡ err x) × (put root t owner file index shard ≡ ok t'))
          ⊎ ((t1 : Tree) × (r ≡ ok tt)
              × (put root t owner file index shard ≡ ok t1)
              × (write_file t1 (hash_at owner file index) (sha256 shard) ≡ ok t'))
    unfolding put_with_hash
    put_with_hash_cases t t' r owner file index shard h =
        elim (Result-cases (put root t owner file index shard)) [
          | inr (x, e) ↦ inl (x, ground (arith, e), ground (arith, e))
          | inl (t1, e) ↦
              let (_, so, sf) = put_inv t t1 owner file index shard e in
              let hp = hash_path_lem owner file index so sf in
              elim (Result-cases (write_file t1 (hash_at owner file index) (sha256 shard))) [
                | inr (x, w) ↦
                    let same : t1 ≡ t' = ground (arith, e, hp, w) in
                    inr (inl (disk x, ground (arith, e, hp, w), e ∙ ap ok same))
                | inl (t2, w) ↦
                    let same : t2 ≡ t' = ground (arith, e, hp, w) in
                    inr (inr (t1, ground (arith, e, hp, w), e, w ∙ ap ok same))
              ]
        ]

    -- PutWithHash for an owner, whether it succeeds or fails half-way, leaves every file outside
    -- <root>/remote/<owner> as it was.
    pub put_with_hash_confined :
        (t : Tree) (owner file : Text) (index : ℤ) (shard : Bytes) (q : FilePath)
        → Outside owner q
        → lookup q (put_with_hash root sha256 t owner file index shard).1.files ≡ lookup q t.files
    put_with_hash_confined t owner file index shard q out =
        let after : Result StoreError (Unit {0}) × Tree =
          put_with_hash root sha256 t owner file index shard in
        elim (put_with_hash_cases t after.1 after.0 owner file index shard refl) [
          | inl (x, _, same) ↦ ap (λ (s : Tree). lookup q s.files) same
          | inr (inl (x, _, e)) ↦
              write-Outside t after.1 owner (shard_name index) file shard q
                (put_inv t after.1 owner file index shard e).0 out
          | inr (inr (t1, _, e, w)) ↦
              write-Outside t1 after.1 owner (shard_name index ++ text ".hash") file (sha256 shard)
                q w out
              ∙ write-Outside t t1 owner (shard_name index) file shard q
                  (put_inv t t1 owner file index shard e).0 out
        ]

  owner_dir_lem : (owner : Text) → IsSafe owner → join root (remote ∷ owner ∷ []) ≡ owner_dir owner
  owner_dir_lem owner so = rw (
    join_plain root remote (owner ∷ []) remote-IsPlain,
    join_plain (remote ∷ root) owner [] (is_safe_path_component-IsPlain owner so),
    join_nil,
  )

  -- DeleteOwner, when it succeeds, removes all that lies at or below <root>/remote/<owner>, and
  -- nothing else.
  pub delete_owner_exact :
      (t t' : Tree) (owner : Text) (q : FilePath)
      → delete_owner root t owner ≡ ok t'
      → lookup q t'.files ≡ (if is_below (owner_dir owner) q then none else lookup q t.files)
  unfolding delete_owner on_disk
  delete_owner_exact t t' owner q h = elim (Bool-cases (is_safe_path_component owner)) [
    | inr n ↦ absurd (ground (arith, n))
    | inl so ↦
        let dir = owner_dir_lem owner so in
        elim (Result-cases (remove_all t (join root (remote ∷ owner ∷ [])))) [
          | inr (x, e) ↦ absurd (ground (arith, so, e))
          | inl (t1, e) ↦
              let same : t1 ≡ t' = ground (arith, so, e) in
              (remove_all_sound t t' (owner_dir owner)
                  (subst (λ (r : FilePath). remove_all t r ≡ ok t') dir (e ∙ ap ok same))).0
                q
        ]
  ]
