-- ===== src/BuddyStore/Blobs.antt =====
-- The manifest blob that a node keeps for each owner.
use cerclbackup.Prelude.{
  ◌≡◌, ap, ◌∙◌, subst, inl, inr, Bool, [], ◌∷◌, arith, Bool-cases, beq_refl, nat_eq, list_eq, Bytes,
  Text, text, length, lookup, ok, Result-cases,
}
use cerclbackup.Files.{FilePath, Tree, write_file}
use cerclbackup.Files.Paths.{IsPlain, join_plain, join_nil}
use cerclbackup.Files.Access.{write_file_sound}
use cerclbackup.BuddyStore.{
  is_safe_path_component, remote, on_disk, manifest_path, put_manifest, get_manifest,
}
use cerclbackup.BuddyStore.Confined.{
  is_safe_path_component-IsPlain, IsSafe, owner_dir, remote-IsPlain, Outside, blob_ne,
}
use cerclbackup.BuddyStore.Integrity.{read_back}

manifest_name-IsPlain : IsPlain (text "manifest.enc")
manifest_name-IsPlain = record {
  no_slash = omega arith;
  not_empty = λ e. absurd (omega (arith, ap length e));
  not_dot = λ e. absurd (omega (arith, ap length e));
  not_dots = λ e. absurd (omega (arith, ap length e));
}

module _ (root : FilePath) where
  pub manifest_path_lem :
      (owner : Text)
      → IsSafe owner
      → manifest_path root owner ≡ text "manifest.enc" ∷ owner_dir root owner
  unfolding manifest_path
  manifest_path_lem owner so = rw (
    join_plain root remote (owner ∷ text "manifest.enc" ∷ []) (remote-IsPlain root),
    join_plain (remote ∷ root) owner (text "manifest.enc" ∷ [])
        (is_safe_path_component-IsPlain owner so),
    join_plain (owner ∷ remote ∷ root) (text "manifest.enc") [] manifest_name-IsPlain,
    join_nil,
  )

  -- A PutManifest that succeeds is a write at the path of the manifest.
  put_manifest_inv :
      (t t' : Tree) (owner : Text) (blob : Bytes)
      → put_manifest root t owner blob ≡ ok t'
      → IsSafe owner × (write_file t (text "manifest.enc" ∷ owner_dir root owner) blob ≡ ok t')
  unfolding put_manifest on_disk
  put_manifest_inv t t' owner blob h = elim (Bool-cases (is_safe_path_component owner)) [
    | inr n ↦ absurd (ground (arith, n))
    | inl so ↦
        let p = manifest_path_lem owner so in
        elim (Result-cases (write_file t (manifest_path root owner) blob)) [
          | inr (x, e) ↦ absurd (ground (arith, so, e))
          | inl (t1, e) ↦
              let same : t1 ≡ t' = ground (arith, so, e) in
              (so, subst (λ (r : FilePath). write_file t r blob ≡ ok t') p (e ∙ ap ok same))
        ]
  ]

  -- PutManifest for an owner, when it succeeds, leaves every file outside <root>/remote/<owner> as it
  -- was, and GetManifest returns the blob from then on.
  pub put_manifest_sound :
      (t t' : Tree) (owner : Text) (blob : Bytes)
      → put_manifest root t owner blob ≡ ok t'
      → ((q : FilePath) → Outside root owner q → lookup q t'.files ≡ lookup q t.files)
        × (get_manifest root t' owner ≡ ok blob)
  unfolding get_manifest on_disk
  put_manifest_sound t t' owner blob h =
      let (so, w) = put_manifest_inv t t' owner blob h in
      let p : FilePath = text "manifest.enc" ∷ owner_dir root owner in
      let (files, fault, fine) = write_file_sound t t' p blob w in
      let back =
        read_back t' p blob (ap (λ (f : FilePath → Bool). f p) fault ∙ fine)
          (ground (arith, files p, beq_refl p)) in
      (λ q out. files q ∙ rw (blob_ne root owner q out), rw (so, manifest_path_lem owner so, back))
