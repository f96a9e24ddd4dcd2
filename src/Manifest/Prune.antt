-- ===== src/Manifest/Prune.antt =====
-- PruneVersions removes exactly the versions that selectVersionsToKeep does not keep.
use cerclbackup.Prelude.{
  ℕ, ◌≤◌, ◌≡◌, refl, sym, ap, ◌∙◌, subst, ◌≢◌, ◌⊎◌, inl, inr, true, false, none, some, List, [],
  ◌∷◌, ◌++◌, arith, Bool-cases, ◌==◌, beq_iff, beq_refl, nat_eq, list_eq, Text, In, lookup, erase,
  Distinct, lookup-erase-none, lookup_of_In, lookup-erase_ne, lookup-erase_self,
}
use cerclbackup.Protocol.{ManifestEntry}
use cerclbackup.Manifest.{
  Entries, values, sort_by_version, of_path, RetentionPolicy, elem, group_by_path, ids,
  drop_versions, prune_groups, prune_versions,
}
use cerclbackup.Manifest.Sort.{sort_by_version_sound, In-sort_by_version, sort_by_version-In}
use cerclbackup.Manifest.Retention.{
  max_days, IsTop, select, IsRecent, select_sound, select_newest, select_recent,
}
use cerclbackup.Manifest.Groups.{In-of_path, of_path-In, group_by_path_sound, group_by_path_total}

-- The map is keyed by FileID, and no key stands twice.
abbrev pub IsKeyed : Entries → Type 0
IsKeyed m = Distinct m × ((k : Text) (e : ManifestEntry) → In (k, e) m → e.file_id ≡ k)

In-values : (e : ManifestEntry) (m : Entries) → In e (values m) → (k : Text) × In (k, e) m
unfolding values
In-values e [] h = absurd h
In-values e ((k, x) ∷ m) (inl h) = (k, inl (ap (λ (y : ManifestEntry). (k, y)) h))
In-values e ((k, x) ∷ m) (inr h) = let (j, i) = In-values e m h in (j, inr i)

-- The entry of a value is found under its FileID.
pub lookup_of_value :
    (m : Entries) (e : ManifestEntry) → IsKeyed m → In e (values m) → lookup e.file_id m ≡ some e
lookup_of_value m e (d, keyed) h =
    let (k, i) = In-values e m h in
    lookup_of_In e.file_id e m d (subst (λ (j : Text). In (j, e) m) (sym (keyed k e i)) i)

elem_iff-In :
    (e : ManifestEntry) (es : List ManifestEntry) → In e es → elem e.file_id (ids es) ≡ true
unfolding elem ids
elem_iff-In e [] h = absurd h
elem_iff-In e (x ∷ es) (inl h) = rw h (rw (beq_refl x.file_id))
elem_iff-In e (x ∷ es) (inr h) = ground (arith, elem_iff-In e es h)

elem_inv :
    (id : Text) (es : List ManifestEntry)
    → elem id (ids es) ≡ true
    → (e : ManifestEntry) × In e es × (e.file_id ≡ id)
unfolding elem ids
elem_inv id [] h = absurd (ground arith)
elem_inv id (x ∷ es) h = elim (Bool-cases (x.file_id == id)) [
  | inl t ↦ (x, inl refl, (beq_iff x.file_id id).0 t)
  | inr t ↦ let (e, i, q) = elem_inv id es (rw t at h) in (e, inr i, q)
]

unique_id :
    (m : Entries) (x y : ManifestEntry)
    → IsKeyed m
    → In x (values m)
    → In y (values m)
    → x.file_id ≡ y.file_id
    → x ≡ y
unique_id m x y keyed hx hy q =
    let fx = lookup_of_value m x keyed hx in
    let fy = lookup_of_value m y keyed hy in cc (fx, fy, ap (λ (j : Text). lookup j m) q)

-- An identifier that no dropped version has keeps its entry.
drop_versions-keeps :
    (keep_set : List Text) (vs : List ManifestEntry) (m : Entries) (pruned : List Text) (id : Text)
    → ((e : ManifestEntry) → In e vs → e.file_id ≡ id → elem id keep_set ≡ true)
    → lookup id (drop_versions keep_set vs (m, pruned)).0 ≡ lookup id m
unfolding drop_versions
drop_versions-keeps keep_set [] m pruned id h = refl
drop_versions-keeps keep_set (e ∷ vs) m pruned id h = elim (Bool-cases (elem e.file_id keep_set)) [
  | inl t ↦ rw (t, drop_versions) (drop_versions-keeps keep_set vs m pruned id (λ x i. h x (inr i)))
  | inr t ↦
      let other : e.file_id ≢ id = λ q. cc (t, h e (inl refl) q, q) in
      rw (t, drop_versions)
        (drop_versions-keeps keep_set vs (erase e.file_id m) (pruned ++ (e.file_id ∷ [])) id
            (λ x i. h x (inr i))
          ∙ lookup-erase_ne e.file_id id m other)
]

-- What is gone stays gone.
drop_versions-none :
    (keep_set : List Text) (vs : List ManifestEntry) (m : Entries) (pruned : List Text) (id : Text)
    → lookup id m ≡ none
    → lookup id (drop_versions keep_set vs (m, pruned)).0 ≡ none
unfolding drop_versions
drop_versions-none keep_set [] m pruned id h = h
drop_versions-none keep_set (e ∷ vs) m pruned id h = elim (Bool-cases (elem e.file_id keep_set)) [
  | inl t ↦ rw (t, drop_versions) (drop_versions-none keep_set vs m pruned id h)
  | inr t ↦
      rw (t, drop_versions)
        (drop_versions-none keep_set vs (erase e.file_id m) (pruned ++ (e.file_id ∷ [])) id
          (lookup-erase-none e.file_id id m h))
]

drop_versions-drops :
    (keep_set : List Text) (vs : List ManifestEntry) (m : Entries) (pruned : List Text)
    (e : ManifestEntry)
    → In e vs
    → elem e.file_id keep_set ≡ false
    → lookup e.file_id (drop_versions keep_set vs (m, pruned)).0 ≡ none
unfolding drop_versions
drop_versions-drops keep_set [] m pruned e h f = absurd h
drop_versions-drops keep_set (x ∷ vs) m pruned e (inl h) f =
    rw (rw h at f, drop_versions)
      (rw h (
        drop_versions-none keep_set vs (erase x.file_id m) (pruned ++ (x.file_id ∷ [])) x.file_id
          (lookup-erase_self x.file_id m)))
drop_versions-drops keep_set (x ∷ vs) m pruned e (inr h) f =
    elim (Bool-cases (elem x.file_id keep_set)) [
      | inl t ↦ rw (t, drop_versions) (drop_versions-drops keep_set vs m pruned e h f)
      | inr t ↦
          rw (t, drop_versions)
            (drop_versions-drops keep_set vs (erase x.file_id m) (pruned ++ (x.file_id ∷ [])) e h f)
    ]

module _ (week_key month_key : ℕ → Text) (policy : RetentionPolicy) (now : ℕ) where
  -- What is kept of one group.
  abbrev pub kept : List ManifestEntry → List ManifestEntry
  kept vs = select week_key month_key policy now (sort_by_version vs)

  abbrev prune : List (Text × List ManifestEntry) → Entries × List Text → Entries × List Text
  prune = prune_groups week_key month_key policy now

  abbrev one_group : List ManifestEntry → Entries × List Text → Entries × List Text
  one_group vs s = drop_versions (ids (kept vs)) (sort_by_version vs) s

  prune_groups-none :
      (groups : List (Text × List ManifestEntry)) (m : Entries) (pruned : List Text) (id : Text)
      → lookup id m ≡ none
      → lookup id (prune groups (m, pruned)).0 ≡ none
  unfolding prune_groups
  prune_groups-none [] m pruned id h = h
  prune_groups-none ((p, vs) ∷ groups) m pruned id h =
      prune_groups-none groups (one_group vs (m, pruned)).0 (one_group vs (m, pruned)).1 id
        (drop_versions-none (ids (kept vs)) (sort_by_version vs) m pruned id h)

  prune_groups-keeps :
      (groups : List (Text × List ManifestEntry)) (m : Entries) (pruned : List Text) (id : Text)
      → ((p : Text) (vs : List ManifestEntry) (e : ManifestEntry)
          → In (p, vs) groups
          → In e vs
          → e.file_id ≡ id
          → In e (kept vs))
      → lookup id (prune groups (m, pruned)).0 ≡ lookup id m
  unfolding prune_groups
  prune_groups-keeps [] m pruned id h = refl
  prune_groups-keeps ((p, vs) ∷ groups) m pruned id h =
      prune_groups-keeps groups (one_group vs (m, pruned)).0 (one_group vs (m, pruned)).1 id
        (λ q ws e i. h q ws e (inr i))
      ∙ drop_versions-keeps (ids (kept vs)) (sort_by_version vs) m pruned id (λ e i q.
        rw (← q) (elem_iff-In e (kept vs) (h p vs e (inl refl) (In-sort_by_version e vs i) q)))

  prune_groups-drops :
      (groups : List (Text × List ManifestEntry)) (m : Entries) (pruned : List Text) (p : Text)
      (vs : List ManifestEntry) (e : ManifestEntry)
      → In (p, vs) groups
      → In e vs
      → elem e.file_id (ids (kept vs)) ≡ false
      → lookup e.file_id (prune groups (m, pruned)).0 ≡ none
  unfolding prune_groups
  prune_groups-drops [] m pruned p vs e h i f = absurd h
  prune_groups-drops ((q, ws) ∷ groups) m pruned p vs e (inr h) i f =
      prune_groups-drops groups (one_group ws (m, pruned)).0 (one_group ws (m, pruned)).1 p vs e h i
        f
  prune_groups-drops ((q, ws) ∷ groups) m pruned p vs e (inl h) i f =
      let same : vs ≡ ws = ap (λ (t : Text × List ManifestEntry). t.1) h in
      prune_groups-none groups (one_group ws (m, pruned)).0 (one_group ws (m, pruned)).1 e.file_id (
        drop_versions-drops (ids (kept ws)) (sort_by_version ws) m pruned e
          (sort_by_version-In e ws (rw same at i)) (rw same at f))

  kept_of_elem :
      (m : Entries) (e : ManifestEntry)
      → IsKeyed m
      → In e (values m)
      → elem e.file_id (ids (kept (of_path e.path (values m)))) ≡ true
      → In e (kept (of_path e.path (values m)))
  kept_of_elem m e keyed h t =
      let vs : List ManifestEntry = of_path e.path (values m) in
      let (x, i, q) = elem_inv e.file_id (kept vs) t in
      let among = (select_sound week_key month_key policy now (sort_by_version vs)).0 x i in
      let there : In x (values m) =
        (In-of_path e.path x (values m) (In-sort_by_version x vs among)).0 in
      let same : x ≡ e = unique_id m x e keyed there h q in
      subst (λ (y : ManifestEntry). In y (kept vs)) same i

  -- A member of some group with the FileID of a kept entry is that entry, in its group.
  kept-In_group :
      (m : Entries) (e : ManifestEntry)
      → IsKeyed m
      → In e (values m)
      → In e (kept (of_path e.path (values m)))
      → (p : Text) (ws : List ManifestEntry) (y : ManifestEntry)
      → In (p, ws) (group_by_path [] (values m))
      → In y ws
      → y.file_id ≡ e.file_id
      → In y (kept ws)
  kept-In_group m e keyed h chosen p ws y g i q =
      let es : List ManifestEntry = values m in
      let all : ws ≡ of_path p es = group_by_path_sound es p ws g in
      let (there, at_path) = In-of_path p y es (rw all at i) in
      let same : y ≡ e = unique_id m y e keyed there h q in
      let path : e.path ≡ p = sym (ap (λ (x : ManifestEntry). x.path) same) ∙ at_path in
      let moved : In e (kept (of_path p es)) =
        subst (λ (r : Text). In e (kept (of_path r es))) path chosen in
      rw all (subst (λ (x : ManifestEntry). In x (kept (of_path p es))) (sym same) moved)

  prune_value :
      (m : Entries) (e : ManifestEntry)
      → IsKeyed m
      → In e (values m)
      → ((lookup e.file_id (prune_versions week_key month_key policy now m).0 ≡ some e)
          × In e (kept (of_path e.path (values m))))
        ⊎ ((lookup e.file_id (prune_versions week_key month_key policy now m).0 ≡ none)
            × (In e (kept (of_path e.path (values m))) → ⊥))
  unfolding prune_versions
  prune_value m e keyed h =
      let es : List ManifestEntry = values m in
      let vs : List ManifestEntry = of_path e.path es in
      elim (Bool-cases (elem e.file_id (ids (kept vs)))) [
        | inr f ↦ inr (
          prune_groups-drops (group_by_path [] es) m [] e.path vs e (group_by_path_total es e h)
              (of_path-In e.path e es h refl) f,
          λ i. cc (f, elem_iff-In e (kept vs) i),
        )
        | inl t ↦
            let chosen : In e (kept vs) = kept_of_elem m e keyed h t in
            inl (
              prune_groups-keeps (group_by_path [] es) m [] e.file_id
                    (λ p ws y g i q. kept-In_group m e keyed h chosen p ws y g i q)
                  ∙ lookup_of_value m e keyed h,
              chosen,
            )
      ]

  -- Of a manifest keyed by FileID, PruneVersions keeps the entry of a FileID if
  -- selectVersionsToKeep chooses it among the sorted versions of its path, and removes it if not;
  -- under a FileID that has no entry there is none afterwards.
  pub prune_versions_exact :
      (m : Entries)
      → IsKeyed m
      → ((e : ManifestEntry)
          → In e (values m)
          → ((lookup e.file_id (prune_versions week_key month_key policy now m).0 ≡ some e)
              × In e (kept (of_path e.path (values m))))
            ⊎ ((lookup e.file_id (prune_versions week_key month_key policy now m).0 ≡ none)
                × (In e (kept (of_path e.path (values m))) → ⊥)))
        × ((id : Text)
            → lookup id m ≡ none
            → lookup id (prune_versions week_key month_key policy now m).0 ≡ none)
  unfolding prune_versions
  prune_versions_exact m keyed = (
    λ e h. prune_value m e keyed h,
    λ id n. prune_groups-none (group_by_path [] (values m)) m [] id n,
  )

  -- Of a manifest keyed by FileID, the newest version of a path, if it is above all others of the
  -- path, survives PruneVersions under every policy, and so does every version that is at most
  -- KeepAllDays old if the policy has no cap and KeepAllDays is at most 106751.
  pub prune_versions_safe :
      (m : Entries) (e : ManifestEntry)
      → IsKeyed m
      → In e (values m)
      → IsTop e (of_path e.path (values m))
        ⊎ ((policy.max_versions ≡ 0)
            × (policy.keep_all_days ≤ max_days)
            × IsRecent week_key month_key policy now e)
      → lookup e.file_id (prune_versions week_key month_key policy now m).0 ≡ some e
  prune_versions_safe m e keyed h why =
      let vs : List ManifestEntry = of_path e.path (values m) in
      let there : In e (sort_by_version vs) =
        sort_by_version-In e vs (of_path-In e.path e (values m) h refl) in
      let chosen : In e (kept vs) = elim why [
        | inl top ↦
            select_newest week_key month_key policy now (sort_by_version vs) e
              (sort_by_version_sound vs).1 there (λ x i. top x (In-sort_by_version x vs i))
        | inr (no_cap, bound, recent) ↦
            select_recent week_key month_key policy now (sort_by_version vs) e no_cap bound there
              recent
      ] in
      elim ((prune_versions_exact m keyed).0 e h) [
        | inl (q, i) ↦ q
        | inr (q, n) ↦ absurd (n chosen)
      ]
