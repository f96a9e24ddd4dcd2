-- ===== src/Manifest/Retention.antt =====
-- selectVersionsToKeep: what of one path's versions is kept.
use cerclbackup.Prelude.{
  ℕ, zero, suc, ◌+◌, ◌-◌, ◌*◌, ◌%◌, ◌^◌, ◌≤◌, ◌<◌, ◌≡◌, refl, sym, ap, subst, ◌⊎◌, inl, inr, true,
  ◌&&◌, List, [], ◌∷◌, ◌++◌, arith, ltb, if◌then◌else◌, Bool-cases, Text, length, drop,
  length-append, length-drop, In, In-append_left, In-append_right, In-append, In-drop,
}
use cerclbackup.Protocol.{ManifestEntry}
use cerclbackup.Manifest.{
  version_of, sort_by_version, RetentionPolicy, day, within, stamp, judge, select_loop,
  cap_versions, select_from, select_versions_to_keep,
}
use cerclbackup.Manifest.Sort.{
  Ascending, sort_by_version_sound, In-reverse, reverse-In, In-sort_by_version, sort_by_version-In,
}
use mathlib.Core.List.{reverse, reverse-append}

-- The most days whose nanoseconds an int64 holds.
abbrev pub max_days : ℕ
max_days = 106_751

-- `a` is above every other entry of the list.
abbrev pub IsTop : ManifestEntry → List ManifestEntry → Type 0
IsTop a xs = (x : ManifestEntry) → In x xs → (x ≡ a) ⊎ (version_of x < version_of a)

-- In ascending order the entry above all others stands last.
top_last :
    (a : ManifestEntry) (xs : List ManifestEntry)
    → Ascending xs
    → In a xs
    → IsTop a xs
    → (ys : List ManifestEntry) × (xs ≡ ys ++ (a ∷ []))
top_last a [] asc h top = absurd h
top_last a (x ∷ []) asc (inl h) top = ([], rw h)
top_last a (x ∷ []) asc (inr h) top = absurd h
top_last a (x ∷ y ∷ xs) (b, asc) h top =
    let there : In a (y ∷ xs) = elim h [
      | inr h' ↦ h'
      | inl e ↦ elim (top y (inr (inl refl))) [
        | inl e' ↦ inl (sym e')
        | inr l ↦ absurd (omega (arith, b.0, ap version_of e))
      ]
    ] in
    let (ys, e) = top_last a (y ∷ xs) asc there (λ z i. top z (inr i)) in
    (x ∷ ys, ap (λ (t : List ManifestEntry). x ∷ t) e)

In-drop_last :
    (a : ManifestEntry) (n : ℕ) (ys : List ManifestEntry)
    → n ≤ length ys
    → In a (drop n (ys ++ (a ∷ [])))
In-drop_last a zero ys h = In-append_right a ys (a ∷ []) (inl refl)
In-drop_last a (suc n) [] h = absurd (omega arith)
In-drop_last a (suc n) (y ∷ ys) h = In-drop_last a n ys (omega arith)

module _ (week_key month_key : ℕ → Text) (policy : RetentionPolicy) (now : ℕ) where
  abbrev loop : List Text → List ManifestEntry → List ManifestEntry → List ManifestEntry
  loop = select_loop week_key month_key policy now

  abbrev cap : List ManifestEntry → List ManifestEntry
  cap = cap_versions week_key month_key policy now

  abbrev pub select : List ManifestEntry → List ManifestEntry
  select = select_versions_to_keep week_key month_key policy now

  -- An entry that is at most KeepAllDays old.
  abbrev pub IsRecent : ManifestEntry → Type 0
  IsRecent e = now ≤ stamp e + policy.keep_all_days * day

  abbrev IsWithin : ManifestEntry → Type 0
  IsWithin e = within now (stamp e) policy.keep_all_days ≡ true

  recent-IsWithin : (e : ManifestEntry) → policy.keep_all_days ≤ max_days → IsRecent e → IsWithin e
  unfolding within
  recent-IsWithin e b r =
      let small : policy.keep_all_days * day < 2 ^ 63 = omega arith in
      let same : (policy.keep_all_days * day) % 2 ^ 64 ≡ policy.keep_all_days * day = omega arith in
      rw same (ground arith)

  -- What a round appends.
  abbrev kept : List Text → List ManifestEntry → ManifestEntry → List ManifestEntry
  kept seen keep e =
      if (judge week_key month_key policy now seen e).0 then keep ++ (e ∷ []) else keep

  kept-In :
      (a : ManifestEntry) (seen : List Text) (keep : List ManifestEntry) (e : ManifestEntry)
      → In a keep
      → In a (kept seen keep e)
  kept-In a seen keep e h = elim (Bool-cases (judge week_key month_key policy now seen e).0) [
    | inl t ↦ rw t (In-append_left a keep (e ∷ []) h)
    | inr t ↦ rw t h
  ]

  In-kept :
      (a : ManifestEntry) (seen : List Text) (keep : List ManifestEntry) (e : ManifestEntry)
      → In a (kept seen keep e)
      → In a keep ⊎ (a ≡ e)
  In-kept a seen keep e h = elim (Bool-cases (judge week_key month_key policy now seen e).0) [
    | inl t ↦ elim (In-append a keep (e ∷ []) (rw t at h)) [
      | inl l ↦ inl l
      | inr (inl r) ↦ inr r
      | inr (inr r) ↦ absurd r
    ]
    | inr t ↦ inl (rw t at h)
  ]

  In-loop :
      (a : ManifestEntry) (seen : List Text) (keep older : List ManifestEntry)
      → In a (loop seen keep older)
      → In a keep ⊎ In a older
  unfolding select_loop
  In-loop a seen keep [] h = inl h
  In-loop a seen keep (e ∷ older) h =
      elim (In-loop a (judge week_key month_key policy now seen e).1 (kept seen keep e) older h) [
        | inr r ↦ inr (inr r)
        | inl l ↦ elim (In-kept a seen keep e l) [ inl l' ↦ inl l' | inr q ↦ inr (inl q) ]
      ]

  loop-In :
      (a : ManifestEntry) (seen : List Text) (keep older : List ManifestEntry)
      → In a keep
      → In a (loop seen keep older)
  unfolding select_loop
  loop-In a seen keep [] h = h
  loop-In a seen keep (e ∷ older) h =
      loop-In a (judge week_key month_key policy now seen e).1 (kept seen keep e) older
        (kept-In a seen keep e h)

  judge-recent :
      (a : ManifestEntry) (seen : List Text)
      → IsWithin a
      → (judge week_key month_key policy now seen a).0 ≡ true
  unfolding judge
  judge-recent a seen r = ground arith

  loop-recent :
      (a : ManifestEntry) (seen : List Text) (keep older : List ManifestEntry)
      → IsWithin a
      → In a older
      → In a (loop seen keep older)
  unfolding select_loop
  loop-recent a seen keep [] r h = absurd h
  loop-recent a seen keep (e ∷ older) r (inr h) =
      loop-recent a (judge week_key month_key policy now seen e).1 (kept seen keep e) older r h
  loop-recent a seen keep (e ∷ older) r (inl h) =
      let yes_kept : In a (kept seen keep e) =
        rw (judge-recent e seen (rw h at r)) (In-append_right a keep (e ∷ []) (inl h)) in
      loop-In a (judge week_key month_key policy now seen e).1 (kept seen keep e) older yes_kept

  In-cap : (a : ManifestEntry) (keep : List ManifestEntry) → In a (cap keep) → In a keep
  unfolding cap_versions
  In-cap a keep h =
      elim (Bool-cases (ltb 0 policy.max_versions && ltb policy.max_versions (length keep))) [
        | inl t ↦ In-drop a (length keep - policy.max_versions) keep (rw t at h)
        | inr t ↦ rw t at h
      ]

  length-cap :
      (keep : List ManifestEntry)
      → 0 < policy.max_versions
      → length (cap keep) ≤ policy.max_versions
  unfolding cap_versions
  length-cap keep h = ground (arith, length-drop (length keep - policy.max_versions) keep)

  cap-top :
      (a : ManifestEntry) (keep : List ManifestEntry)
      → Ascending keep
      → In a keep
      → IsTop a keep
      → In a (cap keep)
  unfolding cap_versions
  cap-top a keep asc h top =
      let (ys, e) = top_last a keep asc h top in
      elim (Bool-cases (ltb 0 policy.max_versions && ltb policy.max_versions (length keep))) [
        | inr t ↦ rw t h
        | inl t ↦
            let capped : 0 < policy.max_versions = ground arith in
            rw t (rw e (In-drop_last a _ ys (omega (arith, length-append ys (a ∷ [])))))
      ]

  cap_off : (keep : List ManifestEntry) → policy.max_versions ≡ 0 → cap keep ≡ keep
  unfolding cap_versions
  cap_off keep z = ground arith

  abbrev from : List ManifestEntry → List ManifestEntry
  from = select_from week_key month_key policy now

  abbrev chosen : ManifestEntry → List ManifestEntry → List ManifestEntry
  chosen newest older = loop (newest.file_id ∷ []) (newest ∷ []) older

  In-from : (a : ManifestEntry) (es : List ManifestEntry) → In a (from es) → In a es
  unfolding select_from
  In-from a [] h = absurd h
  In-from a (newest ∷ older) h =
      elim (In-loop a (newest.file_id ∷ []) (newest ∷ []) older (
        In-sort_by_version a (chosen newest older)
          (In-cap a (sort_by_version (chosen newest older)) h))) [
            | inl (inl q) ↦ inl q
            | inl (inr q) ↦ absurd q
            | inr q ↦ inr q
          ]

  length-from :
      (es : List ManifestEntry) → 0 < policy.max_versions → length (from es) ≤ policy.max_versions
  unfolding select_from
  length-from [] h = omega arith
  length-from (newest ∷ older) h = length-cap (sort_by_version (chosen newest older)) h

  from-top :
      (a : ManifestEntry) (older : List ManifestEntry)
      → IsTop a (a ∷ older)
      → In a (from (a ∷ older))
  unfolding select_from
  from-top a older top =
      let all : List ManifestEntry = chosen a older in
      cap-top a (sort_by_version all) (sort_by_version_sound all).1
        (sort_by_version-In a all (loop-In a (a.file_id ∷ []) (a ∷ []) older (inl refl)))
        (λ x i. elim (In-loop x (a.file_id ∷ []) (a ∷ []) older (In-sort_by_version x all i)) [
          | inl (inl q) ↦ inl q
          | inl (inr q) ↦ absurd q
          | inr q ↦ top x (inr q)
        ])

  from-recent :
      (a : ManifestEntry) (es : List ManifestEntry)
      → policy.max_versions ≡ 0
      → In a es
      → IsWithin a
      → In a (from es)
  unfolding select_from
  from-recent a [] z h r = absurd h
  from-recent a (newest ∷ older) z h r =
      let all : List ManifestEntry = chosen newest older in
      let there : In a all = elim h [
        | inl q ↦ loop-In a (newest.file_id ∷ []) (newest ∷ []) older (inl q)
        | inr q ↦ loop-recent a (newest.file_id ∷ []) (newest ∷ []) older r q
      ] in
      rw (cap_off (sort_by_version all) z) (sort_by_version-In a all there)

  -- What is kept is some of the versions; under a cap it is no more than the cap.
  pub select_sound :
      (versions : List ManifestEntry)
      → ((a : ManifestEntry) → In a (select versions) → In a versions)
        × (0 < policy.max_versions → length (select versions) ≤ policy.max_versions)
  unfolding select_versions_to_keep
  select_sound versions = (
    λ a h. In-reverse a versions (In-from a (reverse versions) h),
    length-from (reverse versions),
  )

  -- A version that is above all others is kept, whatever the policy.
  pub select_newest :
      (versions : List ManifestEntry) (a : ManifestEntry)
      → Ascending versions
      → In a versions
      → IsTop a versions
      → In a (select versions)
  unfolding select_versions_to_keep
  select_newest versions a asc h top =
      let (ys, e) = top_last a versions asc h top in
      let order : reverse versions ≡ a ∷ reverse ys = rw e (reverse-append ys (a ∷ [])) in
      subst (λ (es : List ManifestEntry). In a (from es)) (sym order)
        (from-top a (reverse ys) (λ x i. top x (In-reverse x versions (rw order i))))

  -- Without a cap every version that is at most KeepAllDays old is kept, if KeepAllDays does not wrap.
  pub select_recent :
      (versions : List ManifestEntry) (a : ManifestEntry)
      → policy.max_versions ≡ 0
      → policy.keep_all_days ≤ max_days
      → In a versions
      → IsRecent a
      → In a (select versions)
  unfolding select_versions_to_keep
  select_recent versions a no_cap b h r =
      from-recent a (reverse versions) no_cap (reverse-In a versions h) (recent-IsWithin a b r)
