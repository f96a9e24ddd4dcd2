-- ===== src/Manifest/Versions.antt =====
-- Upsert numbers the versions of a path, and Latest finds the newest one.
use cerclbackup.Prelude.{
  ℕ, ◌+◌, ◌≤◌, ◌<◌, ◌≡◌, refl, sym, ap, subst, ◌≢◌, ◌↔◌, ◌⊎◌, inl, inr, ◌&&◌, none, some, List, [],
  ◌∷◌, ◌++◌, arith, ltb, leb, if◌then◌else◌, Bool-cases, ◌==◌, beq_iff, nat_eq, list_eq, Text, In,
  In-append_right, In-append, lookup, insert, lookup-insert, ok,
}
use cerclbackup.Protocol.{ManifestEntry}
use cerclbackup.Manifest.{
  Entries, values, version_of, next_version, Upload, upsert, latest_loop, latest,
}
use native.Mathlib.Nat.{le_refl, le_trans}

next_version_mono :
    (path : Text) (next : ℕ) (es : List ManifestEntry) → next ≤ next_version path next es
unfolding next_version
next_version_mono path next [] = omega arith
next_version_mono path next (e ∷ es) =
    let v : ℕ = if e.version == 0 then 1 else e.version in
    ground
      (arith, next_version_mono path (if (e.path == path) && leb next v then v + 1 else next) es)

next_version_above :
    (path : Text) (next : ℕ) (es : List ManifestEntry) (e : ManifestEntry)
    → In e es
    → e.path ≡ path
    → version_of e < next_version path next es
unfolding next_version version_of
next_version_above path next [] e h p = absurd h
next_version_above path next (x ∷ es) e (inl h) p =
    let v : ℕ = if x.version == 0 then 1 else x.version in
    let next' : ℕ = if (x.path == path) && leb next v then v + 1 else next in
    rw h (
      ground (
        arith,
        next_version_mono path next' es,
        beq_iff x.path path,
        ap (λ (y : ManifestEntry). y.path) h,
      ))
next_version_above path next (x ∷ es) e (inr h) p =
    let v : ℕ = if x.version == 0 then 1 else x.version in
    next_version_above path (if (x.path == path) && leb next v then v + 1 else next) es e h p

next_version_from :
    (path : Text) (next : ℕ) (es : List ManifestEntry)
    → (next_version path next es ≡ next)
      ⊎ ((e : ManifestEntry) × In e es
          × (e.path ≡ path)
          × (next_version path next es ≡ version_of e + 1))
unfolding next_version version_of
next_version_from path next [] = inl refl
next_version_from path next (x ∷ es) =
    let v : ℕ = if x.version == 0 then 1 else x.version in
    elim (Bool-cases ((x.path == path) && leb next v)) [
      | inr skipped ↦ elim (next_version_from path next es) [
        | inl same ↦ inl (rw skipped same)
        | inr (e, i, p, q) ↦ inr (e, inr i, p, rw skipped q)
      ]
      | inl taken ↦ elim (next_version_from path (v + 1) es) [
        | inl same ↦ inr (x, inl refl, ground (arith, taken, beq_iff x.path path), rw taken same)
        | inr (e, i, p, q) ↦ inr (e, inr i, p, rw taken q)
      ]
    ]

-- `v` is 1 if no entry is of the path, and else one above the highest version of the path.
abbrev pub IsNextVersion : Text → List ManifestEntry → ℕ → Type 0
IsNextVersion path es v =
    ((v ≡ 1) × ((e : ManifestEntry) → In e es → e.path ≢ path))
    ⊎ ((e : ManifestEntry) × In e es
        × (e.path ≡ path)
        × (v ≡ version_of e + 1)
        × ((x : ManifestEntry) → In x es → x.path ≡ path → version_of x ≤ version_of e))

version_of-positive : (e : ManifestEntry) → 1 ≤ version_of e
unfolding version_of
version_of-positive e = ground arith

next_version-IsNextVersion :
    (path : Text) (es : List ManifestEntry) → IsNextVersion path es (next_version path 1 es)
next_version-IsNextVersion path es = elim (next_version_from path 1 es) [
  | inl first ↦ inl (
    first,
    λ e i p.
        absurd (omega (arith, first, next_version_above path 1 es e i p, version_of-positive e)),
  )
  | inr (e, i, p, q) ↦
      inr (e, i, p, q, λ x j at. omega (arith, q, next_version_above path 1 es x j at))
]

-- `best` is a newest entry of the path.
pub record IsNewest (path : Text) (es : List ManifestEntry) (best : ManifestEntry) : Type 0 where
  pub there : In best es
  pub at_path : best.path ≡ path
  pub newest : (e : ManifestEntry) → In e es → e.path ≡ path → version_of e ≤ version_of best

abbrev Passed : Text → List ManifestEntry → ManifestEntry → Type 0
Passed path es r = (e : ManifestEntry) → In e es → e.path ≡ path → version_of e ≤ version_of r

latest_loop-some :
    (path : Text) (b : ManifestEntry) (es : List ManifestEntry)
    → (r : ManifestEntry) × (latest_loop path (some b) es ≡ some r)
      × (version_of b ≤ version_of r)
      × ((r ≡ b) ⊎ (In r es × (r.path ≡ path)))
      × Passed path es r
unfolding latest_loop
latest_loop-some path b [] = (b, refl, le_refl _, inl refl, λ e h. absurd h)
latest_loop-some path b (e ∷ es) =
    elim (Bool-cases ((e.path == path) && ltb (version_of b) (version_of e))) [
      | inl t ↦
          let (r, eq, le, from, passed) = latest_loop-some path e es in
          let there : e.path ≡ path = ground (arith, beq_iff e.path path) in
          (
            r,
            rw t eq,
            ground (arith, le),
            inr (elim from [ inl q ↦ (inl q, rw q there) | inr q ↦ (inr q.0, q.1) ]),
            λ x h p. elim h [ inl q ↦ rw q le | inr q ↦ passed x q p ],
          )
      | inr t ↦
          let (r, eq, le, from, passed) = latest_loop-some path b es in
          let passed_e : e.path ≡ path → version_of e ≤ version_of b =
            λ p. ground (arith, beq_iff e.path path) in
          (
            r,
            rw t eq,
            le,
            elim from [ inl q ↦ inl q | inr q ↦ inr (inr q.0, q.1) ],
            λ x h p. elim h [
              | inl q ↦ rw q (le_trans (passed_e (rw q at p)) le)
              | inr q ↦ passed x q p
            ],
          )
    ]

-- Latest returns a newest entry of the path, and nothing if and only if the path has none.
pub latest_sound :
    (path : Text) (es : List ManifestEntry)
    → ((latest path es ≡ none) × ((e : ManifestEntry) → In e es → e.path ≢ path))
      ⊎ ((best : ManifestEntry) × (latest path es ≡ some best) × IsNewest path es best)
unfolding latest latest_loop
latest_sound path [] = inl (refl, λ e h. absurd h)
latest_sound path (e ∷ es) = elim (Bool-cases (e.path == path)) [
  | inl t ↦
      let (r, eq, le, from, passed) = latest_loop-some path e es in
      let there : e.path ≡ path = ground (arith, beq_iff e.path path) in
      inr (
        r,
        rw t eq,
        record {
          there = elim from [ inl q ↦ inl q | inr q ↦ inr q.0 ];
          at_path = elim from [ inl q ↦ rw q there | inr q ↦ q.1 ];
          newest = λ x h p. elim h [ inl q ↦ rw q le | inr q ↦ passed x q p ];
        },
      )
  | inr t ↦
      let differs : e.path ≢ path = ground (arith, beq_iff e.path path) in
      elim (latest_sound path es) [
        | inl (eq, others) ↦
            inl (rw t eq, λ x h. elim h [ inl q ↦ rw q differs | inr q ↦ others x q ])
        | inr (best, eq, n) ↦ inr (
          best,
          rw t eq,
          record {
            there = inr n.there;
            at_path = n.at_path;
            newest =
                λ x h p. elim h [ inl q ↦ absurd (differs (rw q at p)) | inr q ↦ n.newest x q p ];
          },
        )
      ]
]

abbrev pub SameMembers : List ManifestEntry → List ManifestEntry → Type 0
SameMembers xs ys = (e : ManifestEntry) → In e xs ↔ In e ys

values-insert_fresh :
    (id : Text) (e : ManifestEntry) (m : Entries)
    → lookup id m ≡ none
    → values (insert id e m) ≡ values m ++ (e ∷ [])
unfolding lookup insert values
values-insert_fresh id e [] h = refl
values-insert_fresh id e ((k, x) ∷ m) h = ground (arith, values-insert_fresh id e m)

upsert_inv :
    (u : Upload) (m m' : Entries) (entry : ManifestEntry)
    → upsert u m ≡ ok (entry, m')
    → (entry.path ≡ u.src_path)
      × (version_of entry ≡ next_version u.src_path 1 (values m))
      × (m' ≡ insert u.id entry m)
unfolding upsert version_of
upsert_inv u m m' entry h = ground (arith, next_version_mono u.src_path 1 (values m))

-- Upsert of an existing file under a fresh UUID: the version of the new entry is 1 if its path has no
-- entry, and else one above the highest version of its path; in whatever order the map is then iterated, Latest returns the new
-- entry, and every other key keeps its entry.
pub upsert-latest :
    (u : Upload) (m m' : Entries) (entry : ManifestEntry) (order : List ManifestEntry)
    → lookup u.id m ≡ none
    → upsert u m ≡ ok (entry, m')
    → SameMembers order (values m')
    → (latest u.src_path order ≡ some entry)
      × IsNextVersion u.src_path (values m) (version_of entry)
      × ((id : Text) → lookup id m' ≡ (if u.id == id then some entry else lookup id m))
upsert-latest u m m' entry order fresh h same =
    let (at_path, version, inserted) = upsert_inv u m m' entry h in
    let all_values : values m' ≡ values m ++ (entry ∷ []) =
      rw inserted (values-insert_fresh u.id entry m fresh) in
    let there : In entry order =
      (same entry).1 (rw all_values (In-append_right entry (values m) (entry ∷ []) (inl refl))) in
    let above : (e : ManifestEntry)
        → In e (values m)
        → e.path ≡ u.src_path
        → version_of e < version_of entry =
      λ e i p. rw version (next_version_above u.src_path 1 (values m) e i p) in
    (
      elim (latest_sound u.src_path order) [
        | inl (eq, others) ↦ absurd (others entry there at_path)
        | inr (best, eq, n) ↦
            elim (In-append best (values m) (entry ∷ [])
              (rw all_values at ((same best).0 n.there))) [
                | inl old ↦
                    absurd (omega (arith, above best old n.at_path, n.newest entry there at_path))
                | inr (inl q) ↦ rw eq (ap some q)
                | inr (inr q) ↦ absurd q
              ]
      ],
      subst (IsNextVersion u.src_path (values m)) (sym version)
          (next_version-IsNextVersion u.src_path (values m)),
      λ id. rw inserted (lookup-insert u.id id entry m),
    )
