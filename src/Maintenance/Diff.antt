-- ===== src/Maintenance/Diff.antt =====
-- Diff against a description of it that asks all entries for each one.
use mathlib.Core.Option
use cerclbackup.Prelude.{
  ℕ, ◌≡◌, refl, ◌∙◌, Bool, false, not, ◌&&◌, ◌||◌, List, [], ◌∷◌, arith, ltb, if◌then◌else◌, ◌==◌,
  beq_iff, nat_eq, list_eq, Text, lookup, insert, lookup-insert,
}
use cerclbackup.Protocol.{ManifestEntry}
use cerclbackup.Manifest.{Entries, values, stamp}
use cerclbackup.Maintenance.{
  new, updated, DiffChange, latest_before, change_of, changes_after, diff,
}

-- Whether some entry of the path, with a version number, was backed up before the cutoff.
abbrev pub known_before : ℕ → Text → List ManifestEntry → Bool
known_before since path [] = false
known_before since path (e ∷ es) =
    ((e.path == path) && (ltb (stamp e) since && ltb 0 e.version)) || known_before since path es

-- What should be reported: of the entries after the cutoff, those of a path without such an entry
-- as new, the others as updated.
abbrev pub changes_wanted : ℕ → List ManifestEntry → List ManifestEntry → List DiffChange
changes_wanted since all [] = []
changes_wanted since all (e ∷ es) =
    let rest = changes_wanted since all es in
    let kind = if known_before since e.path all then updated else new in
    if ltb since (stamp e) then change_of kind e ∷ rest else rest

abbrev count_at : Text → List (Text × ℕ) → ℕ
count_at p known = Option.get_or (lookup p known) 0

abbrev noted : ℕ → List (Text × ℕ) → ManifestEntry → List (Text × ℕ)
noted since known e =
    if ltb (stamp e) since && ltb (count_at e.path known) e.version
    then insert e.path e.version known
    else known

-- One round of the first loop.
noted_lem :
    (since : ℕ) (p : Text) (known : List (Text × ℕ)) (e : ManifestEntry)
    → (count_at p (noted since known e) == 0)
      ≡ ((count_at p known == 0) && not ((e.path == p) && (ltb (stamp e) since && ltb 0 e.version)))
noted_lem since p known e = ground (arith, lookup-insert e.path p e.version known, beq_iff e.path p)

latest_before_lem :
    (since : ℕ) (p : Text) (known : List (Text × ℕ)) (es : List ManifestEntry)
    → (count_at p (latest_before since known es) == 0)
      ≡ ((count_at p known == 0) && not (known_before since p es))
unfolding latest_before
latest_before_lem since p known [] = ground arith
latest_before_lem since p known (e ∷ es) =
    latest_before_lem since p (noted since known e) es ∙ ground (arith, noted_lem since p known e)

changes_lem :
    (since : ℕ) (all es : List ManifestEntry)
    → changes_after since (latest_before since [] all) es ≡ changes_wanted since all es
unfolding changes_after lookup
changes_lem since all [] = refl
changes_lem since all (e ∷ es) =
    ground (arith, changes_lem since all es, latest_before_lem since e.path [] all)

-- Diff gives exactly the entries with a time after the cutoff, in the order of the manifest, each as
-- updated where an entry of its path with a positive version number has a time before the
-- cutoff, and as new where none has.
pub diff_lem : (since : ℕ) (m : Entries) → diff since m ≡ changes_wanted since (values m) (values m)
unfolding diff
diff_lem since m = changes_lem since (values m) (values m)
