-- ===== src/Manifest/Groups.antt =====
-- The map byPath of PruneVersions: under each path stand the versions of that path.
use mathlib.Core.Option
use cerclbackup.Prelude.{
  ◌≡◌, refl, ap, ◌∙◌, inl, inr, some, List, [], ◌∷◌, ◌++◌, append-nil, append_assoc, arith,
  if◌then◌else◌, Bool-cases, Option-cases, ◌==◌, beq_iff, nat_eq, list_eq, Text, In, lookup, insert,
  lookup-insert, Distinct, insert-Distinct, lookup_of_In, In-of_lookup,
}
use cerclbackup.Protocol.{ManifestEntry}
use cerclbackup.Manifest.{of_path, group_by_path}

abbrev Groups : Type 0
Groups = List (Text × List ManifestEntry)

abbrev added : ManifestEntry → Groups → Groups
added e groups = insert e.path (Option.get_or (lookup e.path groups) [] ++ (e ∷ [])) groups

members : Text → Groups → List ManifestEntry
members p groups = Option.get_or (lookup p groups) []

group-Distinct :
    (groups : Groups) (es : List ManifestEntry)
    → Distinct groups
    → Distinct (group_by_path groups es)
unfolding group_by_path
group-Distinct groups [] d = d
group-Distinct groups (e ∷ es) d =
    group-Distinct (added e groups) es
      (insert-Distinct e.path (Option.get_or (lookup e.path groups) [] ++ (e ∷ [])) groups d)

members-added :
    (p : Text) (e : ManifestEntry) (groups : Groups)
    → members p (added e groups)
      ≡ (if e.path == p then members p groups ++ (e ∷ []) else members p groups)
unfolding members
members-added p e groups = rw lookup-insert (ground (arith, beq_iff e.path p))

members-group :
    (p : Text) (groups : Groups) (es : List ManifestEntry)
    → members p (group_by_path groups es) ≡ members p groups ++ of_path p es
unfolding group_by_path of_path
members-group p groups [] = rw append-nil
members-group p groups (e ∷ es) =
    members-group p (added e groups) es ∙ elim (Bool-cases (e.path == p)) [
      | inl t ↦ rw (members-added, t) (append_assoc (members p groups) (e ∷ []) (of_path p es))
      | inr t ↦ rw (members-added, t)
    ]

pub In-of_path :
    (p : Text) (e : ManifestEntry) (es : List ManifestEntry)
    → In e (of_path p es)
    → In e es × (e.path ≡ p)
unfolding of_path
In-of_path p e [] h = absurd h
In-of_path p e (x ∷ es) h = elim (Bool-cases (x.path == p)) [
  | inl t ↦ elim (rw t at h) [
    | inl q ↦ (inl q, rw q ((beq_iff x.path p).0 t))
    | inr i ↦ let (there, q) = In-of_path p e es i in (inr there, q)
  ]
  | inr t ↦ let (there, q) = In-of_path p e es (rw t at h) in (inr there, q)
]

pub of_path-In :
    (p : Text) (e : ManifestEntry) (es : List ManifestEntry)
    → In e es
    → e.path ≡ p
    → In e (of_path p es)
unfolding of_path
of_path-In p e [] h q = absurd h
of_path-In p e (x ∷ es) (inl h) q = rw ((beq_iff x.path p).1 (rw h at q)) (inl h)
of_path-In p e (x ∷ es) (inr h) q = elim (Bool-cases (x.path == p)) [
  | inl t ↦ rw t (inr (of_path-In p e es h q))
  | inr t ↦ rw t (of_path-In p e es h q)
]

-- Each group is the versions of its path, in the order of the iteration.
pub group_by_path_sound :
    (es : List ManifestEntry) (p : Text) (vs : List ManifestEntry)
    → In (p, vs) (group_by_path [] es)
    → vs ≡ of_path p es
unfolding members lookup
group_by_path_sound es p vs h = ground (
  arith,
  lookup_of_In p vs (group_by_path [] es) (group-Distinct [] es tt) h,
  members-group p [] es,
)

-- Every path of an entry has its group.
pub group_by_path_total :
    (es : List ManifestEntry) (e : ManifestEntry)
    → In e es
    → In (e.path, of_path e.path es) (group_by_path [] es)
unfolding members lookup
group_by_path_total es e h =
    let groups : Groups = group_by_path [] es in
    let all = members-group e.path [] es in
    elim (Option-cases (lookup e.path groups)) [
      | inl q ↦
          let nothing : [] ≡ of_path e.path es = ground (arith, all, q) in
          absurd (rw (← nothing) at (of_path-In e.path e es h refl))
      | inr (vs, q) ↦
          let same : vs ≡ of_path e.path es = ground (arith, all, q) in
          In-of_lookup e.path (of_path e.path es) groups (q ∙ ap some same)
    ]
