-- ===== src/Registry/Lookups.antt =====
-- What Get finds after Add and after Remove.
use cerclbackup.Prelude.{
  ℕ, ◌≡◌, refl, sym, ap, ◌∙◌, subst, ◌⊎◌, inl, inr, true, Option, none, some, List, [], ◌∷◌, arith,
  if◌then◌else◌, Bool-cases, ◌==◌, beq_iff, nat_eq, list_eq, Text, All, lookup, insert, erase,
  lookup-insert, lookup-erase, Distinct, insert-Distinct, lookup-erase-none, ok,
}
use cerclbackup.Registry.{
  Entry, RegistryFile, absent, broken, saved, Registry, index_entries, entries_of, load, save,
  stamped, add, remove, get,
}

-- Each key is the PeerID of its entry.
abbrev pub IsKeyed : List (Text × Entry) → Type 0
IsKeyed m = All (λ (p : Text × Entry). p.1.peer_id ≡ p.0) m

insert-IsKeyed :
    (e : Entry) (k : Text) (m : List (Text × Entry))
    → e.peer_id ≡ k
    → IsKeyed m
    → IsKeyed (insert k e m)
unfolding insert
insert-IsKeyed e k [] h a = (h, tt)
insert-IsKeyed e k ((j, v) ∷ m) h (q, a) = elim (Bool-cases (j == k)) [
  | inl t ↦ rw t (h, a)
  | inr t ↦ rw t (q, insert-IsKeyed e k m h a)
]

erase-IsKeyed : (k : Text) (m : List (Text × Entry)) → IsKeyed m → IsKeyed (erase k m)
unfolding erase
erase-IsKeyed k [] a = tt
erase-IsKeyed k ((j, v) ∷ m) (q, a) = elim (Bool-cases (j == k)) [
  | inl t ↦ rw t (erase-IsKeyed k m a)
  | inr t ↦ rw t (q, erase-IsKeyed k m a)
]

erase-Distinct : (k : Text) (m : List (Text × Entry)) → Distinct m → Distinct (erase k m)
unfolding erase
erase-Distinct k [] d = tt
erase-Distinct k ((j, v) ∷ m) (n, d) = elim (Bool-cases (j == k)) [
  | inl t ↦ rw t (erase-Distinct k m d)
  | inr t ↦ rw t (lookup-erase-none k j m n, erase-Distinct k m d)
]

-- Behind a map `fresh`, the entries of a map take precedence.
over : Option Entry → Option Entry → Option Entry
over none below = below
over (some e) below = some e

lookup-index_entries :
    (k : Text) (fresh m : List (Text × Entry))
    → IsKeyed m
    → Distinct m
    → lookup k (index_entries fresh (entries_of m)) ≡ over (lookup k m) (lookup k fresh)
unfolding index_entries entries_of lookup over
lookup-index_entries k fresh [] a d = refl
lookup-index_entries k fresh ((j, v) ∷ m) (q, a) (n, d) =
    let next = lookup-index_entries k (insert v.peer_id v fresh) m a d in
    let one = lookup-insert v.peer_id k v fresh in
    elim (Bool-cases (j == k)) [
      | inl t ↦
          let same : j ≡ k = (beq_iff j k).0 t in
          let gone : lookup k m ≡ none = sym (ap (λ (i : Text). lookup i m) same) ∙ n in
          let hit : lookup k (insert v.peer_id v fresh) ≡ some v = one ∙ rw (q, t) in
          next ∙ rw (gone, hit, t)
      | inr t ↦
          let miss : lookup k (insert v.peer_id v fresh) ≡ lookup k fresh = one ∙ rw (q, t) in
          next ∙ rw (miss, t)
    ]

over-none : (o : Option Entry) → over o none ≡ o
unfolding over
over-none none = refl
over-none (some e) = refl

-- The map in memory is keyed by PeerID, and no key stands twice.
abbrev pub IsSound : List (Text × Entry) → Type 0
IsSound m = IsKeyed m × Distinct m

index_entries-IsSound :
    (fresh : List (Text × Entry)) (entries : List Entry)
    → IsSound fresh
    → IsSound (index_entries fresh entries)
unfolding index_entries
index_entries-IsSound fresh [] s = s
index_entries-IsSound fresh (e ∷ entries) (a, d) =
    index_entries-IsSound (insert e.peer_id e fresh) entries
      (insert-IsKeyed e e.peer_id fresh refl a, insert-Distinct e.peer_id e fresh d)

-- Where a map comes from that load leaves in memory.
loaded_map :
    (f : RegistryFile) (r : Registry)
    → r.file ≡ f
    → ((load r).1.by_peer_id ≡ r.by_peer_id)
      ⊎ ((entries : List Entry) × ((load r).1.by_peer_id ≡ index_entries [] entries))
unfolding load
loaded_map absent r h = inl (rw h)
loaded_map broken r h = inl (rw h)
loaded_map (saved entries) r h = inr (entries, rw h)

load-IsSound : (r : Registry) → IsSound r.by_peer_id → IsSound (load r).1.by_peer_id
load-IsSound r s = elim (loaded_map r.file r refl) [
  | inl e ↦ subst IsSound (sym e) s
  | inr (entries, e) ↦ subst IsSound (sym e) (index_entries-IsSound [] entries (tt, tt))
]

pub get-load :
    (k : Text) (r : Registry) → (load r).0 ≡ true → (get k r).0 ≡ lookup k (load r).1.by_peer_id
unfolding get
get-load k r h = rw h

get_saved :
    (k : Text) (r : Registry) (m : List (Text × Entry))
    → IsSound m
    → r.file ≡ saved (entries_of m)
    → (get k r).0 ≡ lookup k m
unfolding get load lookup
get_saved k r m (a, d) f = rw f (lookup-index_entries k [] m a d ∙ over-none (lookup k m))

stamped-peer_id : (now : ℕ) (e : Entry) → (stamped now e).peer_id ≡ e.peer_id
unfolding stamped
stamped-peer_id now e = ground arith

-- Over a registry whose map in memory is keyed by PeerID: after an Add that succeeds, Get finds the entry that was added, stamped with the time if it had
-- none, under its PeerID, and under every other PeerID what Get found before.
pub get-add :
    (now : ℕ) (e : Entry) (r r' : Registry) (k : Text)
    → IsSound r.by_peer_id
    → add now e r ≡ (ok tt, r')
    → (get k r').0 ≡ (if e.peer_id == k then some (stamped now e) else (get k r).0)
unfolding add save
get-add now e r r' k s h =
    let (a, d) = load-IsSound r s in
    let m : List (Text × Entry) = (load r).1.by_peer_id in
    let m' : List (Text × Entry) = insert e.peer_id (stamped now e) m in
    elim (Bool-cases (load r).0) [
      | inr n ↦ absurd (ground (arith, n))
      | inl fine ↦
          let file : r'.file ≡ saved (entries_of m') = ground (arith, fine) in
          get_saved k r' m'
            (
              insert-IsKeyed (stamped now e) e.peer_id m (stamped-peer_id now e) a,
              insert-Distinct e.peer_id (stamped now e) m d,
            )
            file
          ∙ lookup-insert e.peer_id k (stamped now e) m
          ∙ ap (λ (o : Option Entry). if e.peer_id == k then some (stamped now e) else o)
              (sym (get-load k r fine))
    ]

-- Over a registry whose map in memory is keyed by PeerID: after a Remove that succeeds, Get finds nothing under the PeerID, and under every other one what
-- Get found before.
pub get-remove :
    (peer : Text) (r r' : Registry) (k : Text)
    → IsSound r.by_peer_id
    → remove peer r ≡ (ok tt, r')
    → (get k r').0 ≡ (if peer == k then none else (get k r).0)
unfolding remove save
get-remove peer r r' k s h =
    let (a, d) = load-IsSound r s in
    let m : List (Text × Entry) = (load r).1.by_peer_id in
    elim (Bool-cases (load r).0) [
      | inr n ↦ absurd (ground (arith, n))
      | inl fine ↦
          let file : r'.file ≡ saved (entries_of (erase peer m)) = ground (arith, fine) in
          get_saved k r' (erase peer m) (erase-IsKeyed peer m a, erase-Distinct peer m d) file
          ∙ lookup-erase peer k m
          ∙ ap (λ (o : Option Entry). if peer == k then none else o) (sym (get-load k r fine))
    ]
