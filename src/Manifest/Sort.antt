-- ===== src/Manifest/Sort.antt =====
-- sortByVersion: the result is in order and holds the same entries.
use mathlib.Core.List.Perm
use cerclbackup.Prelude.{
  ℕ, ◌≤◌, ◌≡◌, refl, ◌⊎◌, inl, inr, List, [], ◌∷◌, ◌++◌, append-nil, append_assoc, arith, ltb,
  ltb→lt, Bool-cases, All, In, In-append_left, In-append_right, In-append,
}
use cerclbackup.Protocol.{ManifestEntry}
use cerclbackup.Manifest.{version_of, sink, sort_loop, sort_by_version}
use mathlib.Core.List.{reverse-cons, reverse_perm, Perm, reverse, perm_middle}

abbrev pub NoneAbove : ℕ → List ManifestEntry → Type 0
NoneAbove v es = All (λ (e : ManifestEntry). version_of e ≤ v) es

abbrev pub NoneBelow : ℕ → List ManifestEntry → Type 0
NoneBelow v es = All (λ (e : ManifestEntry). v ≤ version_of e) es

abbrev pub Descending : List ManifestEntry → Type 0
Descending [] = Unit
Descending (e ∷ es) = NoneAbove (version_of e) es × Descending es

abbrev pub Ascending : List ManifestEntry → Type 0
Ascending [] = Unit
Ascending (e ∷ es) = NoneBelow (version_of e) es × Ascending es

sink-perm : (e : ManifestEntry) (ps : List ManifestEntry) → Perm (sink e ps) (e ∷ ps)
unfolding sink
sink-perm e [] = Perm.refl _
sink-perm e (p ∷ ps) = elim (Bool-cases (ltb (version_of e) (version_of p))) [
  | inl h ↦ rw h (Perm.trans (Perm.cons p (sink-perm e ps)) (Perm.swap e p ps))
  | inr h ↦ rw h (Perm.refl _)
]

NoneAbove-trans : (v w : ℕ) (es : List ManifestEntry) → v ≤ w → NoneAbove v es → NoneAbove w es
NoneAbove-trans v w [] h a = tt
NoneAbove-trans v w (e ∷ es) h (l, a) = (omega arith, NoneAbove-trans v w es h a)

sink-NoneAbove :
    (v : ℕ) (e : ManifestEntry) (ps : List ManifestEntry)
    → version_of e ≤ v
    → NoneAbove v ps
    → NoneAbove v (sink e ps)
unfolding sink
sink-NoneAbove v e [] h a = (h, tt)
sink-NoneAbove v e (p ∷ ps) h (hp, a) = ground (arith, sink-NoneAbove v e ps h a)

sink-Descending :
    (e : ManifestEntry) (ps : List ManifestEntry) → Descending ps → Descending (sink e ps)
unfolding sink
sink-Descending e [] d = (tt, tt)
sink-Descending e (p ∷ ps) (a, d) = elim (Bool-cases (ltb (version_of e) (version_of p))) [
  | inl h ↦
      rw h
        (sink-NoneAbove (version_of p) e ps (omega (arith, ltb→lt _ _ h)) a, sink-Descending e ps d)
  | inr h ↦
      let l : version_of p ≤ version_of e = ground arith in
      rw h ((l, NoneAbove-trans _ _ ps l a), (a, d))
]

sort_loop-perm : (front es : List ManifestEntry) → Perm (sort_loop front es) (front ++ es)
unfolding sort_loop
sort_loop-perm front [] = rw append-nil (reverse_perm front)
sort_loop-perm front (e ∷ es) =
    Perm.trans (sort_loop-perm (sink e front) es)
      (Perm.trans (Perm.append_right es (sink-perm e front)) (Perm.symm (perm_middle front es)))

NoneAbove-append :
    (v : ℕ) (xs ys : List ManifestEntry) → NoneAbove v xs → NoneAbove v ys → NoneAbove v (xs ++ ys)
NoneAbove-append v [] ys a b = b
NoneAbove-append v (x ∷ xs) ys (l, a) b = (l, NoneAbove-append v xs ys a b)

NoneAbove-reverse : (v : ℕ) (es : List ManifestEntry) → NoneAbove v es → NoneAbove v (reverse es)
NoneAbove-reverse v [] a = tt
NoneAbove-reverse v (e ∷ es) (l, a) =
    rw reverse-cons (NoneAbove-append v (reverse es) (e ∷ []) (NoneAbove-reverse v es a) (l, tt))

NoneBelow-append :
    (v : ℕ) (xs ys : List ManifestEntry) → NoneBelow v xs → NoneBelow v ys → NoneBelow v (xs ++ ys)
NoneBelow-append v [] ys a b = b
NoneBelow-append v (x ∷ xs) ys (l, a) b = (l, NoneBelow-append v xs ys a b)

Ascending-append :
    (xs : List ManifestEntry) (e : ManifestEntry)
    → Ascending xs
    → NoneAbove (version_of e) xs
    → Ascending (xs ++ (e ∷ []))
Ascending-append [] e a b = (tt, tt)
Ascending-append (x ∷ xs) e (h, a) (l, b) =
    (NoneBelow-append (version_of x) xs (e ∷ []) h (l, tt), Ascending-append xs e a b)

reverse-Ascending : (front : List ManifestEntry) → Descending front → Ascending (reverse front)
reverse-Ascending [] d = tt
reverse-Ascending (e ∷ front) (a, d) = rw reverse-cons (
    Ascending-append (reverse front) e (reverse-Ascending front d)
      (NoneAbove-reverse (version_of e) front a))

sort_loop-Ascending :
    (front es : List ManifestEntry) → Descending front → Ascending (sort_loop front es)
unfolding sort_loop
sort_loop-Ascending front [] d = reverse-Ascending front d
sort_loop-Ascending front (e ∷ es) d =
    sort_loop-Ascending (sink e front) es (sink-Descending e front d)

-- sortByVersion permutes its entries into ascending order of version.
pub sort_by_version_sound :
    (es : List ManifestEntry) → Perm (sort_by_version es) es × Ascending (sort_by_version es)
unfolding sort_by_version
sort_by_version_sound es = (sort_loop-perm [] es, sort_loop-Ascending [] es tt)

abbrev StartsBelow : List ManifestEntry → List ManifestEntry → Type 0
StartsBelow [] es = Unit
StartsBelow (p ∷ ps) es = NoneBelow (version_of p) es

sink_high :
    (e : ManifestEntry) (front : List ManifestEntry) (es : List ManifestEntry)
    → StartsBelow front (e ∷ es)
    → sink e front ≡ e ∷ front
unfolding sink
sink_high e [] es h = refl
sink_high e (p ∷ ps) es (l, h) = ground arith

sort_loop-Ascending' :
    (front es : List ManifestEntry)
    → StartsBelow front es
    → Ascending es
    → sort_loop front es ≡ reverse front ++ es
unfolding sort_loop
sort_loop-Ascending' front [] h a = rw append-nil
sort_loop-Ascending' front (e ∷ es) h (b, a) =
    rw (sink_high e front es h, sort_loop-Ascending' (e ∷ front) es b a, reverse-cons e front)
      (append_assoc (reverse front) (e ∷ []) es)

-- Entries that are in ascending order already stay where they are, those of one version too.
pub sort_by_version-Ascending : (es : List ManifestEntry) → Ascending es → sort_by_version es ≡ es
unfolding sort_by_version
sort_by_version-Ascending es a = sort_loop-Ascending' [] es tt a

-- Membership goes through the sort both ways.
module _ (a : ManifestEntry) where
  In-sink : (e : ManifestEntry) (ps : List ManifestEntry) → In a (sink e ps) → In a (e ∷ ps)
  unfolding sink
  In-sink e [] h = h
  In-sink e (p ∷ ps) h = ground (arith, In-sink e ps)

  sink-In : (e : ManifestEntry) (ps : List ManifestEntry) → In a (e ∷ ps) → In a (sink e ps)
  unfolding sink
  sink-In e [] h = h
  sink-In e (p ∷ ps) h = ground (arith, sink-In e ps)

  pub In-reverse : (es : List ManifestEntry) → In a (reverse es) → In a es
  In-reverse [] h = h
  In-reverse (e ∷ es) h = elim (In-append a (reverse es) (e ∷ []) (rw reverse-cons at h)) [
    | inl l ↦ inr (In-reverse es l)
    | inr (inl r) ↦ inl r
    | inr (inr r) ↦ absurd r
  ]

  pub reverse-In : (es : List ManifestEntry) → In a es → In a (reverse es)
  reverse-In [] h = h
  reverse-In (e ∷ es) (inl h) = rw reverse-cons (In-append_right a (reverse es) (e ∷ []) (inl h))
  reverse-In (e ∷ es) (inr h) =
      rw reverse-cons (In-append_left a (reverse es) (e ∷ []) (reverse-In es h))

  In-sort_loop : (front es : List ManifestEntry) → In a (sort_loop front es) → In a front ⊎ In a es
  unfolding sort_loop
  In-sort_loop front [] h = inl (In-reverse front h)
  In-sort_loop front (e ∷ es) h = elim (In-sort_loop (sink e front) es h) [
    | inr r ↦ inr (inr r)
    | inl l ↦ elim (In-sink e front l) [ inl x ↦ inr (inl x) | inr y ↦ inl y ]
  ]

  sort_loop-In : (front es : List ManifestEntry) → In a front ⊎ In a es → In a (sort_loop front es)
  unfolding sort_loop
  sort_loop-In front [] (inl h) = reverse-In front h
  sort_loop-In front [] (inr h) = absurd h
  sort_loop-In front (e ∷ es) (inl h) =
      sort_loop-In (sink e front) es (inl (sink-In e front (inr h)))
  sort_loop-In front (e ∷ es) (inr (inl h)) =
      sort_loop-In (sink e front) es (inl (sink-In e front (inl h)))
  sort_loop-In front (e ∷ es) (inr (inr h)) = sort_loop-In (sink e front) es (inr h)

  pub In-sort_by_version : (es : List ManifestEntry) → In a (sort_by_version es) → In a es
  unfolding sort_by_version
  In-sort_by_version es h = elim (In-sort_loop [] es h) [ inl l ↦ absurd l | inr r ↦ r ]

  pub sort_by_version-In : (es : List ManifestEntry) → In a es → In a (sort_by_version es)
  unfolding sort_by_version
  sort_by_version-In es h = sort_loop-In [] es (inr h)
