-- ===== src/Circle/Stored.antt =====
-- A circle that was added is found, now and by a later manager.
use cerclbackup.Prelude.{
  ◌≡◌, refl, sym, ap, ◌∙◌, inl, inr, true, none, some, List, [], ◌∷◌, ◌++◌, arith, Bool-cases,
  Option-cases, beq_refl, nat_eq, list_eq, Text, ok,
}
use cerclbackup.Circle.{
  Circle, Extra, missing, unparsable, circles_v1, Manager, Fresh, load, save, find, get, new_circle,
  saved_circle, add_loaded, add, reopened,
}
use cerclbackup.Circle.Names.{find-append}

load-is_loaded :
    (e : Extra) (m : Manager) → m.extra ≡ e → (load m).0 ≡ true → (load m).1.is_loaded ≡ true
unfolding load
load-is_loaded missing m h fine = ground (arith, h)
load-is_loaded unparsable m h fine = ground (arith, h)
load-is_loaded (circles_v1 cs) m h fine = ground (arith, h)

get_loaded :
    (name : Text) (m : Manager) → m.is_loaded ≡ true → (get name m).0 ≡ ok (find name m.circles)
unfolding get load
get_loaded name m l = rw l

get-reopened :
    (name : Text) (m : Manager) (cs : List Circle)
    → m.extra ≡ circles_v1 cs
    → (get name (reopened m)).0 ≡ ok (find name cs)
unfolding get load reopened
get-reopened name m cs e = rw e

saved_circle_ok :
    (c d : Circle) (m m' : Manager)
    → saved_circle c (save m) ≡ (ok d, m')
    → (d ≡ c) × (m' ≡ record m { extra = circles_v1 m.circles; disk = circles_v1 m.circles })
unfolding saved_circle save
saved_circle_ok c d m m' h = elim (Bool-cases m.writable) [
  | inl w ↦ (ground (arith, h, w), ground (arith, h, w))
  | inr w ↦ absurd (ground (arith, h, w))
]

-- An Add that succeeds returns a circle with the name and the scheme that were asked for, the name
-- was not taken, and Get of the name returns that circle, from the manager that Add leaves and from
-- a new one over the same keystore.
pub add_sound :
    (name scheme : Text) (f : Fresh) (m m' : Manager) (c : Circle)
    → add name scheme f m ≡ (ok c, m')
    → (c.name ≡ name)
      × (c.scheme ≡ scheme)
      × ((get name m).0 ≡ ok none)
      × ((get name m').0 ≡ ok (some c))
      × ((get name (reopened m')).0 ≡ ok (some c))
unfolding add add_loaded
add_sound name scheme f m m' c h = elim (Bool-cases (load m).0) [
  | inr l ↦ absurd (ground (arith, h, l))
  | inl l ↦
      let n : Manager = (load m).1 in
      let on = load-is_loaded m.extra m refl l in
      elim (Option-cases (find name n.circles)) [
        | inr (d, e) ↦ absurd (ground (arith, h, l, e))
        | inl e ↦ elim (Option-cases f.random) [
          | inl r ↦ absurd (ground (arith, h, l, e, r))
          | inr (salt, r) ↦
              let d : Circle = new_circle name scheme f salt in
              let grown : Manager = record n { circles = n.circles ++ (d ∷ []) } in
              let saved : saved_circle d (save grown) ≡ (ok c, m') = ground (arith, h, l, e, r) in
              let (same, after) = saved_circle_ok d c grown m' saved in
              let named : d.name ≡ name = unfold new_circle in refl in
              let hit : find name (n.circles ++ (d ∷ [])) ≡ some c =
                find-append name n.circles d ∙ rw (e, named, beq_refl name) (ap some (sym same)) in
              (
                ap (λ (b : Circle). b.name) same ∙ named,
                ap (λ (b : Circle). b.scheme) same ∙ unfold new_circle in refl,
                unfold get in rw l (ap ok e),
                get_loaded name m' (ap (λ (b : Manager). b.is_loaded) after ∙ on)
                    ∙ ap (λ (b : Manager). ok (find name b.circles)) after
                    ∙ ap ok hit,
                get-reopened name m' (n.circles ++ (d ∷ [])) (ap (λ (b : Manager). b.extra) after)
                    ∙ ap ok hit,
              )
        ]
      ]
]
