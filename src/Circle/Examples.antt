-- ===== src/Circle/Examples.antt =====
-- A manager over an empty keystore, to which a circle is added.
use cerclbackup.Prelude.{
  ◌≡◌, refl, true, false, some, [], ◌∷◌, nat_eq, list_beq, list_eq, text, ok, err,
}
use cerclbackup.Circle.{
  Circle, missing, circles_v1, Manager, already_exists, Fresh, load, save, find, new_circle,
  saved_circle, add_loaded, add,
}

abbrev empty : Manager
empty = record { extra = missing; disk = missing; writable = true; circles = []; is_loaded = false }

abbrev fresh : Fresh
fresh = record { uuid = text "u1"; random = some (3 ∷ []); now = 8 }

abbrev family : Circle
family = record {
  id = text "u1";
  name = text "Family";
  salt = 3 ∷ [];
  scheme = text "3/2";
  created_at = 8;
}

abbrev with_family : Manager
with_family = record {
  extra = circles_v1 (family ∷ []);
  disk = circles_v1 (family ∷ []);
  writable = true;
  circles = family ∷ [];
  is_loaded = true;
}

added_family : add (text "Family") (text "3/2") fresh empty ≡ (ok family, with_family)
unfolding add add_loaded load find save new_circle saved_circle
added_family = refl

refused_twice :
    add (text "Family") (text "3/2") fresh with_family ≡ (err already_exists, with_family)
unfolding add add_loaded load find list_beq
refused_twice = refl
