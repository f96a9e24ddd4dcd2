-- ===== src/Files/Paths.antt =====
-- Join over components that Clean leaves alone.
use cerclbackup.Prelude.{
  ℕ, ◌<◌, ◌≡◌, refl, ap, ◌≢◌, List, [], ◌∷◌, ◌++◌, append-nil, append_assoc, arith, beq_iff, nat_eq,
  list_eq, Text, text, length, All, length-append,
}
use cerclbackup.Files.{FilePath, split_slash, enter, enter_all, join}
use cerclbackup.Files.Decimal.{All-append}

-- No slash stands in the component.
abbrev pub NoSlash : Text → Type 0
NoSlash s = All (λ (c : ℕ). c ≢ b'/') s

-- A component that filepath.Clean leaves alone.
pub record IsPlain (s : Text) : Type 0 where
  pub no_slash : NoSlash s
  pub not_empty : s ≢ text ""
  pub not_dot : s ≢ text "."
  pub not_dots : s ≢ text ".."

split_slash_plain : (part s : Text) → NoSlash s → split_slash part s ≡ (part ++ s) ∷ []
unfolding split_slash
split_slash_plain part [] h = rw append-nil
split_slash_plain part (c ∷ s) (ne, h) =
    ground (arith, split_slash_plain (part ++ (c ∷ [])) s h, append_assoc part (c ∷ []) s)

enter_plain : (p : FilePath) (c : Text) → IsPlain c → enter p c ≡ c ∷ p
unfolding enter
enter_plain p c h = ground (
  arith,
  beq_iff c (text ""),
  beq_iff c (text "."),
  beq_iff c (text ".."),
  h.not_empty,
  h.not_dot,
  h.not_dots,
)

-- Joining plain components goes down one directory for each.
pub join_plain :
    (p : FilePath) (s : Text) (elements : List Text)
    → IsPlain s
    → join p (s ∷ elements) ≡ join (s ∷ p) elements
unfolding join enter_all
join_plain p s elements h = rw (split_slash_plain [] s h.no_slash, enter_plain p s h)

pub join_nil : (p : FilePath) → join p [] ≡ p
unfolding join
join_nil p = refl

-- A name with an extension is plain if it has no slash.
pub extension-IsPlain : (s t : Text) → NoSlash s → NoSlash t → 2 < length t → IsPlain (s ++ t)
extension-IsPlain s t hs ht l = record {
  no_slash = All-append (λ (c : ℕ). c ≢ b'/') s t hs ht;
  not_empty = λ e. absurd (omega (arith, length-append s t, ap length e));
  not_dot = λ e. absurd (omega (arith, length-append s t, ap length e));
  not_dots = λ e. absurd (omega (arith, length-append s t, ap length e));
}
