-- ===== src/Invite/Mnemonic.antt =====
-- TokenFromMnemonic takes the token out of the 17 bytes that hold it four bits further on.
use cerclbackup.Prelude.{
  ℕ, ◌+◌, ◌*◌, ◌/◌, ◌%◌, ◌^◌, ◌<◌, ◌≡◌, refl, ap, some, [], ◌∷◌, arith, Bytes, length, All,
}
use cerclbackup.Invite.{shifted, token_from_entropy}
use mathlib.Core.Path.{ap₂}

-- A token shifted right by four bits: `high` are the four bits before it, `low` those behind.
unfoldable pub packed : ℕ → ℕ → Bytes → Bytes
packed high low [] = (high * 2 ^ 4 + low) ∷ []
packed high low (t ∷ token) = (high * 2 ^ 4 + t / 2 ^ 4) ∷ packed (t % 2 ^ 4) low token

abbrev pub AllBytes : Bytes → Type 0
AllBytes b = All (λ (x : ℕ). x < 256) b

length-packed : (high low : ℕ) (token : Bytes) → length (packed high low token) ≡ length token + 1
unfolding packed
length-packed high low [] = omega arith
length-packed high low (t ∷ token) = omega (arith, length-packed (t % 2 ^ 4) low token)

shifted-packed :
    (high low : ℕ) (token : Bytes)
    → low < 16
    → AllBytes token
    → shifted (length token) (packed high low token) ≡ token
unfolding shifted packed
shifted-packed high low [] l b = refl
shifted-packed high low (t ∷ []) l (h, b) = ap (λ (x : ℕ). x ∷ []) (omega arith)
shifted-packed high low (t ∷ u ∷ token) l (h, (k, b)) =
    ap₂ (λ (x : ℕ) (xs : Bytes). x ∷ xs) (omega arith)
      (shifted-packed (t % 2 ^ 4) low (u ∷ token) l (k, b))

-- From 17 bytes that hold a 16-byte token four bits further on, whatever the four bits before it
-- and the four bits behind it are, TokenFromMnemonic takes the token.
pub token_from_entropy-packed :
    (high low : ℕ) (token : Bytes)
    → low < 16
    → length token ≡ 16
    → AllBytes token
    → token_from_entropy (packed high low token) ≡ some token
unfolding token_from_entropy
token_from_entropy-packed high low token l n b =
    let whole : shifted 16 (packed high low token) ≡ token =
      rw (← n) (shifted-packed high low token l b) in
    ground (arith, whole, length-packed high low token)
