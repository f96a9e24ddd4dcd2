-- ===== src/Files/Decimal.antt =====
-- strconv.Itoa: it prints digits, and no two numbers print alike.
use cerclbackup.Prelude.{
  ℕ, zero, suc, ◌+◌, ◌-◌, ◌*◌, ◌/◌, ◌%◌, ◌≤◌, ◌<◌, ◌≡◌, refl, sym, ap, ◌∙◌, ◌≢◌, inl, inr, List, [],
  ◌∷◌, ◌++◌, arith, ltb, if◌then◌else◌, ltb→lt, Bool-cases, Text, drop, All,
}

-- A Go int: `negsuc n` is -(n + 1).
pub data ℤ : Type 0 where
  pos : ℕ → ℤ
  negsuc : ℕ → ℤ

unfoldable pub digits : ℕ → ℕ → Text
digits zero n = []
digits (suc fuel) n =
    let front = digits fuel (n / 10) in
    if ltb n 10 then (b'0' + n) ∷ [] else front ++ ((b'0' + n % 10) ∷ [])

-- A number has fewer digits than n + 1.
unfoldable pub itoa : ℤ → Text
unfolding digits
itoa (pos n) = digits (n + 1) n
itoa (negsuc n) = b'-' ∷ digits (n + 2) (n + 1)

-- The number that digits stand for, behind those that were read.
value : ℕ → Text → ℕ
value acc [] = acc
value acc (c ∷ s) = value (acc * 10 + (c - b'0')) s

value-append : (acc : ℕ) (s t : Text) → value acc (s ++ t) ≡ value (value acc s) t
unfolding value
value-append acc [] t = refl
value-append acc (c ∷ s) t = value-append (acc * 10 + (c - b'0')) s t

value-digits : (fuel n : ℕ) → n < fuel → value 0 (digits fuel n) ≡ n
unfolding digits value
value-digits zero n h = absurd (omega arith)
value-digits (suc fuel) n h = elim (Bool-cases (ltb n 10)) [
  | inl t ↦ rw t (omega arith)
  | inr t ↦ rw t (
      value-append 0 (digits fuel (n / 10)) ((b'0' + n % 10) ∷ [])
      ∙ rw (value-digits fuel (n / 10) (ground arith)) (omega arith))
]

abbrev pub IsDigit : ℕ → Type 0
IsDigit c = (b'0' ≤ c) × (c ≤ b'9')

pub All-append {ℓ} :
    {A : Type ℓ} (P : A → Type 0) (xs ys : List A) → All P xs → All P ys → All P (xs ++ ys)
All-append P [] ys a b = b
All-append P (x ∷ xs) ys (h, a) b = (h, All-append P xs ys a b)

digits-IsDigit : (fuel n : ℕ) → All IsDigit (digits fuel n)
unfolding digits
digits-IsDigit zero n = tt
digits-IsDigit (suc fuel) n = elim (Bool-cases (ltb n 10)) [
  | inl t ↦ let h = ltb→lt n 10 t in rw t (omega arith, tt)
  | inr t ↦
      rw t (
        All-append IsDigit (digits fuel (n / 10)) _ (digits-IsDigit fuel (n / 10))
          (omega arith, tt))
]

digits_start : (s t : Text) → All IsDigit s → b'-' ∷ t ≢ s
digits_start [] t a e = cc
digits_start (c ∷ s) t ((lo, hi), a) e = absurd (ground (arith, e))

itoa_inj_pos : (m n : ℕ) → digits (m + 1) m ≡ digits (n + 1) n → m ≡ n
itoa_inj_pos m n e =
    sym (value-digits (m + 1) m (omega arith))
    ∙ ap (value 0) e
    ∙ value-digits (n + 1) n (omega arith)

-- No two integers print alike.
pub itoa_injective : (i j : ℤ) → itoa i ≡ itoa j → i ≡ j
unfolding itoa
itoa_injective (pos m) (pos n) e = ap pos (itoa_inj_pos m n e)
itoa_injective (pos m) (negsuc n) e =
    absurd (digits_start (digits (m + 1) m) _ (digits-IsDigit (m + 1) m) (sym e))
itoa_injective (negsuc m) (pos n) e =
    absurd (digits_start (digits (n + 1) n) _ (digits-IsDigit (n + 1) n) e)
itoa_injective (negsuc m) (negsuc n) e =
    let same : digits (m + 2) (m + 1) ≡ digits (n + 2) (n + 1) = ap (drop 1) e in
    let next : m + 1 ≡ n + 1 =
      sym (value-digits (m + 2) (m + 1) (omega arith))
      ∙ ap (value 0) same
      ∙ value-digits (n + 2) (n + 1) (omega arith) in
    ap negsuc (omega arith)

digits_plain : (s : Text) → All IsDigit s → All (λ (c : ℕ). c ≢ b'/') s
digits_plain [] a = tt
digits_plain (c ∷ s) ((lo, hi), a) = (omega arith, digits_plain s a)

-- What Itoa prints has no slash.
pub itoa_plain : (i : ℤ) → All (λ (c : ℕ). c ≢ b'/') (itoa i)
unfolding itoa
itoa_plain (pos n) = digits_plain (digits (n + 1) n) (digits-IsDigit (n + 1) n)
itoa_plain (negsuc n) =
    (omega arith, digits_plain (digits (n + 2) (n + 1)) (digits-IsDigit (n + 2) (n + 1)))
