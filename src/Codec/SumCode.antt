-- ===== src/Codec/SumCode.antt =====
-- A coder for the scheme 2/1 whose parity shard is the sum of the two data shards. It shows that
-- the promises of a coder can be kept.
use cerclbackup.Prelude.{
  ℕ, suc, ◌+◌, ◌-◌, ◌≤◌, ◌<◌, ◌≡◌, refl, ap, ◌⊎◌, ◌&&◌, Option, none, some, List, [], ◌∷◌, ◌++◌,
  arith, ltb, nat_beq, if◌then◌else◌, Bytes, length,
}
use cerclbackup.Protocol.{RsScheme}
use cerclbackup.Codec.Coder.{Backend, AllOf, Damaged, survivors, IsReedSolomon}

abbrev pub scheme : RsScheme
scheme = record { data_shards = 2; parity_shards = 1 }

abbrev add : Bytes → Bytes → Bytes
add [] ys = []
add (x ∷ xs) [] = []
add (x ∷ xs) (y ∷ ys) = (x + y) ∷ add xs ys

abbrev sub : Bytes → Bytes → Bytes
sub [] ys = []
sub (x ∷ xs) [] = []
sub (x ∷ xs) (y ∷ ys) = (x - y) ∷ sub xs ys

length-add : (xs ys : Bytes) → length xs ≡ length ys → length (add xs ys) ≡ length xs
length-add [] ys h = refl
length-add (x ∷ xs) [] h = absurd (omega arith)
length-add (x ∷ xs) (y ∷ ys) h = ap suc (length-add xs ys (omega arith))

sub-add_right : (xs ys : Bytes) → length xs ≡ length ys → sub (add xs ys) ys ≡ xs
sub-add_right [] ys h = refl
sub-add_right (x ∷ xs) [] h = absurd (omega arith)
sub-add_right (x ∷ xs) (y ∷ ys) h = ground (arith, sub-add_right xs ys)

sub-add_left : (xs ys : Bytes) → length xs ≡ length ys → sub (add xs ys) xs ≡ ys
sub-add_left [] [] h = refl
sub-add_left [] (y ∷ ys) h = absurd (omega arith)
sub-add_left (x ∷ xs) [] h = absurd (omega arith)
sub-add_left (x ∷ xs) (y ∷ ys) h = ground (arith, sub-add_left xs ys)

unfoldable pub sum_encode : List Bytes → Option (List Bytes)
sum_encode (a ∷ b ∷ c ∷ []) =
    if nat_beq (length a) (length b) && ltb 0 (length a) then some (a ∷ b ∷ add a b ∷ []) else none
sum_encode _ = none

unfoldable pub sum_reconstruct : List Bytes → Option (List Bytes)
sum_reconstruct ([] ∷ b ∷ c ∷ []) = some (sub c b ∷ b ∷ c ∷ [])
sum_reconstruct ((x ∷ a) ∷ [] ∷ c ∷ []) = some ((x ∷ a) ∷ sub c (x ∷ a) ∷ c ∷ [])
sum_reconstruct ((x ∷ a) ∷ (y ∷ b) ∷ c ∷ []) = some ((x ∷ a) ∷ (y ∷ b) ∷ add (x ∷ a) (y ∷ b) ∷ [])
sum_reconstruct _ = none

abbrev pub sum_code : Backend
sum_code = record { encode = sum_encode; reconstruct = sum_reconstruct }

sum_encodes :
    (size : ℕ) (a b c : Bytes)
    → 0 < size
    → length a ≡ size
    → length b ≡ size
    → (sum_encode (a ∷ b ∷ c ∷ []) ≡ some (a ∷ b ∷ add a b ∷ [])) × (length (add a b) ≡ size)
unfolding sum_encode
sum_encodes size a b c h la lb = ground (arith, length-add a b)

-- One data shard lost, the other one lost, the parity shard lost or not.
sum_reconstructs :
    (a b s t u : Bytes)
    → 0 < length a
    → length a ≡ length b
    → (s ≡ a) ⊎ (s ≡ [])
    → (t ≡ b) ⊎ (t ≡ [])
    → (u ≡ add a b) ⊎ (u ≡ [])
    → 2 ≤ survivors (s ∷ t ∷ u ∷ [])
    → sum_reconstruct (s ∷ t ∷ u ∷ []) ≡ some (a ∷ b ∷ add a b ∷ [])
unfolding sum_reconstruct
sum_reconstructs [] b s t u p l hs ht hu k = absurd (omega arith)
sum_reconstructs (x ∷ a) [] s t u p l hs ht hu k = absurd (omega arith)
sum_reconstructs (x ∷ a) (y ∷ b) s t u p l hs ht hu k =
    ground (arith, sub-add_right (x ∷ a) (y ∷ b) l, sub-add_left (x ∷ a) (y ∷ b) l)

encodes_lem :
    (size : ℕ) (data_part parity_part : List Bytes)
    → 0 < size
    → length data_part ≡ 2
    → length parity_part ≡ 1
    → AllOf size data_part
    → AllOf size parity_part
    → (parity : List Bytes) × (sum_encode (data_part ++ parity_part) ≡ some (data_part ++ parity))
      × (length parity ≡ 1)
      × AllOf size parity
encodes_lem size (a ∷ b ∷ []) (c ∷ []) h d p (la, (lb, u)) (lc, v) =
    let (coded, l) = sum_encodes size a b c h la lb in (add a b ∷ [], coded, refl, (l, tt))
encodes_lem size [] ps h d p al bl = absurd (omega arith)
encodes_lem size (a ∷ []) ps h d p al bl = absurd (omega arith)
encodes_lem size (a ∷ b ∷ c ∷ ds) ps h d p al bl = absurd (omega arith)
encodes_lem size (a ∷ b ∷ []) [] h d p al bl = absurd (omega arith)
encodes_lem size (a ∷ b ∷ []) (c ∷ c' ∷ ps) h d p al bl = absurd (omega arith)

sum_encode_inv :
    (a b c : Bytes) {whole : List Bytes}
    → sum_encode (a ∷ b ∷ c ∷ []) ≡ some whole
    → (whole ≡ a ∷ b ∷ add a b ∷ []) × (0 < length a) × (length a ≡ length b)
unfolding sum_encode
sum_encode_inv a b c h = ground arith

reconstructs_three :
    (a b : Bytes) (damaged : List Bytes)
    → 0 < length a
    → length a ≡ length b
    → Damaged (a ∷ b ∷ add a b ∷ []) damaged
    → 2 ≤ survivors damaged
    → sum_reconstruct damaged ≡ some (a ∷ b ∷ add a b ∷ [])
reconstructs_three a b [] p l h k = absurd h
reconstructs_three a b (s ∷ []) p l h k = absurd h.1
reconstructs_three a b (s ∷ t ∷ []) p l h k = absurd h.1.1
reconstructs_three a b (s ∷ t ∷ u ∷ []) p l (hs, (ht, (hu, v))) k =
    sum_reconstructs a b s t u p l hs ht hu k
reconstructs_three a b (s ∷ t ∷ u ∷ z ∷ zs) p l h k = absurd h.1.1.1

reconstructs_lem :
    (shards whole damaged : List Bytes)
    → sum_encode shards ≡ some whole
    → Damaged whole damaged
    → 2 ≤ survivors damaged
    → sum_reconstruct damaged ≡ some whole
reconstructs_lem (a ∷ b ∷ c ∷ []) whole damaged e h k =
    let (same, p, l) = sum_encode_inv a b c e in
    rw same (reconstructs_three a b damaged p l (rw same at h) k)
reconstructs_lem [] whole damaged e h k = unfold sum_encode in cc
reconstructs_lem (a ∷ []) whole damaged e h k = unfold sum_encode in cc
reconstructs_lem (a ∷ b ∷ []) whole damaged e h k = unfold sum_encode in cc
reconstructs_lem (a ∷ b ∷ c ∷ d ∷ ds) whole damaged e h k = unfold sum_encode in cc

pub sum_code-IsReedSolomon : IsReedSolomon sum_code scheme
sum_code-IsReedSolomon = record { encodes = encodes_lem; reconstructs = reconstructs_lem }
