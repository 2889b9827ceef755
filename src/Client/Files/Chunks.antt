-- ===== src/Client/Files/Chunks.antt =====
-- The chunks of a file, one after the other, and how many they are.
use tintin.Prelude.{
  ℕ, zero, suc, ◌+◌, ◌-◌, ◌*◌, ◌/◌, ◌≤◌, ◌≡◌, refl, sym, ◌∙◌, ap, List, [], ◌∷◌, ◌++◌, length, take,
  drop, arith, number_eq,
}
use tintin.Core.Crypto.{Bytes}
use tintin.Client.Files.{chunks_within, chunks, chunk_size, total_chunks_of}

abbrev pub concat : List Bytes → Bytes
concat [] = []
concat (chunk ∷ rest) = chunk ++ concat rest

take-drop : (n : ℕ) (bytes : Bytes) → take n bytes ++ drop n bytes ≡ bytes
take-drop zero bytes = refl
take-drop (suc n) [] = refl
take-drop (suc n) (b ∷ bytes) = ap (λ (r : Bytes). b ∷ r) (take-drop n bytes)

length-drop : (n : ℕ) (bytes : Bytes) → length (drop n bytes) ≡ length bytes - n
length-drop zero bytes = omega arith
length-drop (suc n) [] = omega arith
length-drop (suc n) (b ∷ bytes) = omega (arith, length-drop n bytes)

concat-chunks_within :
    (fuel size : ℕ) (bytes : Bytes)
    → length bytes ≤ fuel
    → concat (chunks_within fuel (suc size) bytes) ≡ bytes
unfolding chunks_within
concat-chunks_within zero size [] h = refl
concat-chunks_within zero size (b ∷ bytes) h = absurd (omega arith)
concat-chunks_within (suc fuel) size [] h = refl
concat-chunks_within (suc fuel) size (b ∷ bytes) h =
    let shorter : length (drop size bytes) ≤ fuel = omega (arith, length-drop size bytes) in
    ap (λ (r : Bytes). b ∷ (take size bytes ++ r))
      (concat-chunks_within fuel size (drop size bytes) shorter)
    ∙ ap (λ (r : Bytes). b ∷ r) (take-drop size bytes)

-- The chunks of a file, put one behind the other, are the file.
pub concat-chunks : (size : ℕ) (bytes : Bytes) → concat (chunks (suc size) bytes) ≡ bytes
unfolding chunks
concat-chunks size bytes = concat-chunks_within (length bytes) size bytes (omega arith)

length-chunks_within :
    (fuel : ℕ) (bytes : Bytes)
    → length bytes ≤ fuel
    → (length bytes ≤ length (chunks_within fuel chunk_size bytes) * 262144)
      × (length (chunks_within fuel chunk_size bytes) * 262144 ≤ length bytes + 262143)
unfolding chunks_within
length-chunks_within zero [] h = omega arith
length-chunks_within zero (b ∷ bytes) h = absurd (omega arith)
length-chunks_within (suc fuel) [] h = omega arith
length-chunks_within (suc fuel) (b ∷ bytes) h =
    let shorter : length (drop 262143 bytes) ≤ fuel = omega (arith, length-drop 262143 bytes) in
    let ih = length-chunks_within fuel (drop 262143 bytes) shorter in
    let short = length-drop 262143 bytes in omega (arith, ih, short)

quotient :
    (n k : ℕ) → suc n ≤ k * 262144 → k * 262144 ≤ suc n + 262143 → k ≡ (suc n + 262144 - 1) / 262144
quotient n k low high = omega arith

length-chunks_bounds :
    (bytes : Bytes)
    → (length bytes ≤ length (chunks chunk_size bytes) * 262144)
      × (length (chunks chunk_size bytes) * 262144 ≤ length bytes + 262143)
unfolding chunks
length-chunks_bounds bytes = length-chunks_within (length bytes) bytes (omega arith)

pub total_chunks_of_bytes :
    (b : ℕ) (rest : Bytes) → total_chunks_of (b ∷ rest) ≡ (suc (length rest) + 262144 - 1) / 262144
unfolding total_chunks_of
total_chunks_of_bytes b rest = ground arith

no_chunks : chunks chunk_size [] ≡ []
unfolding chunks chunks_within
no_chunks = refl

-- A file that is not empty is announced with as many chunks as are sent; the empty one is announced
-- with one chunk, and none is sent.
pub length-chunks :
    ((b : ℕ) (rest : Bytes) → length (chunks chunk_size (b ∷ rest)) ≡ total_chunks_of (b ∷ rest))
    × (total_chunks_of [] ≡ 1)
    × (chunks chunk_size [] ≡ [])
length-chunks = (
  λ b rest.
      let bound = length-chunks_bounds (b ∷ rest) in
      quotient (length rest) (length (chunks chunk_size (b ∷ rest))) bound.0 bound.1
      ∙ sym (total_chunks_of_bytes b rest),
  (unfold total_chunks_of in refl),
  no_chunks,
)

pub chunks_positive : (b : ℕ) (rest : Bytes) → 1 ≤ length (chunks chunk_size (b ∷ rest))
chunks_positive b rest = omega (arith, length-chunks_bounds (b ∷ rest))
