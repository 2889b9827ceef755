-- ===== src/Client/Files/Payloads.antt =====
-- The chunk messages of a file: the indices they carry.
use mathlib.Core.Path.{subst}
use tintin.Prelude.{
  ℕ, zero, suc, ◌+◌, ◌<◌, ◌≡◌, refl, ◌∙◌, ap, Bool, false, List, [], ◌∷◌, none, some, length, arith,
  ◌==◌, number_eq, text_eq, get_elem?, Every,
}
use tintin.Prelude.Rows.{exists, Distinct}
use tintin.Core.Crypto.{Bytes}
use tintin.Client.Wire.{Payload, Base64, unwrap_or}
use tintin.Client.Files.{FileInfo, chunk_payload, payloads_from}

abbrev pub index_of : Payload → ℕ
index_of payload = unwrap_or 0 payload.chunk_index

abbrev pub same_index : Payload → Payload → Bool
same_index p q = index_of p == index_of q

module _ (base64 : Base64) (info : FileInfo) where
  -- the payload is the one of a piece of the file
  abbrev pub Genuine : List Bytes → Payload → Type 0
  Genuine pieces p =
      (chunk : Bytes) × (p ≡ chunk_payload base64 info (index_of p) chunk)
      × (get_elem? pieces (index_of p) ≡ some chunk)

  pub payloads_from-Genuine :
      (whole pieces : List Bytes) (k : ℕ)
      → ((j : ℕ) → get_elem? whole (k + j) ≡ get_elem? pieces j)
      → Every (Genuine whole) (payloads_from base64 info k pieces)
  unfolding payloads_from chunk_payload
  payloads_from-Genuine whole [] k h = tt
  payloads_from-Genuine whole (piece ∷ pieces) k h = (
    (piece, refl, ap (λ i. get_elem? whole i) (omega arith) ∙ h 0),
    payloads_from-Genuine whole pieces (suc k)
        (λ j. ap (λ i. get_elem? whole i) (omega arith) ∙ h (suc j)),
  )

  earlier :
      (pieces : List Bytes) (i k : ℕ)
      → i < k
      → exists (λ p. i == index_of p) (payloads_from base64 info k pieces) ≡ false
  unfolding payloads_from chunk_payload exists
  earlier [] i k h = refl
  earlier (piece ∷ pieces) i k h = ground (arith, earlier pieces i (suc k) (omega arith))

  pub payloads_from-Distinct :
      (pieces : List Bytes) (k : ℕ) → Distinct same_index (payloads_from base64 info k pieces)
  unfolding payloads_from chunk_payload
  payloads_from-Distinct [] k = tt
  payloads_from-Distinct (piece ∷ pieces) k =
      (earlier pieces k (suc k) (omega arith), payloads_from-Distinct pieces (suc k))

  later_same :
      (pieces : List Bytes) (k j : ℕ)
      → exists (λ p. (k + suc j) == index_of p) (payloads_from base64 info (suc k) pieces) ≡ false
      → exists (λ p. (suc k + j) == index_of p) (payloads_from base64 info (suc k) pieces) ≡ false
  later_same pieces k j h =
      let same : k + suc j ≡ suc k + j = omega arith in
      subst (λ i. exists (λ p. i == index_of p) (payloads_from base64 info (suc k) pieces) ≡ false)
        same h

  pub payloads_from-covers :
      (pieces : List Bytes) (k j : ℕ)
      → exists (λ p. (k + j) == index_of p) (payloads_from base64 info k pieces) ≡ false
      → get_elem? pieces j ≡ none
  unfolding payloads_from chunk_payload exists
  payloads_from-covers [] k j h = refl
  payloads_from-covers (piece ∷ pieces) k zero h = absurd (ground arith)
  payloads_from-covers (piece ∷ pieces) k (suc j) h =
      payloads_from-covers pieces (suc k) j (later_same pieces k j (ground arith))

  pub length-payloads_from :
      (pieces : List Bytes) (k : ℕ) → length (payloads_from base64 info k pieces) ≡ length pieces
  unfolding payloads_from
  length-payloads_from [] k = refl
  length-payloads_from (piece ∷ pieces) k = ap suc (length-payloads_from pieces (suc k))
