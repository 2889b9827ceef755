-- ===== src/Core/Crypto.antt =====
-- What tintin-core takes from the crates x25519-dalek, sha2, hkdf and chacha20poly1305: functions
-- on byte strings, and the documented laws that the library relies on.
use Prim.Native.Char.{code}
use tintin.Prelude.{
  ℕ, ◌≡◌, Bool, true, false, ◌&&◌, Option, List, [], ◌∷◌, String, Result, ok, arith,
}
use tintin.Prelude.{PartialEq, ◌==◌, number_eq, refl, ◌↔◌}

abbrev pub Bytes : Type 0
Bytes = List ℕ

unfoldable pub bytes_beq : Bytes → Bytes → Bool
bytes_beq [] [] = true
bytes_beq [] (y ∷ ys) = false
bytes_beq (x ∷ xs) [] = false
bytes_beq (x ∷ xs) (y ∷ ys) = x == y && bytes_beq xs ys

bytes_beq_refl : (a : Bytes) → bytes_beq a a ≡ true
unfolding bytes_beq
bytes_beq_refl [] = refl
bytes_beq_refl (x ∷ xs) = ground (arith, bytes_beq_refl xs)

bytes_beq_sound : (a b : Bytes) → bytes_beq a b ≡ true → a ≡ b
unfolding bytes_beq
bytes_beq_sound [] [] h = refl
bytes_beq_sound [] (y ∷ ys) h = cc
bytes_beq_sound (x ∷ xs) [] h = cc
bytes_beq_sound (x ∷ xs) (y ∷ ys) h = ground (arith, bytes_beq_sound xs ys)

pub bytes_beq_iff : (a b : Bytes) → (bytes_beq a b ≡ true) ↔ (a ≡ b)
bytes_beq_iff a b = (bytes_beq_sound a b, λ e. rw e (bytes_beq_refl b))

-- `==` on `[u8; 32]`
instance abbrev pub bytes_eq : PartialEq Bytes
bytes_eq = record { same = bytes_beq; same_iff = bytes_beq_iff }

-- The bytes of an ASCII literal.
abbrev pub codes : String → Bytes
codes String.[] = []
codes (String.◌∷◌ c s) = code c ∷ codes s

pub record Crypto : Type 0 where
  -- x25519_dalek: `PublicKey::from(&secret)` and `secret.diffie_hellman(&public)`
  pub public_of : Bytes → Bytes
  pub diffie_hellman : Bytes → Bytes → Bytes
  -- sha2: the digests
  pub sha256 : Bytes → Bytes
  pub sha512 : Bytes → Bytes
  -- hkdf: salt, input key material, info, and the length of the output
  pub hkdf_expand : Option Bytes → Bytes → Bytes → ℕ → Bytes
  -- chacha20poly1305: key, nonce, and the text
  pub seal : Bytes → Bytes → Bytes → Result String Bytes
  pub unseal : Bytes → Bytes → Bytes → Result String Bytes

-- What the crates document: key agreement is symmetric, and decryption undoes encryption.
pub record Sound (c : Crypto) : Type 0 where
  pub agreement :
      (a b : Bytes) → c.diffie_hellman a (c.public_of b) ≡ c.diffie_hellman b (c.public_of a)
  pub unseal-seal :
      (key nonce plaintext text : Bytes)
      → c.seal key nonce plaintext ≡ ok text
      → c.unseal key nonce text ≡ ok plaintext
