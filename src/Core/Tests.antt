-- ===== src/Core/Tests.antt =====
-- A small stand-in for the cryptography, and the library at concrete sessions.
use tintin.Prelude.{
  ℕ, ◌+◌, ◌≡◌, refl, Bool, true, false, if◌then◌else◌, ◌==◌, number_eq, text_eq, beq_refl, List, [],
  ◌∷◌, ◌++◌, some, Result, ok, err, arith, length, String,
}
use mathlib.Core.Path.{subst}
use tintin.Prelude.Rows.{exists}
use tintin.Core.Crypto.{Bytes, Crypto, Sound}
use tintin.Core.Keys.{KeyPair, IdentityKeyPair, generate_signed_pre_key}
use tintin.Core.Cipher.{decrypt, derive_chain_keys}
use tintin.Core.Ratchet.{
  Ratchet, RatchetedMessage, zero_key, ratchet_responder, encrypt_message, decrypt_message,
}
use tintin.Core.Ratchet.InSync.{Total}
use tintin.Core.Ratchet.Rotation.{
  ratchet_key_kept, next-after_rejected, Turn, say, hear, converse, eavesdrop,
  replies_open_to_anyone,
}
use tintin.Core.Session.{
  Session, SessionStore, initiator, responder, session_initiator, session_responder,
  protocol_version, get, add, is_for,
}
use tintin.Core.Session.Lookup.{get-add, HasOnePerPeer}
use tintin.Core.Session.Delivery.{
  World, Event, alice_sends, bob_sends, alice_reads, bob_reads, run, written_by_alice,
  written_by_bob,
}
use tintin.Core.Session.Delivery.Flow.{conversation_delivers, opened}

sum : Bytes → ℕ
sum [] = 0
sum (x ∷ xs) = x + sum xs

-- the first byte of a text names the key
toy_unseal : ℕ → Bytes → Result String Bytes
toy_unseal key [] = err "too short"
toy_unseal key (k ∷ text) = if k == key then ok text else err "wrong key"

abbrev toy : Crypto
unfolding sum toy_unseal
toy = record {
  public_of = λ secret. secret;
  diffie_hellman = λ secret public. (sum secret + sum public) ∷ [];
  sha256 = λ text. text;
  sha512 = λ text. text;
  hkdf_expand = λ salt ikm info n. ikm ++ info;
  seal = λ key nonce text. ok (sum key ∷ text);
  unseal = λ key nonce text. toy_unseal (sum key) text;
}

toy-Total : Total toy
unfolding toy
toy-Total = record { seals = λ key nonce text. (sum key ∷ text, refl) }

toy_opens :
    (key nonce plaintext text : Bytes)
    → toy.seal key nonce plaintext ≡ ok text
    → toy.unseal key nonce text ≡ ok plaintext
unfolding toy_unseal toy sum
toy_opens key nonce plaintext text e =
    let same : sum key ∷ plaintext ≡ text = cc in
    subst (λ x. toy_unseal (sum key) x ≡ ok plaintext) same (rw (beq_refl (sum key)) refl)

toy-Sound : Sound toy
unfolding toy sum
toy-Sound = record { agreement = λ a b. ground arith; unseal-seal = toy_opens }

abbrev alice_identity : IdentityKeyPair
alice_identity = record { key_pair = record { secret = 1 ∷ []; public = 1 ∷ [] } }

abbrev bob_identity : IdentityKeyPair
bob_identity = record { key_pair = record { secret = 2 ∷ []; public = 2 ∷ [] } }

abbrev fresh_ratchet : KeyPair → Bytes → Bytes → Bytes → Bool → Ratchet
fresh_ratchet pair theirs send recv is_initiator = record {
  dh_ratchet_key = pair;
  their_ratchet_key = theirs;
  root_key = 7 ∷ 3 ∷ [];
  send_chain_key = send;
  recv_chain_key = recv;
  send_msg_number = 0;
  recv_msg_number = 0;
  prev_send_count = 0;
  max_skip = 100;
  is_initiator = is_initiator;
}

abbrev alice_session : Session
alice_session = record {
  remote_user_id = "bob";
  remote_device_id = 1;
  role = initiator;
  our_identity = alice_identity;
  their_identity = 2 ∷ [];
  ratchet = fresh_ratchet (record { secret = 3 ∷ []; public = 3 ∷ [] }) (4 ∷ []) [] zero_key true;
  version = protocol_version;
}

abbrev bob_session : Session
bob_session = record {
  remote_user_id = "alice";
  remote_device_id = 1;
  role = responder;
  our_identity = bob_identity;
  their_identity = 1 ∷ [];
  ratchet = fresh_ratchet (record { secret = 4 ∷ []; public = 4 ∷ [] }) (3 ∷ []) zero_key [] false;
  version = protocol_version;
}

-- Two texts to Bob, of which he reads one, and an answer that Alice reads.
abbrev chat : List Event
chat =
    alice_sends (9 ∷ []) (72 ∷ [])
    ∷ alice_sends (8 ∷ []) (73 ∷ [])
    ∷ bob_reads
    ∷ bob_sends (7 ∷ []) (74 ∷ [])
    ∷ alice_reads
    ∷ []

conversation_delivers_example :
    (w : World) × (run toy chat (opened alice_session bob_session) ≡ some w)
    × (to_bob : List Bytes) × (written_by_alice chat ≡ w.to_bob.read ++ to_bob)
    × (length to_bob ≡ length w.to_bob.queue)
    × (to_alice : List Bytes) × (written_by_bob chat ≡ w.to_alice.read ++ to_alice)
    × (length to_alice ≡ length w.to_alice.queue)
unfolding toy sum session_initiator session_responder generate_signed_pre_key derive_chain_keys
conversation_delivers_example =
    conversation_delivers toy toy-Total toy-Sound (3 ∷ []) (4 ∷ []) alice_identity bob_identity
      "alice" "bob" 1 1 5 (1 ∷ []) (2 ∷ []) alice_session bob_session chat refl refl

abbrev two_sessions : SessionStore
two_sessions = record { sessions = alice_session ∷ bob_session ∷ [] }

two_sessions-HasOnePerPeer : HasOnePerPeer two_sessions
unfolding exists
two_sessions-HasOnePerPeer = (refl, (refl, tt))

get-add_example :
    get (add two_sessions bob_session) "bob" 1
    ≡ (if is_for "bob" 1 bob_session then some bob_session else get two_sessions "bob" 1)
get-add_example = get-add two_sessions bob_session "bob" 1

abbrev message : Bytes → RatchetedMessage
message text = record {
  ratchet_key = 3 ∷ [];
  ciphertext = text;
  nonce = 9 ∷ [];
  message_number = 0;
  previous_count = 0;
}

-- A message is heard first, and one under a new ratchet key between the replies.
abbrev replies : List Turn
replies =
    hear (message (7 ∷ []))
    ∷ say (9 ∷ []) (72 ∷ [])
    ∷ hear (record (message (8 ∷ [])) { ratchet_key = 5 ∷ [] })
    ∷ say (9 ∷ []) (73 ∷ [])
    ∷ []

replies_open_to_anyone_example :
    (ms : List RatchetedMessage) × ((converse toy replies
        (ratchet_responder toy (7 ∷ []) (3 ∷ []) (record { secret = 4 ∷ []; public = 4 ∷ [] }))).0
      ≡ ok ms)
    × (eavesdrop toy zero_key ms ≡ ok ((72 ∷ []) ∷ (73 ∷ []) ∷ []))
replies_open_to_anyone_example =
    replies_open_to_anyone toy toy-Total toy-Sound (7 ∷ []) (3 ∷ [])
      (record { secret = 4 ∷ []; public = 4 ∷ [] }) replies

next-after_rejected_example :
    (decrypt_message toy
      (message (3 ∷ 72 ∷ []))
      (decrypt_message toy (message []) bob_session.ratchet).1).0
    ≡ decrypt toy (3 ∷ 72 ∷ []) (toy.sha256 (1 ∷ toy.sha256 (2 ∷ []))) (9 ∷ [])
next-after_rejected_example =
    next-after_rejected toy bob_session.ratchet (message []) (message (3 ∷ 72 ∷ [])) refl refl

ratchet_key_kept_example :
    ((encrypt_message toy (9 ∷ []) (72 ∷ []) alice_session.ratchet).1.dh_ratchet_key
      ≡ alice_session.ratchet.dh_ratchet_key)
    × ((encrypt_message toy (9 ∷ []) (72 ∷ []) alice_session.ratchet).1.prev_send_count ≡ 0)
    × ((decrypt_message toy (message []) alice_session.ratchet).1.dh_ratchet_key
        ≡ alice_session.ratchet.dh_ratchet_key)
    × ((decrypt_message toy (message []) alice_session.ratchet).1.prev_send_count ≡ 0)
ratchet_key_kept_example =
    ratchet_key_kept toy alice_session.ratchet (9 ∷ []) (72 ∷ []) (message [])
