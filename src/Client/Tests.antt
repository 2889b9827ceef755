-- ===== src/Client/Tests.antt =====
-- The client at concrete files, calls and messages, on a relay that accepts everything.
use mathlib.Core.List.Permᴰ
use tintin.Prelude.{
  ℕ, arith, none, false, length, Every, ◌>>◌, ◌>>=◌, ◌+◌, ◌≡◌, refl, map, ◌⊎◌, inl, String, List,
  [], ◌∷◌, some, ok, err, text_eq,
}
use tintin.Prelude.Maps.{lookup}
use tintin.Prelude.Texts.{has}
use tintin.Core.Crypto.{Bytes}
use tintin.Core.Keys.{generate_key_pair}
use tintin.Core.Message.{ReceiptType}
use tintin.Client.Wire.{Payload, unwrap_or}
use tintin.Client.Contact.{parse_contact_uri, contact_uri, parse_contact_uri-contact_uri}
use tintin.Client.Files.{file_payloads, total_chunks_of}
use tintin.Client.Files.Assembly.{receive_all, receive_all-file_payloads}
use tintin.Client.State.{
  now, modify, Outside, Device, SentMessage, MessageStatus, ActiveCall, connected, Response,
  Request, no_downloads, ClientError,
}
use tintin.Client.Uploads.{LocalFile, send_file_inner, prepare, is_image, label}
use tintin.Client.Uploads.Announced.{send_file_inner_lem, send_each, Tells, count_from}
use tintin.Client.Sending.{
  tracked, send_message, transmit, content_for, post, send_encrypted, establish, encrypt_for,
  fetch_bundle, open_session, envelope_to, request_ok, from_core, wrapped,
}
use tintin.Client.Receiving.Arrival.{IsHeard, transmit-take_envelope}
use tintin.Core.Ratchet.{ratchet_initiator, encrypt_message, next_send_key}
use tintin.Core.Cipher.{encrypt, labelled}
use tintin.Prelude.Rows.{find, delete}
use tintin.Core.Session.{get, add, remove, session_initiator, session_encrypt}
use tintin.Core.Keys.{agree}
use tintin.Client.Sending.Outcome.{IsNoted, IsForgotten, send_message-IsNoted}
use tintin.Client.Receiving.{take_all, take_envelope, is_receipted}
use tintin.Client.Receiving.Batch.{take_all_malformed}
use tintin.Client.Receiving.Receipts.{Marks, take_envelope-Marks}
use tintin.Client.Edits.{edit_message}
use tintin.Client.Edits.Marked.{IsEdited, IsUnedited, edit_message-IsEdited}
use tintin.Client.Groups.{sync_groups}
use tintin.Client.Groups.Synced.{last_of, answer_to, sync_groups-lookup}
use tintin.Client.Calls.{with_call, new_call, start_call, accept_call, process_call_signal}
use tintin.Client.Calls.Keyed.{Reaches, Reaches-IsKeyed, start, perform}
use tintin.Client.Calls.Secret.{IsKeyed}
use tintin.Client.Calls.Handshake.{elsewhere}
use tintin.Client.Calls.Exchange.{start_call-accept_call, starts}
use tintin.Client.Toy.{toy_json_plain, toy_json, toy_json-Reads}
use tintin.Client.Toy.Codings.{toy_base64, toy_base64-Decodes}
use tintin.Client.Toy.Devices.{
  toy, toy-Sound, toy-Sized, toy_receipt, toy_codec, toy_codec-Faithful, toy_outside, alice, device,
  receipt_from_bob, note, first_offer, toy_codec-Readable, toy-Total, bob, bundle_of_bob, toy_relay,
  sent_or, first_to_bob,
}

parse_contact_uri-contact_uri_example :
    parse_contact_uri (contact_uri (λ b. "0a") "alice" (10 ∷ [])) ≡ some ("alice", "0a")
unfolding has
parse_contact_uri-contact_uri_example =
    parse_contact_uri-contact_uri (λ b. "0a") "alice" (10 ∷ []) refl refl

receive_all-file_payloads_example :
    receive_all toy_json toy_base64 "bob"
      (map toy_json.to_vec (file_payloads toy_base64 note (104 ∷ 105 ∷ 33 ∷ [])))
      no_downloads
    ≡ (ok tt, record { pending_files = []; written = ("note.txt", 104 ∷ 105 ∷ 33 ∷ []) ∷ [] })
unfolding total_chunks_of lookup
receive_all-file_payloads_example =
    receive_all-file_payloads toy_json toy_base64 "bob" note 104 (105 ∷ 33 ∷ [])
      (file_payloads toy_base64 note (104 ∷ 105 ∷ 33 ∷ [])) no_downloads toy_json-Reads
      toy_base64-Decodes (inl refl) refl (omega arith) refl
      (Permᴰ.refl (file_payloads toy_base64 note (104 ∷ 105 ∷ 33 ∷ [])))

-- A file of three bytes that is no image.
abbrev small_file : LocalFile
small_file = record {
  file_name = "a.txt";
  extension = "txt";
  contents = ok (104 ∷ 105 ∷ 33 ∷ []);
  shrink = λ bytes. none;
}

send_file_inner_lem_example :
    (sent : List Payload) × (send_file_inner toy_outside "bob" small_file "file" false "5" device
      ≡ (send_each toy_outside "bob" sent >> now toy_outside >>= λ timestamp. modify (
            tracked toy_outside "bob"
              (label toy_outside small_file "file" (104 ∷ 105 ∷ 33 ∷ []) none)
              timestamp))
          device)
    × (length sent ≡ 1)
    × Every (Tells 3 (length sent)) sent
    × (map (λ (p : Payload). p.chunk_index) sent ≡ map some (count_from 0 (length sent)))
unfolding prepare is_image
send_file_inner_lem_example =
    send_file_inner_lem toy_outside "bob" small_file "file" false "5" (104 ∷ 105 ∷ 33 ∷ []) none
      device refl

-- Bob's machine
abbrev at_bob : Outside ℕ
at_bob = elsewhere toy_outside (λ n. (n + 50) ∷ []) (λ n. n)

start_call-accept_call_example :
    (offer_text answer_text : String) × (placed taken : Device ℕ) × (offer answer
      final : ActiveCall)
    × (start_call toy_outside "bob" device ≡ send_message toy_outside "bob" offer_text placed)
    × (placed.me ≡ with_call (some offer) device.me)
    × ((start_call toy_outside "bob" device).1.me.active_call ≡ some offer)
    × (accept_call at_bob offer.call_id
          (process_call_signal at_bob "alice" (toy_outside.codec.as_bytes offer_text) device).1
        ≡ send_message at_bob "alice" answer_text taken)
    × (taken.me.active_call ≡ some answer)
    × ((process_call_signal toy_outside "bob"
          (toy_outside.codec.as_bytes answer_text)
          (start_call toy_outside "bob" device).1).1.me.active_call
        ≡ some final)
    × (answer.state ≡ connected)
    × (final.state ≡ connected)
    × (answer.peer ≡ "alice")
    × (final.peer ≡ "bob")
    × (answer.call_id ≡ offer.call_id)
    × (final.call_id ≡ offer.call_id)
    × (secret : Bytes) × (answer.shared_media_secret ≡ some secret)
    × (final.shared_media_secret ≡ some secret)
start_call-accept_call_example =
    start_call-accept_call toy_outside (λ n. (n + 50) ∷ []) (λ n. n) "alice" "bob" device device
      toy_codec-Faithful toy-Sized toy-Sound refl

started : (start_call toy_outside "bob" device).1 ≡ perform toy_outside (start "bob") device
unfolding perform
started = refl

Reaches-IsKeyed_example : IsKeyed toy first_offer
unfolding first_offer new_call
Reaches-IsKeyed_example =
    Reaches-IsKeyed toy_outside device (start_call toy_outside "bob" device).1 first_offer refl
      (Reaches.act Reaches.here (start "bob") started) (starts toy_outside "bob" device refl)

take_all_malformed_example :
    ((e : ClientError) × ((take_all toy_outside
          (ok receipt_from_bob ∷ err "bad" ∷ ok receipt_from_bob ∷ [])
          device).0
        ≡ err e))
    × (take_all toy_outside (ok receipt_from_bob ∷ err "bad" ∷ ok receipt_from_bob ∷ []) device
        ≡ take_all toy_outside (ok receipt_from_bob ∷ err "bad" ∷ []) device)
take_all_malformed_example =
    take_all_malformed toy_outside (ok receipt_from_bob ∷ []) (ok receipt_from_bob ∷ []) "bad"
      device

take_envelope-Marks_example :
    (after : List SentMessage) × (take_envelope toy_outside receipt_from_bob device
      ≡ (ok tt, record device { me = record alice { sent_messages = after } }))
    × Marks (is_receipted "bob" 77) MessageStatus.read alice.sent_messages after
unfolding toy_codec toy_receipt
take_envelope-Marks_example =
    take_envelope-Marks toy_outside receipt_from_bob
      (record {
        receipt_type = ReceiptType.read;
        original_sender = "alice";
        original_timestamp = 77;
      })
      device refl refl

send_message-IsNoted_example :
    IsNoted toy_outside "alice" "a note" device (send_message toy_outside "alice" "a note" device)
    ⊎ IsForgotten toy_outside "alice" "a note" device
        (send_message toy_outside "alice" "a note" device)
send_message-IsNoted_example = send_message-IsNoted toy_outside "alice" "a note" device

edit_message-IsEdited_example :
    IsEdited toy_outside 0 "bye" device (edit_message toy_outside 0 "bye" device)
    ⊎ IsUnedited toy_outside device (edit_message toy_outside 0 "bye" device)
edit_message-IsEdited_example = edit_message-IsEdited toy_outside 0 "bye" device

sync_groups-lookup_example :
    ((e : ClientError) × ((sync_groups toy_outside device).0 ≡ err e)
      × ((sync_groups toy_outside device).1.me ≡ alice))
    ⊎ ((resp : Response) × (answer_to toy_outside (Request.my_groups "alice") device ≡ ok resp)
        × ((sync_groups toy_outside device).0 ≡ ok tt)
        × ((id : String)
            → lookup id (sync_groups toy_outside device).1.me.groups
              ≡ last_of id (unwrap_or [] resp.groups)))
sync_groups-lookup_example = sync_groups-lookup toy_outside device

alice_sends_it : (transmit toy_relay "bob" "hi" device).0 ≡ ok first_to_bob
unfolding first_to_bob sent_or transmit content_for post send_encrypted establish fetch_bundle
    open_session from_core encrypt_for wrapped envelope_to request_ok session_initiator
    generate_key_pair agree ratchet_initiator session_encrypt encrypt_message next_send_key encrypt
    labelled get add remove find delete toy toy_codec toy_relay bob bundle_of_bob
alice_sends_it = refl

transmit-take_envelope_example :
    IsHeard toy_relay (λ n. (n + 50) ∷ []) (λ n. n) "alice" "hi" bob first_to_bob
unfolding fetch_bundle get find bob toy_relay toy_codec
transmit-take_envelope_example =
    transmit-take_envelope toy_relay (λ n. (n + 50) ∷ []) (λ n. n) "bob" "hi" bundle_of_bob
      first_to_bob 1 (9 ∷ []) device bob toy_codec-Readable toy-Total toy-Sound refl refl refl refl
      refl toy_json_plain alice_sends_it
