-- ===== src/Client/Files.antt =====
-- Files in chunks, of tintin-cli/src/main.rs: how a file is cut into payloads, and how the receiver
-- puts the chunks together. `file_id` is the name that `send_file_inner` makes from the clock.
pub mod Chunks
pub mod Received
pub mod Payloads
pub mod Assembly
use tintin.Prelude.{
  ℕ, zero, suc, ◌+◌, ◌-◌, ◌*◌, ◌/◌, Bool, true, false, ◌||◌, ◌&&◌, String, List, [], ◌∷◌, ◌++◌, map,
  Option, none, some, Result, ok, err, Exec, length, take, drop, ltb, ◌==◌, number_eq, text_eq,
  if◌then◌else◌,
}
use tintin.Prelude.Maps.{HashMap, lookup, insert, remove}
use tintin.Core.Crypto.{Bytes}
use tintin.Client.Wire.{Payload, PayloadJson, Base64, blank, unwrap_or}

pub record PendingFile : Type 0 where
  pub file_name : String
  pub file_size : ℕ
  pub total_chunks : ℕ
  pub received_chunks : HashMap ℕ Bytes

-- The files that arrive, and what `std::fs::write` was asked to write, by the name that is joined to
-- the downloads folder, in order.
pub record Downloads : Type 0 where
  pub pending_files : HashMap String PendingFile
  pub written : List (String × Bytes)

-- What ends the client: a division by zero, or a vector that is asked to hold more bytes than any can.
pub data Panic : Type 0 where
  division_by_zero capacity_overflow : Panic

-- `isize::MAX`, the most bytes that `Vec::with_capacity` takes where a pointer has 64 bits
abbrev pub max_capacity : ℕ
max_capacity = 9223372036854775807

-- 256 KB
abbrev pub chunk_size : ℕ
chunk_size = 262144

unfoldable pub chunks_within : ℕ → ℕ → Bytes → List Bytes
chunks_within zero size bytes = []
chunks_within (suc fuel) size [] = []
chunks_within (suc fuel) size (b ∷ bytes) =
    take size (b ∷ bytes) ∷ chunks_within fuel size (drop size (b ∷ bytes))

-- `slice::chunks`; no more chunks than bytes
unfoldable pub chunks : ℕ → Bytes → List Bytes
unfolding chunks_within
chunks size bytes = chunks_within (length bytes) size bytes

unfoldable pub total_chunks_of : Bytes → ℕ
total_chunks_of file_data =
    if length file_data == 0 then 1 else (length file_data + chunk_size - 1) / chunk_size

-- What the chunks of one file have in common.
pub record FileInfo : Type 0 where
  pub kind : String  -- "file" or "voice"
  pub file_id : String
  pub file_name : String
  pub file_size : ℕ
  pub total_chunks : ℕ
  pub is_image : Bool
  pub thumbnail : Option String

module _ (base64 : Base64) where
  -- the thumbnail goes with the first chunk
  unfoldable pub chunk_payload : FileInfo → ℕ → Bytes → Payload
  chunk_payload info index chunk = record blank {
    tintin_type = some info.kind;
    file_id = some info.file_id;
    file_name = some info.file_name;
    file_size = some info.file_size;
    total_chunks = some info.total_chunks;
    chunk_index = some index;
    body = some (base64.encode chunk);
    is_image = some info.is_image;
    thumbnail = if index == 0 then info.thumbnail else none;
  }

  -- `chunks(..).enumerate()`, from an index on
  unfoldable pub payloads_from : FileInfo → ℕ → List Bytes → List Payload
  unfolding chunk_payload
  payloads_from info index [] = []
  payloads_from info index (chunk ∷ rest) =
      chunk_payload info index chunk ∷ payloads_from info (suc index) rest

  unfoldable pub file_payloads : FileInfo → Bytes → List Payload
  unfolding payloads_from chunks
  file_payloads info file_data = payloads_from info 0 (chunks chunk_size file_data)

-- the loop that puts the chunks together; a chunk that is missing is left out
unfoldable pub reassemble : ℕ → ℕ → HashMap ℕ Bytes → Bytes
unfolding lookup remove
reassemble index zero received = []
reassemble index (suc left) received = elim (lookup index received) [
  | none ↦ reassemble (suc index) left received
  | some chunk ↦ chunk ++ reassemble (suc index) left (remove index received)
]

-- `pending_files.entry(file_id).or_insert_with(..)`
unfoldable pub pending_entry : Payload → Downloads → PendingFile
unfolding lookup
pending_entry payload s =
    unwrap_or
      (record {
        file_name = unwrap_or "unknown" payload.file_name;
        file_size = unwrap_or 0 payload.file_size;
        total_chunks = unwrap_or 0 payload.total_chunks;
        received_chunks = [];
      })
      (lookup (unwrap_or "" payload.file_id) s.pending_files)

-- A chunk whose base64 is decoded. The size that the sender tells is allocated before the chunks are
-- put together; that memory runs out is not modelled.
unfoldable pub store_chunk : Payload → Bytes → Exec Downloads Panic Bool
unfolding pending_entry insert remove reassemble
store_chunk payload chunk_data s =
    let file_id = unwrap_or "" payload.file_id in
    let entry = pending_entry payload s in
    let received = insert (unwrap_or 0 payload.chunk_index) chunk_data entry.received_chunks in
    let kept = record s {
      pending_files = insert file_id (record entry { received_chunks = received }) s.pending_files;
    } in
    if length received == entry.total_chunks
    then (if ltb max_capacity entry.file_size then (err capacity_overflow, kept) else (
      ok true,
      record {
        pending_files = remove file_id kept.pending_files;
        written = s.written ++ (entry.file_name, reassemble 0 entry.total_chunks received) ∷ [];
      },
    ))
    else if entry.total_chunks == 0
    then (err division_by_zero, kept)
    else (ok true, kept)

abbrev pub is_text : String → Option String → Bool
is_text t none = false
is_text t (some s) = s == t

abbrev pub is_file_chunk : Payload → Bool
is_file_chunk payload = is_text "file" payload.tintin_type || is_text "voice" payload.tintin_type

module _ (base64 : Base64) where
  unfoldable pub process_chunk : Payload → Exec Downloads Panic Bool
  unfolding store_chunk
  process_chunk payload s = elim (base64.decode (unwrap_or "" payload.body)) [
    | err malformed ↦ (ok true, s)
    | ok chunk_data ↦ store_chunk payload chunk_data s
  ]

-- The result says whether it was a chunk.
module _ (json : PayloadJson) (base64 : Base64) where
  unfoldable pub process_file_chunk : String → Bytes → Exec Downloads Panic Bool
  unfolding process_chunk
  process_file_chunk sender plaintext s = elim (json.from_slice plaintext) [
    | none ↦ (ok false, s)
    | some payload ↦ if is_file_chunk payload then process_chunk base64 payload s else (ok false, s)
  ]
