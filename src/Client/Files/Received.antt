-- ===== src/Client/Files/Received.antt =====
-- What one chunk of a file does to the downloads, and what the chunks are when all are there.
use tintin.Prelude.{
  ℕ, suc, ◌+◌, ◌<◌, ◌≤◌, ltb, ◌≡◌, refl, ◌∙◌, ap, Bool, true, false, String, List, [], ◌∷◌, ◌++◌,
  none, some, Result, ok, err, length, arith, ◌==◌, number_eq, text_eq, beq_refl, if◌then◌else◌,
  get_elem?, ◌⊎◌, inl, inr,
}
use tintin.Prelude.Maps.{HashMap, lookup, insert, remove, remove_absent, lookup-remove_other}
use tintin.Core.Crypto.{Bytes}
use tintin.Client.Wire.{PayloadJson, Base64, Reads, Decodes}
use tintin.Client.Files.{
  PendingFile, Downloads, Panic, division_by_zero, capacity_overflow, max_capacity, FileInfo,
  chunk_payload, reassemble, pending_entry, store_chunk, process_chunk, process_file_chunk,
  is_file_chunk,
}
use tintin.Client.Files.Chunks.{concat}

-- The chunks that stand at their indices come out one after the other.
pub reassemble-concat :
    (index : ℕ) (pieces : List Bytes) (received : HashMap ℕ Bytes)
    → ((j : ℕ) → lookup (index + j) received ≡ get_elem? pieces j)
    → reassemble index (length pieces) received ≡ concat pieces
unfolding reassemble
reassemble-concat index [] received h = refl
reassemble-concat index (piece ∷ pieces) received h =
    let here : lookup index received ≡ some piece =
      ap (λ k. lookup k received) (omega arith) ∙ h 0 in
    rw (here, reassemble)
      (ap (λ (r : Bytes). piece ++ r)
        (reassemble-concat (suc index) pieces (remove index received) (λ j.
          lookup-remove_other (suc index + j) index received (ground arith)
          ∙ ap (λ k. lookup k received) (omega arith)
          ∙ h (suc j))))

-- a file or a voice message
abbrev pub HasKind : FileInfo → Type 0
HasKind info = ((info.kind == "file") ≡ true) ⊎ ((info.kind == "voice") ≡ true)

module _ (base64 : Base64) (info : FileInfo) (base : HashMap String PendingFile)
    (written : List (String × Bytes)) where
  abbrev pub entry : HashMap ℕ Bytes → PendingFile
  entry received = record {
    file_name = info.file_name;
    file_size = info.file_size;
    total_chunks = info.total_chunks;
    received_chunks = received;
  }

  -- The downloads while the file is on its way, beside the other files.
  pub record Pending (received : HashMap ℕ Bytes) (s : Downloads) : Type 0 where
    pub entry_is :
        (index : ℕ) (chunk : Bytes)
        → pending_entry (chunk_payload base64 info index chunk) s ≡ entry received
    pub others : remove info.file_id s.pending_files ≡ base
    pub written_is : s.written ≡ written

  pub fresh-Pending :
      lookup info.file_id base ≡ none
      → Pending [] (record { pending_files = base; written = written })
  unfolding pending_entry chunk_payload
  fresh-Pending absent = record {
    entry_is = λ index chunk. rw absent refl;
    others = remove_absent info.file_id base absent;
    written_is = refl;
  }

  abbrev pub with_entry : HashMap ℕ Bytes → Downloads
  with_entry received = record {
    pending_files = (info.file_id, entry received) ∷ base;
    written = written;
  }

  pub with_entry-Pending :
      (received : HashMap ℕ Bytes)
      → lookup info.file_id base ≡ none
      → Pending received (with_entry received)
  unfolding pending_entry chunk_payload lookup remove
  with_entry-Pending received absent = record {
    entry_is = λ index chunk. rw (beq_refl info.file_id) refl;
    others = rw (beq_refl info.file_id) (remove_absent info.file_id base absent);
    written_is = refl;
  }

  abbrev pub stored : HashMap ℕ Bytes → Result Panic Bool × Downloads
  stored received =
      if length received == info.total_chunks
      then (if ltb max_capacity info.file_size
          then (err capacity_overflow, with_entry received)
          else (
            ok true,
            record {
              pending_files = base;
              written = written ++ (info.file_name, reassemble 0 info.total_chunks received) ∷ [];
            },
          ))
      else if info.total_chunks == 0
      then (err division_by_zero, with_entry received)
      else (ok true, with_entry received)

  -- `store_chunk` as it depends on the entry and on the rest of the downloads
  abbrev stored_with :
      ℕ
      → Bytes
      → PendingFile
      → HashMap String PendingFile
      → List (String × Bytes)
      → Result Panic Bool × Downloads
  stored_with index chunk found rest before =
      let received = insert index chunk found.received_chunks in
      let pending = (info.file_id, record found { received_chunks = received }) ∷ rest in
      if length received == found.total_chunks
      then (if ltb max_capacity found.file_size
          then (err capacity_overflow, record { pending_files = pending; written = before })
          else (
            ok true,
            record {
              pending_files = remove info.file_id pending;
              written = before ++ (found.file_name, reassemble 0 found.total_chunks received) ∷ [];
            },
          ))
      else if found.total_chunks == 0
      then (err division_by_zero, record { pending_files = pending; written = before })
      else (ok true, record { pending_files = pending; written = before })

  store_chunk_lem :
      (index : ℕ) (chunk : Bytes) (received : HashMap ℕ Bytes) (s : Downloads)
      → lookup info.file_id base ≡ none
      → Pending received s
      → store_chunk (chunk_payload base64 info index chunk) chunk s
        ≡ stored (insert index chunk received)
  unfolding store_chunk chunk_payload insert remove
  store_chunk_lem index chunk received s absent p =
      let alone = remove_absent info.file_id base absent in
      ap (λ found. stored_with index chunk found (remove info.file_id s.pending_files) s.written)
        (p.entry_is index chunk)
      ∙ ap (λ rest. stored_with index chunk (entry received) rest s.written) p.others
      ∙ ap (λ before. stored_with index chunk (entry received) base before) p.written_is
      ∙ rw (beq_refl info.file_id) (rw alone refl)

  pub stored_complete :
      (received : HashMap ℕ Bytes)
      → length received ≡ info.total_chunks
      → info.file_size ≤ max_capacity
      → stored received ≡ (
        ok true,
        record {
          pending_files = base;
          written = written ++ (info.file_name, reassemble 0 info.total_chunks received) ∷ [];
        },
      )
  stored_complete received h fits =
      let full : (length received == info.total_chunks) ≡ true = ground arith in
      let allowed : ltb max_capacity info.file_size ≡ false = ground arith in
      rw full (rw allowed refl)

  pub stored_partial :
      (received : HashMap ℕ Bytes)
      → length received < info.total_chunks
      → stored received ≡ (ok true, with_entry received)
  stored_partial received h =
      let part : (length received == info.total_chunks) ≡ false = ground arith in
      let some_chunks : (info.total_chunks == 0) ≡ false = ground arith in
      rw part (rw some_chunks refl)

  is_file_chunk_lem :
      (index : ℕ) (chunk : Bytes)
      → HasKind info
      → is_file_chunk (chunk_payload base64 info index chunk) ≡ true
  unfolding chunk_payload
  is_file_chunk_lem index chunk (inl file) = rw file refl
  is_file_chunk_lem index chunk (inr voice) = rw voice (ground arith)

  process_chunk_lem :
      (index : ℕ) (chunk : Bytes) (s : Downloads)
      → Decodes base64
      → process_chunk base64 (chunk_payload base64 info index chunk) s
        ≡ store_chunk (chunk_payload base64 info index chunk) chunk s
  unfolding process_chunk chunk_payload
  process_chunk_lem index chunk s decodes = rw (decodes.decode-encode chunk, process_chunk) refl

  pub process_file_chunk_lem :
      (json : PayloadJson) (sender : String) (index : ℕ) (chunk : Bytes)
      (received : HashMap ℕ Bytes) (s : Downloads)
      → Reads json
      → Decodes base64
      → HasKind info
      → lookup info.file_id base ≡ none
      → Pending received s
      → process_file_chunk json base64 sender
          (json.to_vec (chunk_payload base64 info index chunk))
          s
        ≡ stored (insert index chunk received)
  unfolding process_file_chunk
  process_file_chunk_lem json sender index chunk received s reads decodes kind absent p =
      rw (reads.from_slice-to_vec (chunk_payload base64 info index chunk), process_file_chunk)
        (rw (is_file_chunk_lem index chunk kind) (
          process_chunk_lem index chunk s decodes
          ∙ store_chunk_lem index chunk received s absent p))
