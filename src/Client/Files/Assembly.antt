-- ===== src/Client/Files/Assembly.antt =====
-- A whole file, its chunks in any order.
use mathlib.Core.List.{Permᴰ}
use tintin.Prelude.{
  ℕ, ◌+◌, ◌≤◌, ◌<◌, ◌≡◌, refl, sym, ◌∙◌, ap, true, false, String, List, [], ◌∷◌, ◌++◌, map, none,
  ok, Exec, pure, ◌>>=◌, >>=-ok, length, arith, ◌==◌, number_eq, nat_beq_iff, text_eq, beq_refl,
  get_elem?, Bool-cases, inl, inr, Every,
}
use tintin.Prelude.Rows.{exists, Distinct}
use tintin.Prelude.Shuffles.{Every-shuffle, Distinct-shuffle, exists-shuffle, length-shuffle}
use tintin.Prelude.Maps.{
  HashMap, lookup, insert, lookup-insert_self, lookup-insert_other, length-insert_new,
}
use tintin.Core.Crypto.{Bytes}
use tintin.Client.Wire.{Payload, PayloadJson, Base64, Reads, Decodes}
use tintin.Client.Files.{
  max_capacity, max_capacity, PendingFile, Downloads, Panic, FileInfo, payloads_from, file_payloads,
  chunks, chunk_size, total_chunks_of, reassemble, process_file_chunk,
}
use tintin.Client.Files.Chunks.{concat, concat-chunks, length-chunks, chunks_positive}
use tintin.Client.Files.Received.{
  reassemble-concat, Pending, fresh-Pending, with_entry, with_entry-Pending, stored,
  stored_complete, stored_partial, HasKind, process_file_chunk_lem,
}
use tintin.Client.Files.Payloads.{
  Genuine, index_of, same_index, payloads_from-Genuine, payloads_from-Distinct,
  payloads_from-covers, length-payloads_from,
}

-- Chunks that come in one after the other.
unfoldable pub receive_all :
    PayloadJson → Base64 → String → List Bytes → Exec Downloads Panic (Unit {0})
unfolding process_file_chunk
receive_all json base64 sender [] = pure tt
receive_all json base64 sender (plaintext ∷ rest) =
    process_file_chunk json base64 sender plaintext >>= λ _. receive_all json base64 sender rest

module _ (json : PayloadJson) (base64 : Base64) (sender : String) (info : FileInfo)
    (pieces : List Bytes) (base : HashMap String PendingFile) (written : List (String × Bytes))
    (reads : Reads json) (decodes : Decodes base64) (kind : HasKind info)
    (absent : lookup info.file_id base ≡ none) (total : info.total_chunks ≡ length pieces)
    (fits : info.file_size ≤ max_capacity) where
  abbrev OnItsWay : HashMap ℕ Bytes → Downloads → Type 0
  OnItsWay = Pending base64 info base written

  one :
      (p : Payload) (received : HashMap ℕ Bytes) (s : Downloads) (g : Genuine base64 info pieces p)
      → OnItsWay received s
      → process_file_chunk json base64 sender (json.to_vec p) s
        ≡ stored base64 info base written (insert (index_of p) g.0 received)
  one p received s g pending =
      ap (λ q. process_file_chunk json base64 sender (json.to_vec q) s) g.1
      ∙ process_file_chunk_lem base64 info base written json sender (index_of p) g.0 received s
          reads decodes kind absent pending

  -- What is known when some of the chunks, `rest`, are still to come.
  record Expects (rest : List Payload) (received : HashMap ℕ Bytes) : Type 0 where
    genuine : Every (Genuine base64 info pieces) rest
    distinct : Distinct same_index rest
    missing : (i : ℕ) → exists (λ p. i == index_of p) rest ≡ true → lookup i received ≡ none
    present :
        (i : ℕ)
        → exists (λ p. i == index_of p) rest ≡ false
        → lookup i received ≡ get_elem? pieces i
    counted : length received + length rest ≡ length pieces

  next-Expects :
      (p : Payload) (rest : List Payload) (received : HashMap ℕ Bytes)
      → (h : Expects (p ∷ rest) received)
      → Expects rest (insert (index_of p) h.genuine.0.0 received)
  unfolding exists
  next-Expects p rest received h = record {
    genuine = h.genuine.1;
    distinct = h.distinct.1;
    missing = λ i there. elim (Bool-cases (i == index_of p)) [
      | inl same ↦
          let e = (nat_beq_iff i (index_of p)).0 same in
          let here = ap (λ k. exists (λ q. k == index_of q) rest) e in
          absurd (ground (arith, h.distinct.0, here, there))
      | inr other ↦
          lookup-insert_other i (index_of p) h.genuine.0.0 received other
          ∙ h.missing i (rw other there)
    ];
    present = λ i gone. elim (Bool-cases (i == index_of p)) [
      | inl same ↦
          let e = (nat_beq_iff i (index_of p)).0 same in
          ap (λ k. lookup k (insert (index_of p) h.genuine.0.0 received)) e
          ∙ lookup-insert_self (index_of p) h.genuine.0.0 received
          ∙ sym h.genuine.0.2
          ∙ ap (λ k. get_elem? pieces k) (sym e)
      | inr other ↦
          lookup-insert_other i (index_of p) h.genuine.0.0 received other
          ∙ h.present i (rw other gone)
    ];
    counted = omega (
      arith,
      length-insert_new (index_of p) h.genuine.0.0 received
          (h.missing (index_of p) (rw (beq_refl (index_of p)) refl)),
      h.counted,
    );
  }

  all_present :
      (received : HashMap ℕ Bytes)
      → Expects [] received
      → (j : ℕ) → lookup (0 + j) received ≡ get_elem? pieces j
  unfolding exists
  all_present received h j =
      let same : 0 + j ≡ j = omega arith in ap (λ k. lookup k received) same ∙ h.present j refl

  from_zero :
      (i : ℕ)
      → exists (λ p. i == index_of p) (payloads_from base64 info 0 pieces) ≡ false
      → exists (λ p. (0 + i) == index_of p) (payloads_from base64 info 0 pieces) ≡ false
  from_zero i h =
      let same : 0 + i ≡ i = omega arith in
      ap (λ k. exists (λ p. k == index_of p) (payloads_from base64 info 0 pieces)) same ∙ h

  first-Expects :
      (arrivals : List Payload)
      → Permᴰ arrivals (payloads_from base64 info 0 pieces)
      → Expects arrivals []
  unfolding lookup
  first-Expects arrivals shuffled = record {
    genuine = Every-shuffle (Genuine base64 info pieces) shuffled (
        payloads_from-Genuine base64 info pieces pieces 0
          (λ j. ap (λ i. get_elem? pieces i) (omega arith)));
    distinct =
        Distinct-shuffle same_index (λ x y. ground arith) shuffled
          (payloads_from-Distinct base64 info pieces 0);
    missing = λ i there. refl;
    present = λ i gone.
        let sent = sym (exists-shuffle (λ p. i == index_of p) shuffled) ∙ gone in
        sym (payloads_from-covers base64 info pieces 0 i (from_zero i sent));
    counted = omega (arith, length-shuffle shuffled, length-payloads_from base64 info pieces 0);
  }

  arrive :
      (rest : List Payload) (received : HashMap ℕ Bytes) (s : Downloads)
      → OnItsWay received s
      → Expects rest received
      → 1 ≤ length rest
      → receive_all json base64 sender (map json.to_vec rest) s ≡ (
        ok tt,
        record { pending_files = base; written = written ++ (info.file_name, concat pieces) ∷ [] },
      )
  unfolding receive_all
  arrive [] received s pending h more = absurd (omega arith)
  arrive (p ∷ []) received s pending h more =
      let all = next-Expects p [] received h in
      let r = insert (index_of p) h.genuine.0.0 received in
      let full : length r ≡ info.total_chunks = omega (arith, all.counted, total) in
      let pieces_there : reassemble 0 info.total_chunks r ≡ concat pieces =
        rw total (reassemble-concat 0 pieces r (all_present r all)) in
      >>=-ok (process_file_chunk json base64 sender (json.to_vec p)) (λ _. pure tt)
        (one p received s h.genuine.0 pending
          ∙ stored_complete base64 info base written r full fits)
      ∙ ap
          (λ (bytes : Bytes). (
            ok tt,
            record { pending_files = base; written = written ++ (info.file_name, bytes) ∷ [] },
          ))
          pieces_there
  arrive (p ∷ q ∷ rest) received s pending h more =
      let then_rest = next-Expects p (q ∷ rest) received h in
      let r = insert (index_of p) h.genuine.0.0 received in
      let part : length r < info.total_chunks = omega (arith, then_rest.counted, total) in
      >>=-ok (process_file_chunk json base64 sender (json.to_vec p))
        (λ _. receive_all json base64 sender (map json.to_vec (q ∷ rest)))
        (one p received s h.genuine.0 pending ∙ stored_partial base64 info base written r part)
      ∙ arrive (q ∷ rest) r (with_entry base64 info base written r)
          (with_entry-Pending base64 info base written r absent) then_rest (omega arith)

-- The chunks of a file that is not empty and whose size fits in a vector, handed in any order to a
-- client that has no pending file of that name, leave the other pending files as they were, and exactly the file's bytes are written,
-- once, under its name.
pub receive_all-file_payloads :
    (json : PayloadJson) (base64 : Base64) (sender : String) (info : FileInfo) (b : ℕ)
    (rest : Bytes) (arrivals : List Payload) (s : Downloads)
    → Reads json
    → Decodes base64
    → HasKind info
    → info.total_chunks ≡ total_chunks_of (b ∷ rest)
    → info.file_size ≤ max_capacity
    → lookup info.file_id s.pending_files ≡ none
    → Permᴰ arrivals (file_payloads base64 info (b ∷ rest))
    → receive_all json base64 sender (map json.to_vec arrivals) s
      ≡ (ok tt, record s { written = s.written ++ (info.file_name, b ∷ rest) ∷ [] })
unfolding file_payloads
receive_all-file_payloads json base64 sender info b rest arrivals s reads decodes kind total fits
      absent shuffled =
    let bytes : Bytes = b ∷ rest in
    let pieces = chunks chunk_size bytes in
    let sent = total ∙ sym (length-chunks.0 b rest) in
    let base = s.pending_files in
    let first =
      first-Expects json base64 sender info pieces base s.written reads decodes kind absent sent
        fits arrivals shuffled in
    arrive json base64 sender info pieces base s.written reads decodes kind absent sent fits
      arrivals [] s (fresh-Pending base64 info base s.written absent) first
      (omega (
        arith,
        length-shuffle shuffled,
        length-payloads_from base64 info pieces 0,
        chunks_positive b rest,
      ))
    ∙ ap
        (λ (content : Bytes).
          (ok tt, record s { written = s.written ++ (info.file_name, content) ∷ [] }))
        (concat-chunks 262143 bytes)
