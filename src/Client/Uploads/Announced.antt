-- ===== src/Client/Uploads/Announced.antt =====
-- What a file's messages announce, and how many they are.
use mathlib.Core.List.{foldr}
use tintin.Prelude.{
  ℕ, zero, suc, ◌+◌, ◌/◌, ◌≡◌, refl, sym, ap, ◌∙◌, Bool, String, List, [], ◌∷◌, map, Option, some,
  ok, pure, ◌>>=◌, ◌>>◌, Every, length, arith,
}
use mathlib.Core.Path.{subst}
use tintin.Core.Crypto.{Bytes}
use tintin.Client.Wire.{Payload}
use tintin.Client.Files.{
  FileInfo, chunks, chunks_within, chunk_size, chunk_payload, payloads_from, file_payloads,
  total_chunks_of,
}
use tintin.Client.Files.Chunks.{length-chunks, total_chunks_of_bytes}
use tintin.Client.Files.Payloads.{length-payloads_from}
use tintin.Client.State.{Outside, Device, Run, modify, now}
use tintin.Client.Sending.{tracked}
use tintin.Client.Groups.{send_copy}
use tintin.Client.Uploads.{LocalFile, prepare, send_chunks, label, info_for, send_file_inner}

-- `n` numbers from `k` on
abbrev pub count_from : ℕ → ℕ → List ℕ
count_from k zero = []
count_from k (suc n) = k ∷ count_from (suc k) n

-- A payload tells how many bytes the file has and in how many chunks it comes.
abbrev pub Tells : ℕ → ℕ → Payload → Type 0
Tells size total p = (p.file_size ≡ some size) × (p.total_chunks ≡ some total)

module _ {R : Type 0} (o : Outside R) where
  -- one message after the other, until one fails
  abbrev pub send_each : String → List Payload → Run R (Unit {0})
  send_each recipient =
      foldr (λ p rest. send_copy o (o.codec.payloads.to_vec p) recipient >> rest) (pure tt)

  send_chunks-send_each :
      (recipient : String) (ps : List Payload) → send_chunks o recipient ps ≡ send_each recipient ps
  unfolding send_chunks
  send_chunks-send_each recipient [] = refl
  send_chunks-send_each recipient (p ∷ ps) =
      ap (λ (rest : Run R (Unit {0})). send_copy o (o.codec.payloads.to_vec p) recipient >> rest)
        (send_chunks-send_each recipient ps)

  payloads_from-Tells :
      (info : FileInfo) (k : ℕ) (pieces : List Bytes)
      → Every (Tells info.file_size info.total_chunks) (payloads_from o.codec.base64 info k pieces)
  unfolding payloads_from chunk_payload
  payloads_from-Tells info k [] = tt
  payloads_from-Tells info k (piece ∷ pieces) =
      ((refl, refl), payloads_from-Tells info (suc k) pieces)

  payloads_from-indices :
      (info : FileInfo) (k : ℕ) (pieces : List Bytes)
      → map (λ (p : Payload). p.chunk_index) (payloads_from o.codec.base64 info k pieces)
        ≡ map some (count_from k (length (payloads_from o.codec.base64 info k pieces)))
  unfolding payloads_from chunk_payload
  payloads_from-indices info k [] = refl
  payloads_from-indices info k (piece ∷ pieces) =
      ap (λ (l : List (Option ℕ)). some k ∷ l) (payloads_from-indices info (suc k) pieces)

  -- the messages of a file
  abbrev sent_for : LocalFile → String → String → Bytes → Option String → List Payload
  sent_for file kind nanos file_data thumbnail =
      file_payloads o.codec.base64 (info_for o file kind nanos file_data thumbnail) file_data

  length-sent_for :
      (file : LocalFile) (kind nanos : String) (file_data : Bytes) (thumbnail : Option String)
      → length (sent_for file kind nanos file_data thumbnail) ≡ (length file_data + 262143) / 262144
  unfolding file_payloads
  length-sent_for file kind nanos [] thumbnail =
      length-payloads_from o.codec.base64 (info_for o file kind nanos [] thumbnail)
        (chunks chunk_size []) 0
      ∙ ap (λ (l : List Bytes). length l) length-chunks.2
      ∙ omega arith
  length-sent_for file kind nanos (b ∷ rest) thumbnail =
      length-payloads_from o.codec.base64 (info_for o file kind nanos (b ∷ rest) thumbnail)
        (chunks chunk_size (b ∷ rest)) 0
      ∙ length-chunks.0 b rest
      ∙ total_chunks_of_bytes b rest
      ∙ omega arith

  sent_for-Tells :
      (file : LocalFile) (kind nanos : String) (file_data : Bytes) (thumbnail : Option String)
      → Every
          (Tells (length file_data) (length (sent_for file kind nanos file_data thumbnail)))
          (sent_for file kind nanos file_data thumbnail)
  unfolding file_payloads info_for payloads_from chunks chunks_within
  sent_for-Tells file kind nanos [] thumbnail = tt
  sent_for-Tells file kind nanos (b ∷ rest) thumbnail =
      let info = info_for o file kind nanos (b ∷ rest) thumbnail in
      let as_announced : total_chunks_of (b ∷ rest)
          ≡ length (sent_for file kind nanos (b ∷ rest) thumbnail) =
        sym (
          length-payloads_from o.codec.base64 info (chunks chunk_size (b ∷ rest)) 0
          ∙ length-chunks.0 b rest) in
      subst
        (λ n. Every (Tells (length (b ∷ rest)) n) (sent_for file kind nanos (b ∷ rest) thumbnail))
        as_announced (payloads_from-Tells info 0 (chunks chunk_size (b ∷ rest)))

  -- Where the bytes of a file are at hand, `send_file_inner` sends a list of payloads, one message
  -- after the other, and then notes the file among the sent messages. The payloads are one for each
  -- 262144 bytes begun, so none for an empty file; each tells the number of bytes and how many
  -- payloads there are; and they are numbered from 0 on.
  pub send_file_inner_lem :
      (recipient : String) (file : LocalFile) (kind : String) (is_hd : Bool) (nanos : String)
      (file_data : Bytes) (thumbnail : Option String) (d : Device R)
      → prepare o file kind is_hd ≡ ok (file_data, thumbnail)
      → (sent : List Payload) × (send_file_inner o recipient file kind is_hd nanos d
          ≡ (send_each recipient sent >> now o >>= λ timestamp.
                modify (tracked o recipient (label o file kind file_data thumbnail) timestamp))
              d)
        × (length sent ≡ (length file_data + 262143) / 262144)
        × Every (Tells (length file_data) (length sent)) sent
        × (map (λ (p : Payload). p.chunk_index) sent ≡ map some (count_from 0 (length sent)))
  unfolding send_file_inner file_payloads
  send_file_inner_lem recipient file kind is_hd nanos file_data thumbnail d prepared = (
    sent_for file kind nanos file_data thumbnail,
    rw (prepared, send_file_inner)
        (ap
          (λ (m : Run R (Unit {0})).
            (m >> now o >>= λ timestamp.
            modify (tracked o recipient (label o file kind file_data thumbnail) timestamp))
              d)
          (send_chunks-send_each recipient (sent_for file kind nanos file_data thumbnail))),
    length-sent_for file kind nanos file_data thumbnail,
    sent_for-Tells file kind nanos file_data thumbnail,
    payloads_from-indices (info_for o file kind nanos file_data thumbnail) 0
        (chunks chunk_size file_data),
  )
