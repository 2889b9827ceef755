-- ===== src/Client/Uploads.antt =====
-- `send_file`, `send_voice` and `send_file_inner` of tintin-cli/src/main.rs.
pub mod Announced
use tintin.Prelude.{
  ◌/◌, Bool, true, false, not, ◌&&◌, String, List, [], ◌∷◌, Option, none, some, Result, ok, err,
  pure, ◌>>=◌, ◌>>◌, ◌==◌, text_eq, if◌then◌else◌, length,
}
use tintin.Prelude.Rows.{exists}
use tintin.Prelude.Texts.{join, is_empty}
use tintin.Core.Crypto.{Bytes}
use tintin.Client.Wire.{Payload}
use tintin.Client.Files.{FileInfo, file_payloads, total_chunks_of}
use tintin.Client.State.{ClientError, connection, Outside, Run, modify, now}
use tintin.Client.Sending.{tracked}
use tintin.Client.Groups.{send_copy}

-- A file on disk: the name and the lower-case extension of its path, what `std::fs::read` gives, and
-- what the image crate makes of bytes: nothing where it loads no image, else the smaller image and
-- its thumbnail, or why they could not be written.
pub record LocalFile : Type 0 where
  pub file_name : String
  pub extension : String
  pub contents : Result String Bytes
  pub shrink : Bytes → Option (Result String (Bytes × Bytes))

abbrev pub image_extensions : List String
image_extensions = "jpg" ∷ "jpeg" ∷ "png" ∷ "gif" ∷ "webp" ∷ "bmp" ∷ []

unfoldable pub is_image : String → Bool
unfolding exists
is_image extension = exists (λ e. extension == e) image_extensions

module _ {R : Type 0} (o : Outside R) where
  -- the bytes to send, and the thumbnail in base64
  abbrev compressed :
      Bytes → Option (Result String (Bytes × Bytes)) → Result ClientError (Bytes × Option String)
  compressed file_data none = ok (file_data, none)
  compressed file_data (some (err e)) = err (connection e)
  compressed file_data (some (ok (small, thumbnail))) =
      let encoded = o.codec.base64.encode thumbnail in
      ok (small, if is_empty encoded then none else some encoded)

  abbrev read_bytes :
      LocalFile → String → Bool → Result String Bytes → Result ClientError (Bytes × Option String)
  read_bytes file kind is_hd (err e) = err (connection e)
  read_bytes file kind is_hd (ok file_data) =
      if is_image file.extension && not is_hd && not (kind == "voice")
      then compressed file_data (file.shrink file_data)
      else ok (file_data, none)

  unfoldable pub prepare : LocalFile → String → Bool → Result ClientError (Bytes × Option String)
  unfolding is_image
  prepare file kind is_hd = read_bytes file kind is_hd file.contents

  -- the loop over the chunks
  unfoldable pub send_chunks : String → List Payload → Run R (Unit {0})
  unfolding send_copy
  send_chunks recipient [] = pure tt
  send_chunks recipient (payload ∷ rest) =
      send_copy o (o.codec.payloads.to_vec payload) recipient >> send_chunks recipient rest

  -- what the sent messages show
  unfoldable pub label : LocalFile → String → Bytes → Option String → String
  unfolding join
  label file kind file_data thumbnail =
      let kilobytes = o.codec.decimal (length file_data / 1024) in
      elim thumbnail [
        | some t ↦
            join o.codec.picture
              (join " " (join file.file_name (join " (" (join kilobytes " KB, compressed)"))))
        | none ↦
            if kind == "voice"
            then join "🎤 Voice (" (join file.file_name ")")
            else join "📁 " (join file.file_name (join " (" (join kilobytes " KB)")))
      ]

  -- `nanos` is the clock's reading in nanoseconds, in hexadecimal digits
  unfoldable pub info_for : LocalFile → String → String → Bytes → Option String → FileInfo
  unfolding total_chunks_of
  info_for file kind nanos file_data thumbnail = record {
    kind = kind;
    file_id = nanos;
    file_name = file.file_name;
    file_size = length file_data;
    total_chunks = total_chunks_of file_data;
    is_image = elim thumbnail [ none ↦ false | some t ↦ true ];
    thumbnail = thumbnail;
  }

  unfoldable pub send_file_inner : String → LocalFile → String → Bool → String → Run R (Unit {0})
  unfolding prepare info_for file_payloads send_chunks label
  send_file_inner recipient file kind is_hd nanos d = elim (prepare file kind is_hd) [
    | err e ↦ (err e, d)
    | ok (file_data, thumbnail) ↦
        (send_chunks recipient (
              file_payloads o.codec.base64 (info_for file kind nanos file_data thumbnail) file_data)
            >> now o
            >>= λ timestamp.
                modify (tracked o recipient (label file kind file_data thumbnail) timestamp))
          d
  ]

  unfoldable pub send_file : String → LocalFile → Bool → String → Run R (Unit {0})
  unfolding send_file_inner
  send_file recipient file is_hd nanos = send_file_inner recipient file "file" is_hd nanos

  unfoldable pub send_voice : String → LocalFile → String → Run R (Unit {0})
  unfolding send_file_inner
  send_voice recipient file nanos = send_file_inner recipient file "voice" true nanos
