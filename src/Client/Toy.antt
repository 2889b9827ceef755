-- ===== src/Client/Toy.antt =====
-- A small JSON in place of the crate, for the tests of the client.
pub mod Codes
pub mod Codings
pub mod Devices
use Prim.Native.Nat.{compare, Ordering}
use Prim.Native.Char.{Char, char, code, IsLt}
use tintin.Prelude.{
  ℕ, ◌≡◌, refl, ◌∙◌, ap, Bool, true, false, if◌then◌else◌, ◌==◌, number_eq, String, List, [], ◌∷◌,
  Option, none, some, Result, ok, err, length, take, drop, ◌++◌,
}
use tintin.Core.Message.{PreKeyBundleMessage}
use tintin.Core.Crypto.{Bytes}
use tintin.Server.Toy.{
  put, take_number, take_number-put, put_many, take_many, take_many-put_many, put_text, take_text,
  take_text-put_text,
}
use tintin.Client.Wire.{Payload, PayloadJson, Base64, Reads, Decodes}
use tintin.Client.Toy.Codes.{from_code, scalar_of, to_codes, from_codes, from_codes-to_codes}

infixl 5 ◌>>=◌
abbrev ◌>>=◌ : {A B : Type 0} → Option A → (A → Option B) → Option B
none >>= f = none
some a >>= f = f a

-- Values that may be missing.
put_option_text : Option String → String → String
put_option_text none rest = put 0 rest
put_option_text (some s) rest = put 1 (put_text s rest)

take_option_text : String → Option (Option String × String)
take_option_text t = do
  (there, t1) ← take_number t
  if there == 0 then some (none, t1) else (do (s, t2) ← take_text t1; some (some s, t2))

take_option_text_lem :
    (x : Option String) (rest : String) → take_option_text (put_option_text x rest) ≡ some (x, rest)
unfolding take_option_text put_option_text
take_option_text_lem none rest = rw (take_number-put 0 rest) refl
take_option_text_lem (some s) rest =
    rw (take_number-put 1 (put_text s rest)) (rw (take_text-put_text s rest) refl)

put_option_number : Option ℕ → String → String
put_option_number none rest = put 0 rest
put_option_number (some n) rest = put 1 (put n rest)

take_option_number : String → Option (Option ℕ × String)
take_option_number t = do
  (there, t1) ← take_number t
  if there == 0 then some (none, t1) else (do (n, t2) ← take_number t1; some (some n, t2))

take_option_number_lem :
    (x : Option ℕ) (rest : String) → take_option_number (put_option_number x rest) ≡ some (x, rest)
unfolding take_option_number put_option_number
take_option_number_lem none rest = rw (take_number-put 0 rest) refl
take_option_number_lem (some n) rest =
    rw (take_number-put 1 (put n rest)) (rw (take_number-put n rest) refl)

flag_number : Option Bool → ℕ
flag_number none = 0
flag_number (some false) = 1
flag_number (some true) = 2

number_flag : ℕ → Option Bool
number_flag n = if n == 0 then none else if n == 1 then some false else some true

number_flag-flag_number : (x : Option Bool) → number_flag (flag_number x) ≡ x
unfolding number_flag flag_number
number_flag-flag_number none = refl
number_flag-flag_number (some false) = refl
number_flag-flag_number (some true) = refl

put_option_flag : Option Bool → String → String
unfolding flag_number
put_option_flag x rest = put (flag_number x) rest

take_option_flag : String → Option (Option Bool × String)
unfolding number_flag
take_option_flag t = do (n, t1) ← take_number t; some (number_flag n, t1)

take_option_flag_lem :
    (x : Option Bool) (rest : String) → take_option_flag (put_option_flag x rest) ≡ some (x, rest)
unfolding take_option_flag put_option_flag
take_option_flag_lem x rest =
    rw (take_number-put (flag_number x) rest) (rw (number_flag-flag_number x) refl)

toy_to_string : Payload → String
unfolding put_option_text put_option_number put_option_flag
toy_to_string p = put_option_text p.tintin_type (
    put_option_text p.file_id (
      put_option_text p.file_name (
        put_option_number p.file_size (
          put_option_number p.total_chunks (
            put_option_number p.chunk_index (
              put_option_text p.body (
                put_option_flag p.is_image (
                  put_option_text p.thumbnail (
                    put_option_number p.original_timestamp (
                      put_option_text p.new_text (
                        put_option_text p.group_id (
                          put_option_text p.group_name (
                            put_option_number p.channel_id (
                              put_option_text p.channel_name (
                                put_option_text p.text (
                                  put_option_text p.question (
                                    put_option_text p.emoji (
                                      put_option_text p.call_id (
                                        put_option_text p.media_key_pub (
                                          put_option_text p.reason (
                                            put_option_number p.seq (
                                              put_option_number p.total (
                                                put_option_text p.nonce (
                                                  put_option_flag p.end_of_stream
                                                    ("")))))))))))))))))))))))))

toy_from_string : String → Option Payload
unfolding take_option_text take_option_number take_option_flag
toy_from_string t0 = do
  (x0, t1) ← take_option_text t0
  (x1, t2) ← take_option_text t1
  (x2, t3) ← take_option_text t2
  (x3, t4) ← take_option_number t3
  (x4, t5) ← take_option_number t4
  (x5, t6) ← take_option_number t5
  (x6, t7) ← take_option_text t6
  (x7, t8) ← take_option_flag t7
  (x8, t9) ← take_option_text t8
  (x9, t10) ← take_option_number t9
  (x10, t11) ← take_option_text t10
  (x11, t12) ← take_option_text t11
  (x12, t13) ← take_option_text t12
  (x13, t14) ← take_option_number t13
  (x14, t15) ← take_option_text t14
  (x15, t16) ← take_option_text t15
  (x16, t17) ← take_option_text t16
  (x17, t18) ← take_option_text t17
  (x18, t19) ← take_option_text t18
  (x19, t20) ← take_option_text t19
  (x20, t21) ← take_option_text t20
  (x21, t22) ← take_option_number t21
  (x22, t23) ← take_option_number t22
  (x23, t24) ← take_option_text t23
  (x24, t25) ← take_option_flag t24
  some (record {
    tintin_type = x0;
    file_id = x1;
    file_name = x2;
    file_size = x3;
    total_chunks = x4;
    chunk_index = x5;
    body = x6;
    is_image = x7;
    thumbnail = x8;
    original_timestamp = x9;
    new_text = x10;
    group_id = x11;
    group_name = x12;
    channel_id = x13;
    channel_name = x14;
    text = x15;
    question = x16;
    emoji = x17;
    call_id = x18;
    media_key_pub = x19;
    reason = x20;
    seq = x21;
    total = x22;
    nonce = x23;
    end_of_stream = x24;
  })

toy_from_string_lem : (p : Payload) → toy_from_string (toy_to_string p) ≡ some p
unfolding toy_from_string toy_to_string
toy_from_string_lem p = rw (take_option_text_lem p.tintin_type _) (
    rw (take_option_text_lem p.file_id _) (
      rw (take_option_text_lem p.file_name _) (
        rw (take_option_number_lem p.file_size _) (
          rw (take_option_number_lem p.total_chunks _) (
            rw (take_option_number_lem p.chunk_index _) (
              rw (take_option_text_lem p.body _) (
                rw (take_option_flag_lem p.is_image _) (
                  rw (take_option_text_lem p.thumbnail _) (
                    rw (take_option_number_lem p.original_timestamp _) (
                      rw (take_option_text_lem p.new_text _) (
                        rw (take_option_text_lem p.group_id _) (
                          rw (take_option_text_lem p.group_name _) (
                            rw (take_option_number_lem p.channel_id _) (
                              rw (take_option_text_lem p.channel_name _) (
                                rw (take_option_text_lem p.text _) (
                                  rw (take_option_text_lem p.question _) (
                                    rw (take_option_text_lem p.emoji _) (
                                      rw (take_option_text_lem p.call_id _) (
                                        rw (take_option_text_lem p.media_key_pub _) (
                                          rw (take_option_text_lem p.reason _) (
                                            rw (take_option_number_lem p.seq _) (
                                              rw (take_option_number_lem p.total _) (
                                                rw (take_option_text_lem p.nonce _) (
                                                  rw (take_option_flag_lem p.end_of_stream _)
                                                    (refl)))))))))))))))))))))))))

pub toy_json : PayloadJson
toy_json = record {
  to_vec = λ p. to_codes (toy_to_string p);
  to_string = toy_to_string;
  from_slice = λ bytes. toy_from_string (from_codes bytes);
}

pub toy_json-Reads : Reads toy_json
unfolding toy_json
toy_json-Reads = record {
  from_slice-to_vec =
      λ p. ap toy_from_string (from_codes-to_codes (toy_to_string p)) ∙ toy_from_string_lem p;
}

pub toy_json_text : (p : Payload) → toy_json.from_slice (to_codes (toy_json.to_string p)) ≡ some p
unfolding toy_json
toy_json_text p = ap toy_from_string (from_codes-to_codes (toy_to_string p)) ∙ toy_from_string_lem p

-- A text that is no object.
pub toy_json_plain : toy_json.from_slice (to_codes "hi") ≡ none
unfolding toy_json toy_from_string take_option_text take_option_number take_option_flag take_number
    take_text from_codes from_code scalar_of to_codes
toy_json_plain = refl
