-- ===== src/Server/Toy.antt =====
-- A small JSON in place of serde_json's, for the tests.
pub mod Requests
use Prim.Native.Char.{Char, code}
use tintin.Prelude.{
  ℕ, zero, suc, length, ◌+◌, ◌≡◌, refl, ap, Bool, true, false, if◌then◌else◌, ◌==◌, number_eq, List,
  [], ◌∷◌, Option, none, some, Result, ok, err, arith, String,
}
use tintin.Core.Crypto.{Bytes}
use tintin.Core.Message.{
  Envelope, EnvelopeJson, ReadsBack, MessageType, normal, pre_key_bundle, receipt, typing,
}

infixl 5 ◌>>=◌
abbrev ◌>>=◌ : {A B : Type 0} → Option A → (A → Option B) → Option B
none >>= f = none
some a >>= f = f a

-- A number in unary and a list of numbers, before the rest of the text.
pub put : ℕ → String → String
put zero rest = String.◌∷◌ "-" rest
put (suc n) rest = String.◌∷◌ "x" (put n rest)

abbrev pub more : Option (ℕ × String) → Option (ℕ × String)
more none = none
more (some (n, rest)) = some (suc n, rest)

unfoldable pub take_number : String → Option (ℕ × String)
take_number String.[] = none
take_number (String.◌∷◌ c rest) =
    let later = take_number rest in if code c == 120 then more later else some (0, rest)

pub take_number-put : (n : ℕ) (rest : String) → take_number (put n rest) ≡ some (n, rest)
unfolding take_number put
take_number-put zero rest = refl
take_number-put (suc n) rest = ap more (take_number-put n rest)

pub put_many : List ℕ → String → String
unfolding put
put_many [] rest = rest
put_many (n ∷ ns) rest = put n (put_many ns rest)

pub take_many : ℕ → String → Option (List ℕ × String)
unfolding take_number
take_many zero text = some ([], text)
take_many (suc n) text = elim (take_number text) [
  | none ↦ none
  | some (x, rest) ↦ elim (take_many n rest) [
    | none ↦ none
    | some (xs, rest') ↦ some (x ∷ xs, rest')
  ]
]

pub take_many-put_many :
    (ns : List ℕ) (rest : String) → take_many (length ns) (put_many ns rest) ≡ some (ns, rest)
unfolding take_many put_many
take_many-put_many [] rest = refl
take_many-put_many (n ∷ ns) rest =
    rw (take_number-put n (put_many ns rest), take_many)
      (rw (take_many-put_many ns rest, take_many) refl)

pub put_text : String → String → String
put_text String.[] rest = String.◌∷◌ "-" rest
put_text (String.◌∷◌ c s) rest = String.◌∷◌ "x" (String.◌∷◌ c (put_text s rest))

abbrev pub with_char : Char → Option (String × String) → Option (String × String)
with_char c none = none
with_char c (some (s, rest)) = some (String.◌∷◌ c s, rest)

unfoldable pub take_text : String → Option (String × String)
take_text String.[] = none
take_text (String.◌∷◌ x String.[]) = some (String.[], String.[])
take_text (String.◌∷◌ x (String.◌∷◌ c rest)) =
    let later = take_text rest in
    if code x == 120 then with_char c later else some (String.[], String.◌∷◌ c rest)

pub take_text-put_text : (s rest : String) → take_text (put_text s rest) ≡ some (s, rest)
unfolding take_text put_text
take_text-put_text String.[] String.[] = refl
take_text-put_text String.[] (String.◌∷◌ c rest) = refl
take_text-put_text (String.◌∷◌ c s) rest = ap (with_char c) (take_text-put_text s rest)

type_number : MessageType → ℕ
type_number normal = 0
type_number pre_key_bundle = 1
type_number receipt = 2
type_number typing = 3

number_type : ℕ → MessageType
number_type n =
    if n == 0 then normal else if n == 1 then pre_key_bundle else if n == 2 then receipt else typing

number_type-type_number : (m : MessageType) → number_type (type_number m) ≡ m
unfolding number_type type_number
number_type-type_number normal = refl
number_type-type_number pre_key_bundle = refl
number_type-type_number receipt = refl
number_type-type_number typing = refl

toy_to_string : Envelope → String
toy_to_string e = put_text e.sender_id (
    put_text e.recipient_id (
      put e.sender_device_id (
        put e.timestamp
          (put (type_number e.msg_type) (put (length e.content) (put_many e.content ""))))))

toy_from_str : String → Option Envelope
toy_from_str text = do
  (sender_id, t1) ← take_text text
  (recipient_id, t2) ← take_text t1
  (device, t3) ← take_number t2
  (timestamp, t4) ← take_number t3
  (kind, t5) ← take_number t4
  (n, t6) ← take_number t5
  (content, t7) ← take_many n t6
  some (record {
    sender_id = sender_id;
    recipient_id = recipient_id;
    sender_device_id = device;
    timestamp = timestamp;
    content = content;
    msg_type = number_type kind;
  })

toy_reads : (e : Envelope) → toy_from_str (toy_to_string e) ≡ some e
unfolding toy_from_str toy_to_string
toy_reads e = rw (take_text-put_text e.sender_id _) (
    rw (take_text-put_text e.recipient_id _) (
      rw (take_number-put e.sender_device_id _) (
        rw (take_number-put e.timestamp _) (
          rw (take_number-put (type_number e.msg_type) _) (
            rw (take_number-put (length e.content) _) (
              rw (take_many-put_many e.content _)
                (rw (number_type-type_number e.msg_type) refl)))))))

pub toy_envelopes : EnvelopeJson
unfolding toy_to_string toy_from_str
toy_envelopes = record {
  to_string = toy_to_string;
  from_str = toy_from_str;
  receipt_to_vec = λ r. r.original_timestamp ∷ [];
}

pub toy_envelopes-ReadsBack : ReadsBack toy_envelopes
unfolding toy_envelopes
toy_envelopes-ReadsBack = record { from_str-to_string = toy_reads }
