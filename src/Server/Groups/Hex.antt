-- ===== src/Server/Groups/Hex.antt =====
-- `generate_group_id` of tintin-server/src/store.rs: eight hexadecimal digits.
use Prim.Native.Nat.{bit_xor}
use Prim.Native.String.{◌++◌ as append}
use tintin.Prelude.{ℕ, zero, suc, ◌/◌, ◌%◌, ◌^◌, String, if◌then◌else◌, ◌==◌, number_eq}

hex_digit : ℕ → String
hex_digit d =
    if d == 0
    then "0"
    else if d == 1
    then "1"
    else if d == 2
    then "2"
    else if d == 3
    then "3"
    else if d == 4
    then "4"
    else if d == 5
    then "5"
    else if d == 6
    then "6"
    else if d == 7
    then "7"
    else if d == 8
    then "8"
    else if d == 9
    then "9"
    else if d == 10
    then "a"
    else if d == 11
    then "b"
    else if d == 12
    then "c"
    else if d == 13
    then "d"
    else if d == 14
    then "e"
    else "f"

-- the last `width` digits, the highest first
hex : ℕ → ℕ → String
unfolding hex_digit
hex zero n = ""
hex (suc width) n = append (hex width (n / 16)) (hex_digit (n % 16))

-- `millis` is the clock as u64, and `rnd` a random u16: the number fits in eight digits.
unfoldable pub generate_group_id : ℕ → ℕ → String
unfolding hex
generate_group_id millis rnd = hex 8 (bit_xor (millis % 2 ^ 32) rnd)
