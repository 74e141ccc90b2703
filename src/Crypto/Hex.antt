-- ===== src/Crypto/Hex.antt =====
-- hexEncode and hexDecode of core/crypto.cpp, on the bytes of a string, and the conversions between arrays
-- and texts that call them. A read before the end of the decoded bytes, and a write behind the end of
-- the array, are undefined: the model throws.
pub mod RoundTrip
use pandanite_node.Common.{
  ℕ, ◌+◌, ◌-◌, ◌*◌, ◌/◌, ◌%◌, List, [], ◌∷◌, Bool, ◌&&◌, not, ltb, leb, ◌==◌, Option, none, some,
  if◌then◌else◌, length, take,
}
use pandanite_node.Common.Bytes.{bytes_be, from_be}
use pandanite_node.Common.State.{Result, ok, throws, undefined_read, undefined_write, invalid_text}
use pandanite_node.Helpers.{skip_spaces}

-- The character at an index of the table "0123456789ABCDEF".
unfoldable pub hex_digit : ℕ → ℕ
hex_digit n = if ltb n 10 then 48 + n else 55 + n

unfoldable pub hex_encode : List ℕ → List ℕ
unfolding hex_digit
hex_encode [] = []
hex_encode (c ∷ buffer) = hex_digit (c / 16) ∷ hex_digit (c % 16) ∷ hex_encode buffer

unfoldable pub hex_value : ℕ → Option ℕ
hex_value c =
    if leb 48 c && leb c 57
    then some (c - 48)
    else if leb 65 c && leb c 70
    then some (c - 55)
    else if leb 97 c && leb c 102
    then some (c - 87)
    else none

unfoldable pub read_hex : ℕ → List ℕ → ℕ
unfolding hex_value
read_hex acc [] = acc
read_hex acc (c ∷ s) = elim (hex_value c) [ none ↦ acc | some d ↦ read_hex (acc * 16 + d) s ]

-- `(char) strtol(s, NULL, 16)` for a text of two characters or one, which has no digit behind "0x".
unfoldable pub byte_of : List ℕ → ℕ
unfolding read_hex
byte_of [] = 0
byte_of (c ∷ s) =
    if c == 45
    then (256 - read_hex 0 s) % 256
    else if c == 43
    then read_hex 0 s % 256
    else read_hex 0 (c ∷ s) % 256

unfoldable pub hex_decode : List ℕ → List ℕ
hex_decode [] = []
hex_decode (a ∷ []) = byte_of (skip_spaces (a ∷ [])) ∷ []
hex_decode (a ∷ b ∷ hex) = byte_of (skip_spaces (a ∷ b ∷ [])) ∷ hex_decode hex

-- The hexadecimal text of an array of so many bytes.
unfoldable pub array_to_string : ℕ → ℕ → List ℕ
array_to_string size x = hex_encode (bytes_be size x)

abbrev pub sha256_to_string : ℕ → List ℕ
sha256_to_string = array_to_string 32

abbrev pub wallet_address_to_string : ℕ → List ℕ
wallet_address_to_string = array_to_string 25

abbrev pub private_key_to_string : ℕ → List ℕ
private_key_to_string = array_to_string 64

abbrev pub public_key_to_string : ℕ → List ℕ
public_key_to_string = array_to_string 32

abbrev pub signature_to_string : ℕ → List ℕ
signature_to_string = array_to_string 64

-- `std::move(bytes.begin(), bytes.begin() + size, …)`
unfoldable pub first_bytes : ℕ → List ℕ → Result ℕ
first_bytes size bytes =
    if ltb (length bytes) size then throws undefined_read else ok (from_be (take size bytes))

-- The size of the text is not tested.
unfoldable pub string_to_sha256 : List ℕ → Result ℕ
unfolding first_bytes
string_to_sha256 hex = first_bytes 32 (hex_decode hex)

unfoldable pub string_to_wallet_address : List ℕ → Result ℕ
unfolding first_bytes
string_to_wallet_address s =
    if not (length s == 50) then throws invalid_text else first_bytes 25 (hex_decode s)

unfoldable pub string_to_private_key : List ℕ → Result ℕ
unfolding first_bytes
string_to_private_key p =
    if not (length p == 128) then throws invalid_text else first_bytes 64 (hex_decode p)

unfoldable pub string_to_public_key : List ℕ → Result ℕ
unfolding first_bytes
string_to_public_key p =
    if not (length p == 64) then throws invalid_text else first_bytes 32 (hex_decode p)

-- The loop writes all decoded bytes to an array of 64; what it does not write is uninitialised.
unfoldable pub string_to_signature : List ℕ → Result ℕ
unfolding first_bytes
string_to_signature t =
    let bytes = hex_decode t in
    if ltb 64 (length bytes) then throws undefined_write else first_bytes 64 bytes
