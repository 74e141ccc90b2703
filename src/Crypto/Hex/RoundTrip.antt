-- ===== src/Crypto/Hex/RoundTrip.antt =====
-- Reading back an array that was written in hexadecimal.
use pandanite_node.Common.{
  ℕ, zero, suc, ◌+◌, ◌*◌, ◌/◌, ◌%◌, ◌^◌, ◌<◌, ◌≡◌, List, [], ◌∷◌, some, refl, ap, ◌∙◌, arith,
  length, take, ltb, false,
}
use pandanite_node.Common.Bytes.{
  bytes_be, from_be, IsBytes, bytes_be-IsBytes, length-bytes_be, from_be-bytes_be,
}
use pandanite_node.Common.State.{ok}
use pandanite_node.Helpers.{skip_spaces}
use pandanite_node.Crypto.Hex.{
  hex_digit, hex_encode, hex_value, read_hex, byte_of, hex_decode, array_to_string, first_bytes,
  string_to_sha256, string_to_wallet_address, string_to_private_key, string_to_public_key,
  string_to_signature,
}

hex_value-hex_digit : (d : ℕ) → d < 16 → hex_value (hex_digit d) ≡ some d
unfolding hex_value hex_digit
hex_value-hex_digit d h = ground arith

read_hex-pair :
    (a b : ℕ) → a < 16 → b < 16 → read_hex 0 (hex_digit a ∷ hex_digit b ∷ []) ≡ a * 16 + b
unfolding read_hex
read_hex-pair a b ha hb = ground (arith, hex_value-hex_digit a, hex_value-hex_digit b)

skip_spaces-pair :
    (a : ℕ) (s : List ℕ)
    → a < 16
    → byte_of (skip_spaces (hex_digit a ∷ s)) ≡ read_hex 0 (hex_digit a ∷ s) % 256
unfolding skip_spaces byte_of hex_digit
skip_spaces-pair a s h = ground arith

byte_of-pair :
    (c : ℕ) → c < 256 → byte_of (skip_spaces (hex_digit (c / 16) ∷ hex_digit (c % 16) ∷ [])) ≡ c
byte_of-pair c h =
    omega
      (arith, skip_spaces-pair (c / 16) (hex_digit (c % 16) ∷ []), read_hex-pair (c / 16) (c % 16))

pub hex_decode-hex_encode : (bytes : List ℕ) → IsBytes bytes → hex_decode (hex_encode bytes) ≡ bytes
unfolding hex_decode hex_encode
hex_decode-hex_encode [] h = refl
hex_decode-hex_encode (c ∷ bytes) h = rw (byte_of-pair c h.0, hex_decode-hex_encode bytes h.1) refl

length-hex_encode : (bytes : List ℕ) → length (hex_encode bytes) ≡ 2 * length bytes
unfolding hex_encode
length-hex_encode [] = omega arith
length-hex_encode (c ∷ bytes) = omega (arith, length-hex_encode bytes)

pub length-array_to_string : (size x : ℕ) → length (array_to_string size x) ≡ 2 * size
unfolding array_to_string
length-array_to_string size x =
    omega (arith, length-hex_encode (bytes_be size x), length-bytes_be size x)

take-all : (n : ℕ) (xs : List ℕ) → length xs ≡ n → take n xs ≡ xs
take-all zero [] h = refl
take-all zero (x ∷ xs) h = absurd (omega arith)
take-all (suc n) [] h = absurd (omega arith)
take-all (suc n) (x ∷ xs) h = ap (◌∷◌ x) (take-all n xs (omega arith))

module _ (size x : ℕ) (h : x < 256 ^ size) where
  hex_decode-array_to_string : hex_decode (array_to_string size x) ≡ bytes_be size x
  unfolding array_to_string
  hex_decode-array_to_string = hex_decode-hex_encode (bytes_be size x) (bytes_be-IsBytes size x)

  first_bytes-array_to_string : first_bytes size (hex_decode (array_to_string size x)) ≡ ok x
  unfolding first_bytes
  first_bytes-array_to_string =
      let enough : ltb (length (bytes_be size x)) size ≡ false =
        ground (arith, length-bytes_be size x) in
      rw (hex_decode-array_to_string, enough)
        (ap ok (
          ap from_be (take-all size (bytes_be size x) (length-bytes_be size x))
          ∙ from_be-bytes_be size x h))

-- Each of the arrays is read back from its text.
pub string_to_sha256-array : (x : ℕ) → x < 256 ^ 32 → string_to_sha256 (array_to_string 32 x) ≡ ok x
unfolding string_to_sha256
string_to_sha256-array x h = first_bytes-array_to_string 32 x h

pub string_to_wallet_address-array :
    (x : ℕ) → x < 256 ^ 25 → string_to_wallet_address (array_to_string 25 x) ≡ ok x
unfolding string_to_wallet_address
string_to_wallet_address-array x h =
    ground (arith, first_bytes-array_to_string 25 x h, length-array_to_string 25 x)

pub string_to_private_key-array :
    (x : ℕ) → x < 256 ^ 64 → string_to_private_key (array_to_string 64 x) ≡ ok x
unfolding string_to_private_key
string_to_private_key-array x h =
    ground (arith, first_bytes-array_to_string 64 x h, length-array_to_string 64 x)

pub string_to_public_key-array :
    (x : ℕ) → x < 256 ^ 32 → string_to_public_key (array_to_string 32 x) ≡ ok x
unfolding string_to_public_key
string_to_public_key-array x h =
    ground (arith, first_bytes-array_to_string 32 x h, length-array_to_string 32 x)

pub string_to_signature-array :
    (x : ℕ) → x < 256 ^ 64 → string_to_signature (array_to_string 64 x) ≡ ok x
unfolding string_to_signature
string_to_signature-array x h = ground (
  arith,
  first_bytes-array_to_string 64 x h,
  ap length (hex_decode-array_to_string 64 x h),
  length-bytes_be 64 x,
)
