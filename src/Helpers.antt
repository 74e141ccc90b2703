-- ===== src/Helpers.antt =====
-- core/helpers.cpp: numbers in decimal. The readers and writers of the wire format are in
-- Transaction.Buffer. What std::ostringstream and std::istringstream do with a uint64_t is written out,
-- on the bytes of the text.
pub mod Decimal
use pandanite_node.Common.{
  ℕ, zero, suc, ◌+◌, ◌-◌, ◌*◌, ◌/◌, ◌%◌, ◌^◌, List, [], ◌∷◌, Bool, true, false, not, ◌&&◌, ◌||◌,
  ltb, leb, ◌==◌, min, if◌then◌else◌, u64,
}
use pandanite_node.Common.Int.{ℤ, pos, sub_ℕ}
use pandanite_node.Common.State.{Result, ok, throws, invalid_text}

-- The digits of a number in front of a rest; a uint64_t has at most twenty.
unfoldable pub digits : ℕ → ℕ → List ℕ → List ℕ
digits zero n rest = rest
digits (suc fuel) n rest =
    let digit = 48 + n % 10 in
    let more = digits fuel (n / 10) (digit ∷ rest) in if n / 10 == 0 then digit ∷ rest else more

unfoldable pub uint64_to_string : ℕ → List ℕ
uint64_to_string t = digits 20 t []

-- std::isspace
abbrev pub is_space : ℕ → Bool
is_space c = c == 32 || (leb 9 c && leb c 13)

unfoldable pub skip_spaces : List ℕ → List ℕ
skip_spaces [] = []
skip_spaces (c ∷ s) = if is_space c then skip_spaces s else c ∷ s

-- The number that the digits in front spell, behind those that spell `acc`.
unfoldable pub read_digits : ℕ → List ℕ → ℕ
read_digits acc [] = acc
read_digits acc (c ∷ s) =
    let more = read_digits (acc * 10 + (c - 48)) s in if leb 48 c && leb c 57 then more else acc

-- A number that is too large reads as the largest.
abbrev negated : ℕ → ℕ
negated n = if leb u64 n then u64 - 1 else (u64 - n) % u64

unfoldable pub read_signed : List ℕ → ℕ
unfolding read_digits
read_signed [] = 0
read_signed (c ∷ s) =
    if c == 45
    then negated (read_digits 0 s)
    else min (if c == 43 then read_digits 0 s else read_digits 0 (c ∷ s)) (u64 - 1)

unfoldable pub string_to_uint64 : List ℕ → ℕ
unfolding skip_spaces
string_to_uint64 input = read_signed (skip_spaces input)

-- std::stoi, which throws where there is no digit, or where the number is not an int.
abbrev as_int : Bool → List ℕ → Result ℤ
as_int minus [] = throws invalid_text
as_int minus (c ∷ s) =
    let n = read_digits 0 (c ∷ s) in
    if not (leb 48 c && leb c 57)
    then throws invalid_text
    else if minus
    then (if ltb (2 ^ 31) n then throws invalid_text else ok (sub_ℕ 0 n))
    else if ltb n (2 ^ 31)
    then ok (pos n)
    else throws invalid_text

abbrev signed_int : List ℕ → Result ℤ
signed_int [] = throws invalid_text
signed_int (c ∷ s) =
    if c == 45 then as_int true s else if c == 43 then as_int false s else as_int false (c ∷ s)

unfoldable pub stoi : List ℕ → Result ℤ
unfolding skip_spaces
stoi input = signed_int (skip_spaces input)
