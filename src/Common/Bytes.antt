-- ===== src/Common/Bytes.antt =====
-- Byte strings. A std::array of bytes (a hash, key, address or signature) is the number that its
-- bytes spell, the first byte the most significant: == and < on arrays are then those on numbers.
-- An integer in memory has its least significant byte first.
use package.pandanite_node.Common.Lists.{length, take, drop}
use Prim.Native.Nat.{ℕ, zero, suc, ◌+◌, ◌*◌, ◌/◌, ◌%◌, ◌^◌, ◌<◌}
use mathlib.Core.Path.{◌≡◌, refl, sym, subst, ap, ◌∙◌}
use mathlib.Core.List.{List, [], ◌∷◌, ◌++◌, reverse, reverse-reverse, reverse-cons}
use package.pandanite_node.Common.Lists.{length-append, All}
use native.Mathlib.Nat.{pow-suc}
use native.Mathlib.Omega.{arith}

-- The `n` low bytes of a number, the lowest first.
unfoldable pub bytes_le : ℕ → ℕ → List ℕ
bytes_le zero x = []
bytes_le (suc n) x = (x % 256) ∷ bytes_le n (x / 256)

unfoldable pub from_le : List ℕ → ℕ
from_le [] = 0
from_le (b ∷ bs) = b + 256 * from_le bs

-- The bytes of an array of `n` bytes, in the order in which they stand, and back.
unfoldable pub bytes_be : ℕ → ℕ → List ℕ
unfolding bytes_le
bytes_be n x = reverse (bytes_le n x)

unfoldable pub from_be : List ℕ → ℕ
unfolding from_le
from_be bs = from_le (reverse bs)

pub length-bytes_le : (n x : ℕ) → length (bytes_le n x) ≡ n
unfolding bytes_le
length-bytes_le zero x = refl
length-bytes_le (suc n) x = ap suc (length-bytes_le n (x / 256))

length-reverse : (xs : List ℕ) → length (reverse xs) ≡ length xs
length-reverse [] = refl
length-reverse (x ∷ xs) =
    omega
      (arith, ap length (reverse-cons x xs), length-append (reverse xs) (x ∷ []), length-reverse xs)

pub length-bytes_be : (n x : ℕ) → length (bytes_be n x) ≡ n
unfolding bytes_be
length-bytes_be n x = length-reverse (bytes_le n x) ∙ length-bytes_le n x

pub from_le-bytes_le : (n x : ℕ) → x < 256 ^ n → from_le (bytes_le n x) ≡ x
unfolding bytes_le from_le
from_le-bytes_le zero x h = omega arith
from_le-bytes_le (suc n) x h =
    omega (arith, from_le-bytes_le n (x / 256) (omega (arith, pow-suc 256 n)))

pub from_be-bytes_be : (n x : ℕ) → x < 256 ^ n → from_be (bytes_be n x) ≡ x
unfolding bytes_be from_be
from_be-bytes_be n x h = rw reverse-reverse (from_le-bytes_le n x h)

-- Each element is a byte.
abbrev pub IsBytes : List ℕ → Type 0
IsBytes = All (λ b. b < 256)

pub bytes_le-IsBytes : (n x : ℕ) → IsBytes (bytes_le n x)
unfolding bytes_le
bytes_le-IsBytes zero x = tt
bytes_le-IsBytes (suc n) x = (omega arith, bytes_le-IsBytes n (x / 256))

append-IsBytes : (xs ys : List ℕ) → IsBytes xs → IsBytes ys → IsBytes (xs ++ ys)
append-IsBytes [] ys hx hy = hy
append-IsBytes (x ∷ xs) ys hx hy = (hx.0, append-IsBytes xs ys hx.1 hy)

reverse-IsBytes : (xs : List ℕ) → IsBytes xs → IsBytes (reverse xs)
reverse-IsBytes [] h = tt
reverse-IsBytes (x ∷ xs) h =
    subst IsBytes (sym (reverse-cons x xs))
      (append-IsBytes (reverse xs) (x ∷ []) (reverse-IsBytes xs h.1) (h.0, tt))

pub bytes_be-IsBytes : (n x : ℕ) → IsBytes (bytes_be n x)
unfolding bytes_be
bytes_be-IsBytes n x = reverse-IsBytes (bytes_le n x) (bytes_le-IsBytes n x)

-- Reading back what was written in front of a rest.
pub take-append : (n : ℕ) (xs ys : List ℕ) → length xs ≡ n → take n (xs ++ ys) ≡ xs
take-append zero [] ys h = refl
take-append zero (x ∷ xs) ys h = absurd (omega arith)
take-append (suc n) [] ys h = absurd (omega arith)
take-append (suc n) (x ∷ xs) ys h = ap (◌∷◌ x) (take-append n xs ys (omega arith))

pub drop-append : (n : ℕ) (xs ys : List ℕ) → length xs ≡ n → drop n (xs ++ ys) ≡ ys
drop-append zero [] ys h = refl
drop-append zero (x ∷ xs) ys h = absurd (omega arith)
drop-append (suc n) [] ys h = absurd (omega arith)
drop-append (suc n) (x ∷ xs) ys h = drop-append n xs ys (omega arith)
