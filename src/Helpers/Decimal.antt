-- ===== src/Helpers/Decimal.antt =====
-- Reading back a number that was written in decimal.
use native.Mathlib.Nat.{pow-suc}
use pandanite_node.Common.{
  ℕ, zero, suc, ◌+◌, ◌-◌, ◌*◌, ◌/◌, ◌%◌, ◌^◌, ◌≤◌, ◌<◌, ◌≡◌, List, [], ◌∷◌, true, false, length,
  ◌==◌, min, if◌then◌else◌, refl, sym, subst, ◌∙◌, ap, arith, Bool-cases, inl, inr, u64,
}
use pandanite_node.Helpers.{
  digits, uint64_to_string, skip_spaces, read_digits, read_signed, string_to_uint64, stoi,
}
use pandanite_node.Common.Int.{pos}
use pandanite_node.Common.State.{ok}

abbrev BeginsWithDigit : List ℕ → Type 0
BeginsWithDigit [] = ⊥
BeginsWithDigit (c ∷ s) = (48 ≤ c) × (c < 58)

digits-BeginsWithDigit :
    (fuel n : ℕ) (rest : List ℕ) → BeginsWithDigit rest → BeginsWithDigit (digits fuel n rest)
unfolding digits
digits-BeginsWithDigit zero n rest h = h
digits-BeginsWithDigit (suc fuel) n rest h =
    ground (arith, digits-BeginsWithDigit fuel (n / 10) ((48 + n % 10) ∷ rest))

digits-begin : (fuel n : ℕ) (rest : List ℕ) → BeginsWithDigit (digits (suc fuel) n rest)
unfolding digits
digits-begin fuel n rest =
    ground (arith, digits-BeginsWithDigit fuel (n / 10) ((48 + n % 10) ∷ rest))

read_digits-digit :
    (acc d : ℕ) (s : List ℕ)
    → d < 10
    → read_digits acc ((48 + d) ∷ s) ≡ read_digits (acc * 10 + d) s
unfolding read_digits
read_digits-digit acc d s h = ground arith

read_digits-last :
    (n : ℕ) (rest : List ℕ)
    → (n / 10 == 0) ≡ true
    → read_digits 0 ((48 + n % 10) ∷ rest) ≡ read_digits n rest
read_digits-last n rest h =
    read_digits-digit 0 (n % 10) rest (omega arith) ∙ ap (λ m. read_digits m rest) (ground arith)

read_digits-digits :
    (fuel n : ℕ) (rest : List ℕ)
    → n < 10 ^ suc fuel
    → read_digits 0 (digits (suc fuel) n rest) ≡ read_digits n rest
unfolding digits
read_digits-digits zero n rest h =
    let small : (n / 10 == 0) ≡ true = ground (arith, pow-suc 10 0) in
    rw small (read_digits-last n rest small)
read_digits-digits (suc fuel) n rest h = elim (Bool-cases (n / 10 == 0)) [
  | inl small ↦ rw small (read_digits-last n rest small)
  | inr large ↦
      let below : n / 10 < 10 ^ suc fuel = omega (arith, pow-suc 10 (suc fuel)) in
      subst
        (λ b.
          read_digits 0
            (if b then (48 + n % 10) ∷ rest else digits (suc fuel) (n / 10) ((48 + n % 10) ∷ rest))
          ≡ read_digits n rest)
        (sym large)
        (read_digits-digits fuel (n / 10) ((48 + n % 10) ∷ rest) below
          ∙ read_digits-digit (n / 10) (n % 10) rest (omega arith)
          ∙ ap (λ m. read_digits m rest) (omega arith))
]

read_signed-digit :
    (s : List ℕ) → BeginsWithDigit s → string_to_uint64 s ≡ min (read_digits 0 s) (u64 - 1)
unfolding string_to_uint64 read_signed
read_signed-digit [] h = absurd h
read_signed-digit (c ∷ s) h = ground arith

nothing_left : (n : ℕ) → read_digits n [] ≡ n
unfolding read_digits
nothing_left n = refl

-- stringToUint64 reads back what uint64ToString has written of a uint64_t.
pub string_to_uint64-uint64_to_string :
    (t : ℕ) → t < u64 → string_to_uint64 (uint64_to_string t) ≡ t
unfolding uint64_to_string
string_to_uint64-uint64_to_string t h =
    let s = digits 20 t [] in
    let read : read_digits 0 s ≡ t = read_digits-digits 19 t [] (omega arith) ∙ nothing_left t in
    read_signed-digit s (digits-begin 19 t []) ∙ omega (arith, read)

stoi-digit :
    (s : List ℕ)
    → BeginsWithDigit s
    → read_digits 0 s < 2 ^ 31
    → stoi s ≡ ok (pos (read_digits 0 s))
unfolding stoi skip_spaces
stoi-digit [] b h = absurd b
stoi-digit (c ∷ s) b h = ground arith

-- std::stoi reads back what uint64ToString has written of a number below 2 ^ 31.
pub stoi-uint64_to_string : (t : ℕ) → t < 2 ^ 31 → stoi (uint64_to_string t) ≡ ok (pos t)
unfolding uint64_to_string
stoi-uint64_to_string t h =
    let s = digits 20 t [] in
    let read : read_digits 0 s ≡ t = read_digits-digits 19 t [] (omega arith) ∙ nothing_left t in
    rw (stoi-digit s (digits-begin 19 t []) (omega (arith, read)), read) refl

-- The text of a number is not empty.
pub uint64_to_string-ne : (t : ℕ) → (length (uint64_to_string t) == 0) ≡ false
unfolding uint64_to_string
uint64_to_string-ne t = not_empty (digits 20 t []) (digits-begin 19 t [])
  where
    not_empty : (s : List ℕ) → BeginsWithDigit s → (length s == 0) ≡ false
    not_empty [] h = absurd h
    not_empty (c ∷ s) h = ground arith
