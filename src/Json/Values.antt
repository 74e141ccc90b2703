-- ===== src/Json/Values.antt =====
-- JSON values as a data type, which meet the laws.
use Prim.Native.String.{String}
use package.text.Mathlib.Text.{◌==◌}
use pandanite_node.Common.{
  ℕ, ◌≡◌, ◌↔◌, Bool, true, false, ◌&&◌, ◌==◌ as nat_eq, List, [], ◌∷◌, if◌then◌else◌, refl, ap,
  arith,
}
use pandanite_node.Common.Int.{ℤ}
use pandanite_node.Common.State.{ok, throws, type_error}
use pandanite_node.Json.{Json, IsLawful}

mutual
  pub data Value : Type 0 where
    null : Value
    number : ℕ → Value
    integer : ℤ → Value
    text : List ℕ → Value
    array : Elems → Value
    object : Fields → Value

  pub data Elems : Type 0 where
    nil : Elems
    cons : Value → Elems → Elems

  pub data Fields : Type 0 where
    end : Fields
    field : String → Value → Fields → Fields

abbrev elems : List Value → Elems
elems [] = nil
elems (v ∷ vs) = cons v (elems vs)

abbrev list : Elems → List Value
list nil = []
list (cons v vs) = v ∷ list vs

list-elems : (vs : List Value) → list (elems vs) ≡ vs
list-elems [] = refl
list-elems (v ∷ vs) = ap (◌∷◌ v) (list-elems vs)

-- A key that is set again hides the old entry.
abbrev set_field : Value → String → Value → Value
set_field (object fs) key v = object (field key v fs)
set_field other key v = object (field key v end)

abbrev find : Fields → String → Value
find end k = null
find (field key v fs) k = if k == key then v else find fs k

abbrev at_key : Value → String → Value
at_key (object fs) k = find fs k
at_key other k = null

at_key-set_field :
    (j v : Value) (key k : String)
    → at_key (set_field j key v) k ≡ (if k == key then v else at_key j k)
at_key-set_field null v key k = refl
at_key-set_field (number n) v key k = refl
at_key-set_field (integer n) v key k = refl
at_key-set_field (text s) v key k = refl
at_key-set_field (array vs) v key k = refl
at_key-set_field (object fs) v key k = refl

abbrev same_text : List ℕ → List ℕ → Bool
same_text [] [] = true
same_text [] (b ∷ t) = false
same_text (a ∷ s) [] = false
same_text (a ∷ s) (b ∷ t) = nat_eq a b && same_text s t

same_text_iff : (s t : List ℕ) → (same_text s t ≡ true) ↔ (s ≡ t)
same_text_iff [] [] = (λ _. refl, λ _. refl)
same_text_iff [] (b ∷ t) = (λ e. cc, λ e. cc)
same_text_iff (a ∷ s) [] = (λ e. cc, λ e. cc)
same_text_iff (a ∷ s) (b ∷ t) =
    (λ e. ground (arith, e, same_text_iff s t), λ e. ground (arith, e, same_text_iff s t))

abbrev pub values : Json
values = record {
  Value = Value;
  null = null;
  number = number;
  integer = integer;
  text = text;
  array = λ vs. array (elems vs);
  set = set_field;
  at = at_key;
  to_number = λ v. elim v [ number n ↦ ok n | _ ↦ throws type_error ];
  to_text = λ v. elim v [ text s ↦ ok s | _ ↦ throws type_error ];
  equals_text = λ v t. elim v [ text s ↦ same_text s t | _ ↦ false ];
  items = λ v. elim v [ array vs ↦ list vs | _ ↦ [] ];
  is_array = λ v. elim v [ array vs ↦ true | _ ↦ false ];
}

pub values-IsLawful : IsLawful values
values-IsLawful = record {
  at-set = at_key-set_field;
  to_number-number = λ n. refl;
  to_text-text = λ s. refl;
  equals_text-text = same_text_iff;
  items-array = list-elems;
  is_array-array = λ vs. refl;
}
