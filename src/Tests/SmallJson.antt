-- ===== src/Tests/SmallJson.antt =====
-- A small library of JSON values in place of the one that the code calls: a value is a list of numbers,
-- and an object the list of its fields, each key and value behind its length.
use kung_fu_chess.Prelude.{
  string_eq, ℕ, zero, suc, sym, ℤ, pos, negsuc, ◌≡◌, refl, ap, if◌then◌else◌, Bool, true, false,
  Option, none, some, List, [], ◌∷◌, ◌++◌, length, take, drop,
}
use kung_fu_chess.Server.Audience.{Name}
use kung_fu_chess.Protocol.{find_name, JsonLibrary}

abbrev fields_text : List (Name × List ℕ) → List ℕ
fields_text [] = []
fields_text ((k, v) ∷ fields) = length k ∷ (k ++ (length v ∷ (v ++ fields_text fields)))

abbrev behind_key : Name → Name → List ℕ → (List ℕ → Option (List ℕ)) → Option (List ℕ)
behind_key wanted k [] rest = none
behind_key wanted k (m ∷ s) rest = if string_eq k wanted then some (take m s) else rest (drop m s)

abbrev find_in : ℕ → Name → List ℕ → Option (List ℕ)
find_in zero wanted s = none
find_in (suc n) wanted [] = none
find_in (suc n) wanted (l ∷ s) =
    behind_key wanted (take l s) (drop l s) (λ rest. find_in n wanted rest)

take_back : (xs ys : List ℕ) → take (length xs) (xs ++ ys) ≡ xs
take_back [] ys = refl
take_back (x ∷ xs) ys = ap (λ zs. x ∷ zs) (take_back xs ys)

drop_back : (xs ys : List ℕ) → drop (length xs) (xs ++ ys) ≡ ys
drop_back [] ys = refl
drop_back (x ∷ xs) ys = drop_back xs ys

pub find_in_fields :
    (wanted : Name) (fields : List (Name × List ℕ))
    → find_in (length fields) wanted (fields_text fields) ≡ find_name wanted fields
find_in_fields wanted [] = refl
find_in_fields wanted ((k, v) ∷ fields) =
    rw
      (
        take_back k (length v ∷ (v ++ fields_text fields)),
        drop_back k (length v ∷ (v ++ fields_text fields)),
        take_back v (fields_text fields),
        drop_back v (fields_text fields),
        find_in_fields wanted fields,
      )
      refl

abbrev find_in_object : Name → List ℕ → Option (List ℕ)
find_in_object wanted [] = none
find_in_object wanted (n ∷ s) = find_in n wanted s

abbrev int_text : ℤ → List ℕ
int_text (pos n) = 0 ∷ n ∷ []
int_text (negsuc n) = 1 ∷ n ∷ []

abbrev int_of : List ℕ → Option ℤ
int_of (zero ∷ n ∷ []) = some (pos n)
int_of (suc m ∷ n ∷ []) = some (negsuc n)
int_of _ = none

pub int_text_back : (n : ℤ) → int_of (int_text n) ≡ some n
int_text_back (pos n) = refl
int_text_back (negsuc n) = refl

abbrev items_text : List (List ℕ) → List ℕ
items_text [] = []
items_text (x ∷ xs) = length x ∷ (x ++ items_text xs)

abbrev one_item : List ℕ → Option (List (List ℕ)) → Option (List (List ℕ))
one_item x none = none
one_item x (some xs) = some (x ∷ xs)

abbrev items_of : ℕ → List ℕ → Option (List (List ℕ))
items_of zero s = some []
items_of (suc n) [] = none
items_of (suc n) (l ∷ s) = one_item (take l s) (items_of n (drop l s))

pub items_back : (xs : List (List ℕ)) → items_of (length xs) (items_text xs) ≡ some xs
items_back [] = refl
items_back (x ∷ xs) =
    rw (take_back x (items_text xs), drop_back x (items_text xs), items_back xs) refl

abbrev array_of : List ℕ → Option (List (List ℕ))
array_of [] = none
array_of (n ∷ s) = items_of n s

abbrev bool_text : Bool → List ℕ
bool_text false = 0 ∷ []
bool_text true = 1 ∷ []

abbrev bool_of : List ℕ → Option Bool
bool_of (zero ∷ []) = some false
bool_of (suc n ∷ []) = some true
bool_of _ = none

pub bool_text_back : (b : Bool) → bool_of (bool_text b) ≡ some b
bool_text_back false = refl
bool_text_back true = refl

abbrev natural_of : List ℕ → Option ℕ
natural_of (zero ∷ n ∷ []) = some n
natural_of _ = none

abbrev pub small_json : JsonLibrary
small_json = record {
  Json = List ℕ;
  of_object = λ fields. length fields ∷ fields_text fields;
  of_text = λ s. s;
  of_int = int_text;
  of_bool = bool_text;
  of_array = λ xs. length xs ∷ items_text xs;
  is_object = λ j. true;
  find_field = find_in_object;
  to_text = some;
  to_int = int_of;
  to_natural = natural_of;
  to_bool = bool_of;
  to_array = array_of;
  dump = some;
  parse = some;
  object_back = find_in_fields;
  is_object_back = λ fields. refl;
  text_back = λ s. refl;
  int_back = int_text_back;
  natural_back = λ n. refl;
  bool_back = bool_text_back;
  array_back = items_back;
  parse_back = λ j t e. sym e;
}
