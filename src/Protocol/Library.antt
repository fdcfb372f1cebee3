-- ===== src/Protocol/Library.antt =====
-- What protocol/src/kfc/protocol/json.cpp uses of the library nlohmann::json, with its documented
-- behaviour. An exception of the library is none, and
-- its numbers have no width, as the model's have none.
use kung_fu_chess.Prelude.{
  string_eq, ℕ, ◌≡◌, ℤ, pos, Bool, true, Option, none, some, List, [], ◌∷◌, if◌then◌else◌,
}
use kung_fu_chess.Server.Audience.{Name}

abbrev pub find_name : {A : Type 0} → Name → List (Name × A) → Option A
find_name k [] = none
find_name k ((key, v) ∷ fields) =
    let rest = find_name k fields in if string_eq key k then some v else rest

-- `find_field` is `at`, and the readers are `get`; `to_natural` reads a number that the model keeps as a
-- natural one. What `dump` writes, `parse` reads.
pub record JsonLibrary : Type 1 where
  pub Json : Type 0
  pub of_object : List (Name × Json) → Json
  pub of_text : Name → Json
  pub of_int : ℤ → Json
  pub of_bool : Bool → Json
  pub of_array : List Json → Json
  pub is_object : Json → Bool
  pub find_field : Name → Json → Option Json
  pub to_text : Json → Option Name
  pub to_int : Json → Option ℤ
  pub to_natural : Json → Option ℕ
  pub to_bool : Json → Option Bool
  pub to_array : Json → Option (List Json)
  pub dump : Json → Option (List ℕ)
  pub parse : List ℕ → Option Json
  pub object_back :
      (k : Name) (fields : List (Name × Json))
      → find_field k (of_object fields) ≡ find_name k fields
  pub is_object_back : (fields : List (Name × Json)) → is_object (of_object fields) ≡ true
  pub text_back : (s : Name) → to_text (of_text s) ≡ some s
  pub int_back : (n : ℤ) → to_int (of_int n) ≡ some n
  pub natural_back : (n : ℕ) → to_natural (of_int (pos n)) ≡ some n
  pub bool_back : (b : Bool) → to_bool (of_bool b) ≡ some b
  pub array_back : (xs : List Json) → to_array (of_array xs) ≡ some xs
  pub parse_back : (j : Json) (t : List ℕ) → dump j ≡ some t → parse t ≡ some j
