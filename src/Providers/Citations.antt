-- ===== src/Providers/Citations.antt =====
-- internal/citations/citations.go: `FromMap`, `ToMap` and what they call. A value of a `map[string]any` that
-- `json.Unmarshal` made is a text, a number or anything else; `int(v)` of a float and the text that
-- stands for a value of the citation's own map are parameters.
use llmadapter.Prelude.{
  ◌&&◌, nat_eq, is_some, ℕ, String, not, Option, none, some, List, [], ◌∷◌, ◌++◌, any, filter, map,
  ◌==◌, string_eq, if◌then◌else◌,
}
use llmadapter.Prelude.Assoc.{Assoc, lookup, insert}
use llmadapter.Unified.Content.{AnyMap}
use llmadapter.Unified.Usage.{Float64}
use llmadapter.Unified.Event.{Citation}

pub data AnyValue : Type 0 where
  text : String → AnyValue
  number : Float64 → AnyValue
  other : String → AnyValue

abbrev pub AnyValues : Type 0
AnyValues = Assoc String AnyValue

pub record Spec : Type 0 where
  pub text_keys : List String
  pub title_keys : List String
  pub document_id_keys : List String
  pub start_keys : List String
  pub end_keys : List String

-- A nil value and one of another type read as the empty text.
unfoldable string_value : Option AnyValue → String
string_value (some (text t)) = t
string_value _ = ""

unfoldable first_string_value : AnyValues → List String → String
unfolding string_value
first_string_value values [] = ""
first_string_value values (key ∷ rest) =
    let later = first_string_value values rest in
    let value = string_value (lookup key values) in if not (value == "") then value else later

unfoldable first_present : AnyValues → List String → Option AnyValue
first_present values [] = none
first_present values (key ∷ rest) = elim (lookup key values) [
  | some value ↦ some value
  | none ↦ first_present values rest
]

abbrev known_keys : Spec → List String
known_keys spec =
    "type"
    ∷ "url"
    ∷ (spec.text_keys
        ++ (spec.title_keys ++ (spec.document_id_keys ++ (spec.start_keys ++ spec.end_keys))))

module _ (int_of_float : Float64 → ℕ) (show_value : AnyValue → String) where
  unfoldable int_value : Option AnyValue → ℕ
  int_value (some (number x)) = int_of_float x
  int_value _ = 0

  unfoldable extra_meta : AnyValues → List String → AnyMap
  extra_meta values known =
      map (λ row. (row.0, show_value row.1))
        (filter (λ row. not (any (λ key. key == row.0) known)) values)

  unfoldable pub from_map : AnyValues → Spec → Citation
  unfolding string_value first_string_value first_present int_value extra_meta
  from_map values spec = record {
    type = string_value (lookup "type" values);
    text = first_string_value values spec.text_keys;
    url = string_value (lookup "url" values);
    title = first_string_value values spec.title_keys;
    start_offset = int_value (first_present values spec.start_keys);
    end_offset = int_value (first_present values spec.end_keys);
    document_id = first_string_value values spec.document_id_keys;
    meta = extra_meta values (known_keys spec);
  }

pub record OutputSpec : Type 0 where
  pub text_key : String
  pub title_key : String
  pub document_id_key : String
  pub start_key : String
  pub end_key : String

-- The value of an `int`, and of the text that stands for a value of the citation's own map.
module _ (value_of_int : ℕ → AnyValue) (value_of_text : String → AnyValue) where
  abbrev put_text : String → String → AnyValues → AnyValues
  put_text key t out = if not (t == "") && not (key == "") then insert key (text t) out else out

  abbrev put_int : String → ℕ → AnyValues → AnyValues
  put_int key n out =
      if not (n == 0) && not (key == "") then insert key (value_of_int n) out else out

  unfoldable put_meta : AnyMap → AnyValues → AnyValues
  put_meta [] out = out
  put_meta ((key, value) ∷ rows) out =
      put_meta rows (if is_some (lookup key out) then out else insert key (value_of_text value) out)

  unfoldable pub to_map : Citation → OutputSpec → AnyValues
  unfolding put_meta
  to_map citation spec = put_meta citation.meta (
      put_int spec.end_key citation.end_offset (
        put_int spec.start_key citation.start_offset (
          put_text spec.document_id_key citation.document_id (
            put_text spec.title_key citation.title (
              put_text spec.text_key citation.text
                (put_text "url" citation.url (put_text "type" citation.type [])))))))
