-- ===== src/Diagnoses/Output.antt =====
-- `_parse_output` of application/diagnosis.py, which checks the answer of Codex. `json.loads` is a
-- parameter. Of its value the code looks at the fields of an object, and of an array only which
-- items are texts.
use autonomous_development.Prelude.{
  ℕ, String, List, [], ◌∷◌, Option, none, some, Bool, true, false, not, ◌&&◌, all, elem, find,
  get_last?, is_blank, is_empty, codes, length, ltb, map, ◌==◌, string_eq,
}
use autonomous_development.Prelude.Raise.{
  Result, ok, err, raise_if, require, value_error, ◌>>=◌, ◌>>◌,
}
use autonomous_development.Domain.Canary.Floats.{Floats}

-- An item of an array is `none` when it is no text.
pub data Value (fl : Floats) : Type 0 where
  text : String → Value fl
  number : fl.Float → Value fl
  array : List (Option String) → Value fl
  other : Value fl

-- `none` is a value that is no object.
abbrev pub Parsed : Floats → Type 0
Parsed fl = Option (List (String × Value fl))

pub record DiagnosisOutput (fl : Floats) : Type 0 where
  pub observed_problem : String
  pub affected_journey : String
  pub confidence : fl.Float
  pub competing_hypotheses : List String
  pub likely_root_cause : String
  pub proposed_change_class : String
  pub expected_outcome : String
  pub risks : List String
  pub requested_paths : List String
  pub required_validation : List String

abbrev pub required_keys : List String
required_keys =
    "observed_problem" ∷ "affected_journey" ∷ "confidence" ∷ "competing_hypotheses"
    ∷ "likely_root_cause" ∷ "proposed_change_class" ∷ "expected_outcome" ∷ "risks"
    ∷ "requested_paths" ∷ "required_validation" ∷ []

-- The test on an item of a list, and on a text of its own.
abbrev pub is_bounded : (max_length : ℕ) → String → Bool
is_bounded max_length value = not (is_blank value) && not (ltb max_length (length (codes value)))

unfoldable pub bounded_items : (max_length : ℕ) → List (Option String) → Result (List String)
bounded_items max_length [] = ok []
bounded_items max_length (none ∷ items) = err value_error
bounded_items max_length (some item ∷ items) = do
  raise_if (not (is_bounded max_length item)) value_error
  rest ← bounded_items max_length items
  ok (item ∷ rest)

module _ {fl : Floats} where
  -- `_bounded_string`
  unfoldable pub bounded_string : Value fl → (max_length : ℕ) → Result String
  bounded_string (text value) max_length = do
    raise_if (not (is_bounded max_length value)) value_error
    ok value
  bounded_string _ max_length = err value_error

  -- `_string_list`
  unfoldable pub string_list :
      Value fl → (max_items max_length : ℕ) → (require_nonempty : Bool) → Result (List String)
  unfolding bounded_items
  string_list (array items) max_items max_length require_nonempty = do
    raise_if (ltb max_items (length items)) value_error
    raise_if (require_nonempty && is_empty items) value_error
    bounded_items max_length items
  string_list _ max_items max_length require_nonempty = err value_error

  unfoldable pub unit_number : Value fl → Result fl.Float
  unit_number (number confidence) = do
    raise_if (not (fl.le fl.zero_float confidence && fl.le confidence fl.one_float)) value_error
    ok confidence
  unit_number _ = err value_error

  -- `set(parsed) == set(_REQUIRED_KEYS)`
  unfoldable pub has_keys : List (String × Value fl) → Bool
  has_keys fields =
      all (λ key. elem key (map (λ f. f.0) fields)) required_keys
      && all (λ f. elem f.0 required_keys) fields

  -- `parsed[key]`
  unfoldable pub field : String → List (String × Value fl) → Value fl
  field key fields = elim (find (λ f. f.0 == key) fields) [ none ↦ other | some f ↦ f.1 ]

  unfoldable pub parse_fields : List (String × Value fl) → Result (DiagnosisOutput fl)
  unfolding has_keys field unit_number bounded_string string_list
  parse_fields fields = do
    raise_if (not (has_keys fields)) value_error
    confidence ← unit_number (field "confidence" fields)
    problem ← bounded_string (field "observed_problem" fields) 1200
    journey ← bounded_string (field "affected_journey" fields) 800
    hypotheses ← string_list (field "competing_hypotheses" fields) 8 600 false
    cause ← bounded_string (field "likely_root_cause" fields) 1200
    class ← bounded_string (field "proposed_change_class" fields) 300
    outcome ← bounded_string (field "expected_outcome" fields) 800
    risks ← string_list (field "risks" fields) 12 500 false
    paths ← string_list (field "requested_paths" fields) 50 256 true
    validation ← string_list (field "required_validation" fields) 20 300 false
    ok (record {
      observed_problem = problem;
      affected_journey = journey;
      confidence = confidence;
      competing_hypotheses = hypotheses;
      likely_root_cause = cause;
      proposed_change_class = class;
      expected_outcome = outcome;
      risks = risks;
      requested_paths = paths;
      required_validation = validation;
    })

  -- `_parse_output`
  unfoldable pub parse_output :
      (loads : String → Result (Parsed fl)) (messages : List String) → Result (DiagnosisOutput fl)
  unfolding parse_fields
  parse_output loads messages = do
    last ← require (get_last? messages) value_error
    parsed ← loads last
    fields ← require parsed value_error
    parse_fields fields
