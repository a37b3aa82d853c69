-- ===== src/Runtime.antt =====
-- What the program calls and does not implement: the uuid, serde_json and tonic crates. Each is a
-- parameter, and the laws that the proofs use are a record of their own.
-- Byte strings are opaque here: the program only builds them by serde_json, tests them for
-- emptiness, and reads them back.
use eventfold_es.Prelude.{
  ℕ, String, Bool, true, false, ◌≡◌, Option, none, some, List, [], ◌∷◌, str_eq, if◌then◌else◌,
}

pub record Runtime : Type 1 where
  -- uuid: `Uuid`, `Uuid::new_v5`, `Uuid::parse_str`, `to_string`.
  pub Uuid : Type 0
  pub namespace : List ℕ → Uuid
  pub new_v5 : Uuid → String → Uuid
  pub parse_uuid : String → Option Uuid
  pub show_uuid : Uuid → String
  -- Vec<u8> and the UTF-8 test of `str::from_utf8`, which returns a view of the same bytes.
  pub Bytes : Type 0
  pub empty : Bytes
  pub is_empty : Bytes → Bool
  pub is_utf8 : Bytes → Bool
  -- serde_json: `Value`, `Value::Null`, `is_null`, `get`, `as_str`, `json!`, `from_str`, `to_vec`.
  pub Value : Type 0
  pub null : Value
  pub is_null : Value → Bool
  pub get : Value → String → Option Value
  pub as_str : Value → Option String
  pub text : String → Value
  pub object : List (String × Value) → Value
  pub from_str : Bytes → Option Value
  pub to_vec : Value → Option Bytes
  -- tonic: `Status`, the two codes that the program tests, and `Display`.
  pub Status : Type 0
  pub failed_precondition : Status → Bool
  pub not_found : Status → Bool
  pub internal : String → Status
  pub cancelled : String → Status
  pub show_status : Status → String

-- str::from_utf8(b).ok()
unfoldable pub from_utf8 : (X : Runtime) → X.Bytes → Option X.Bytes
from_utf8 X b = if X.is_utf8 b then some b else none

-- The first entry of a key; serde_json's `json!` objects and derived structs have distinct keys.
unfoldable pub entry {ℓ} : {A : Type ℓ} → String → List (String × A) → Option A
entry k [] = none
entry k ((j, v) ∷ rest) = if str_eq j k then some v else entry k rest

-- A value whose JSON text, if it is written, reads back as the same value. It is not so of every
-- `Value`: serde_json's default parser may round an f64, and refuses deep nesting.
abbrev pub ReadsBack : (X : Runtime) → X.Value → Type 0
ReadsBack X v = (b : X.Bytes) → X.to_vec v ≡ some b → X.from_str b ≡ some v

-- The fields of an object, when all are strings.
abbrev pub AreTexts : (X : Runtime) → List (String × X.Value) → Type 0
AreTexts X [] = Unit {0}
AreTexts X ((k, v) ∷ rest) = ((s : String) × (v ≡ X.text s)) × AreTexts X rest

-- Documented behaviour of those crates.
pub record RuntimeLaws (X : Runtime) : Type 0 where
  pub parse-show : (u : X.Uuid) → X.parse_uuid (X.show_uuid u) ≡ some u
  pub get-object : (fs : List (String × X.Value)) (k : String) → X.get (X.object fs) k ≡ entry k fs
  pub as_str-text : (s : String) → X.as_str (X.text s) ≡ some s
  pub is_null-null : X.is_null X.null ≡ true
  pub is_null-eq : (v : X.Value) → X.is_null v ≡ true → v ≡ X.null
  -- A `Value` is always written, as a nonempty UTF-8 text.
  pub written :
      (v : X.Value)
      → (b : X.Bytes) × (X.to_vec v ≡ some b) × (X.is_empty b ≡ false) × (X.is_utf8 b ≡ true)
  -- Null and a flat object of strings have no number and no nesting to lose.
  pub null-ReadsBack : ReadsBack X X.null
  pub texts-ReadsBack : (fs : List (String × X.Value)) → AreTexts X fs → ReadsBack X (X.object fs)
