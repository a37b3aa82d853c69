-- ===== src/Tests/Json.antt =====
-- A runtime that meets the laws: a small JSON tree, and documents that hold one.
use eventfold_es.Prelude.{
  ℕ, String, true, false, ◌≡◌, refl, Option, none, some, List, [], ◌∷◌, str_eq, if◌then◌else◌, Bool,
}
use eventfold_es.Runtime.{Runtime, RuntimeLaws, ReadsBack, entry}

mutual
  pub data Json : Type 0 where
    null : Json
    num : ℕ → Json
    text : String → Json
    obj : Fields → Json

  pub data Fields : Type 0 where
    nil : Fields
    cons : String → Json → Fields → Fields

-- What the files and messages hold: nothing, a JSON text, or a state with its position.
pub data Document : Type 0 where
  blank : Document
  document : Json → Document
  checkpoint : ℕ → ℕ → Document

pub data Failure : Type 0 where
  conflict missing : Failure
  broken : String → Failure

abbrev pub fields : List (String × Json) → Fields
fields [] = nil
fields ((k, v) ∷ rest) = cons k v (fields rest)

abbrev pub find : String → Fields → Option Json
find k nil = none
find k (cons j v rest) = if str_eq j k then some v else find k rest

abbrev pub get : Json → String → Option Json
get null k = none
get (num n) k = none
get (text s) k = none
get (obj fs) k = find k fs

abbrev pub as_str : Json → Option String
as_str null = none
as_str (num n) = none
as_str (text s) = some s
as_str (obj fs) = none

abbrev pub is_null : Json → Bool
is_null null = true
is_null (num n) = false
is_null (text s) = false
is_null (obj fs) = false

abbrev pub is_blank : Document → Bool
is_blank blank = true
is_blank (document j) = false
is_blank (checkpoint s p) = false

abbrev pub parse : Document → Option Json
parse blank = none
parse (document j) = some j
parse (checkpoint s p) = none

abbrev pub is_conflict : Failure → Bool
is_conflict conflict = true
is_conflict missing = false
is_conflict (broken s) = false

abbrev pub is_missing : Failure → Bool
is_missing conflict = false
is_missing missing = true
is_missing (broken s) = false

abbrev pub json_runtime : Runtime
json_runtime = record {
  Uuid = String;
  namespace = λ _. "namespace";
  new_v5 = λ _ name. name;
  parse_uuid = some;
  show_uuid = λ u. u;
  Bytes = Document;
  empty = blank;
  is_empty = is_blank;
  is_utf8 = λ _. true;
  Value = Json;
  null = null;
  is_null = is_null;
  get = get;
  as_str = as_str;
  text = text;
  object = λ fs. obj (fields fs);
  from_str = parse;
  to_vec = λ v. some (document v);
  Status = Failure;
  failed_precondition = is_conflict;
  not_found = is_missing;
  internal = broken;
  cancelled = broken;
  show_status = λ _. "status";
}

find-fields : (fs : List (String × Json)) (k : String) → find k (fields fs) ≡ entry k fs
unfolding entry
find-fields [] k = refl
find-fields ((j, v) ∷ rest) k = rw (find-fields rest k)

null-eq : (v : Json) → is_null v ≡ true → v ≡ null
null-eq null h = refl
null-eq (num n) h = cc
null-eq (text s) h = cc
null-eq (obj fs) h = cc

pub json-ReadsBack : (v : Json) → ReadsBack json_runtime v
json-ReadsBack v b h = let same : document v ≡ b = cc in rw (← same) refl

pub json_laws : RuntimeLaws json_runtime
json_laws = record {
  parse-show = λ u. refl;
  get-object = find-fields;
  as_str-text = λ s. refl;
  is_null-null = refl;
  is_null-eq = null-eq;
  written = λ v. (document v, refl, refl, refl);
  null-ReadsBack = json-ReadsBack null;
  texts-ReadsBack = λ fs h. json-ReadsBack (obj (fields fs));
}
