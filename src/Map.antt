-- ===== src/Map.antt =====
-- The maps of src/store.rs and of request metadata (std and tonic), as association lists.
use text.Mathlib.TextEquality.{eq_iff}
use eventfold_es.Prelude.{
  String, ◌≡◌, refl, false, inl, inr, none, some, List, [], ◌∷◌, str_eq, Bool-cases, if◌then◌else◌,
}
use eventfold_es.Runtime.{entry}

-- HashMap::remove and HashMap::insert
unfoldable pub without {ℓ} : {B : Type ℓ} → String → List (String × B) → List (String × B)
without k [] = []
without k ((j, v) ∷ rest) =
    let others = without k rest in if str_eq j k then others else (j, v) ∷ others

unfoldable pub insert {ℓ} : {B : Type ℓ} → String → B → List (String × B) → List (String × B)
unfolding without
insert k v l = (k, v) ∷ without k l

-- A key that was removed is gone, and the others are as they were.
pub entry-without_self {ℓ} :
    {B : Type ℓ} (k : String) (l : List (String × B)) → entry k (without k l) ≡ none
unfolding entry without
entry-without_self k [] = refl
entry-without_self k ((j, v) ∷ rest) = elim (Bool-cases (str_eq j k)) [
  | inl e ↦ rw e (entry-without_self k rest)
  | inr e ↦ rw (e, e) (entry-without_self k rest)
]

pub entry-without_other {ℓ} :
    {B : Type ℓ} (k q : String) (l : List (String × B))
    → str_eq k q ≡ false
    → entry q (without k l) ≡ entry q l
unfolding entry without
entry-without_other k q [] ne = refl
entry-without_other k q ((j, v) ∷ rest) ne = elim (Bool-cases (str_eq j k)) [
  | inl e ↦
      let same : j ≡ k = (eq_iff j k).0 e in
      let other : str_eq j q ≡ false = rw same ne in rw (e, other) (entry-without_other k q rest ne)
  | inr e ↦ elim (Bool-cases (str_eq j q)) [
    | inl f ↦ rw (e, f)
    | inr f ↦ rw (e, f) (entry-without_other k q rest ne)
  ]
]

pub entry-insert_self {ℓ} :
    {B : Type ℓ} (k : String) (v : B) (l : List (String × B)) → entry k (insert k v l) ≡ some v
unfolding entry insert
entry-insert_self k v l = rw ((eq_iff k k).1 refl)

pub entry-insert_other {ℓ} :
    {B : Type ℓ} (k q : String) (v : B) (l : List (String × B))
    → str_eq k q ≡ false
    → entry q (insert k v l) ≡ entry q l
unfolding entry insert
entry-insert_other k q v l ne = rw ne (entry-without_other k q l ne)
