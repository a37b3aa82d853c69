-- ===== src/Io/Atomic.antt =====
-- Saving by a rename: what is found under the path afterwards, whatever operation fails.
use text.Mathlib.TextPositions.{eq_refl}
use eventfold_es.Prelude.{
  ◌++◌, String, [], ◌∷◌, arith, str_eq, true, false, ◌≡◌, refl, ◌∙◌, ap, ◌⊎◌, inl, inr, Option,
  none, some, Result, ok, err, Option-cases, Result-cases,
}
use eventfold_es.Io.{
  IoError, FilePath, path_eq, Disk, store_at, next_fault, create_dir_all, write, rename, read,
  write_via_rename,
}

module _ {B : Type 0} where
  pub create_dir_all-cases :
      (p : FilePath) (d : Disk B)
      → (d' : Disk B) × (d'.files ≡ d.files)
        × ((create_dir_all p d ≡ (ok tt, d'))
            ⊎ ((e : IoError) × (create_dir_all p d ≡ (err e, d'))))
  unfolding create_dir_all
  create_dir_all-cases p d = elim (Option-cases (next_fault d.faults).0) [
    | inl q ↦ (record d { faults = (next_fault d.faults).1 }, refl, inl (rw (q, create_dir_all)))
    | inr (x, q) ↦
        (record d { faults = (next_fault d.faults).1 }, refl, inr (x.error, rw (q, create_dir_all)))
  ]

  pub write-cases :
      (p : FilePath) (b : B) (d : Disk B)
      → (d' : Disk B) × (((write p b d ≡ (ok tt, d')) × (d'.files ≡ store_at p (some b) d.files))
          ⊎ ((e : IoError) × (left : Option B) × (write p b d ≡ (err e, d'))
              × (d'.files ≡ store_at p left d.files)))
  unfolding write
  write-cases p b d = elim (Option-cases (next_fault d.faults).0) [
    | inl q ↦ (
      record { files = store_at p (some b) d.files; faults = (next_fault d.faults).1 },
      inl (rw (q, write), refl),
    )
    | inr (x, q) ↦ (
      record { files = store_at p x.partial d.files; faults = (next_fault d.faults).1 },
      inr (x.error, x.partial, rw (q, write), refl),
    )
  ]

  pub rename-cases :
      (p q : FilePath) (d : Disk B)
      → (d' : Disk B) × (((rename p q d ≡ (ok tt, d'))
            × (d'.files ≡ store_at p none (store_at q (d.files p) d.files)))
          ⊎ ((e : IoError) × (rename p q d ≡ (err e, d')) × (d'.files ≡ d.files)))
  unfolding rename
  rename-cases p q d = elim (Option-cases (next_fault d.faults).0) [
    | inl f ↦ (
      record {
        files = store_at p none (store_at q (d.files p) d.files);
        faults = (next_fault d.faults).1;
      },
      inl (rw (f, rename), refl),
    )
    | inr (x, f) ↦
        (record d { faults = (next_fault d.faults).1 }, inr (x.error, rw (f, rename), refl))
  ]

  -- The file at `p` after a failed and after a successful save.
  abbrev pub IsKept : FilePath → Disk B → Result (Unit {0}) IoError × Disk B → Type 0
  IsKept p d out = (out.1.files p ≡ d.files p) × ((e : IoError) × (out.0 ≡ err e))

  abbrev pub IsReplaced : FilePath → Result B IoError → Result (Unit {0}) IoError × Disk B → Type 0
  IsReplaced p json out = (b : B) × (json ≡ ok b) × (out.1.files p ≡ some b) × (out.0 ≡ ok tt)

  module _ (dir tmp path : FilePath) (differ : path_eq tmp path ≡ false)
      (tmp_self : path_eq tmp tmp ≡ true) (self : path_eq path path ≡ true) where
    stored_other :
        (b : Option B) (files : FilePath → Option B) → store_at tmp b files path ≡ files path
    unfolding store_at
    stored_other b files = rw differ

    stored_self :
        (p : FilePath) (b : Option B) (files : FilePath → Option B)
        → path_eq p p ≡ true
        → store_at p b files p ≡ b
    unfolding store_at
    stored_self p b files h = rw h

    -- However the operations fail, the file is kept with an error, or replaced with success.
    pub write_via_rename_atomic :
        (json : Result B IoError) (d : Disk B)
        → IsKept path d (write_via_rename dir tmp path json d)
          ⊎ IsReplaced path json (write_via_rename dir tmp path json d)
    unfolding write_via_rename
    write_via_rename_atomic json d =
        let (d1, same, made) = create_dir_all-cases dir d in
        elim made [
          | inr (e, q) ↦ rw (q, write_via_rename) (inl (ap (λ f. f path) same, (e, refl)))
          | inl q ↦ elim (Result-cases json) [
            | inr (e, v) ↦ rw (q, v, write_via_rename) (inl (ap (λ f. f path) same, (e, refl)))
            | inl (b, v) ↦ written d1 same q b v (write-cases tmp b d1)
          ]
        ]
      where
        renamed :
            (d1 : Disk B)
            → d1.files ≡ d.files
            → create_dir_all dir d ≡ (ok tt, d1)
            → (b : B) → json ≡ ok b
            → (d2 : Disk B) → write tmp b d1 ≡ (ok tt, d2)
            → d2.files ≡ store_at tmp (some b) d1.files
            → (d3 : Disk B) × (((rename tmp path d2 ≡ (ok tt, d3))
                  × (d3.files ≡ store_at tmp none (store_at path (d2.files tmp) d2.files)))
                ⊎ ((e : IoError) × (rename tmp path d2 ≡ (err e, d3)) × (d3.files ≡ d2.files)))
            → IsKept path d (write_via_rename dir tmp path json d)
              ⊎ IsReplaced path json (write_via_rename dir tmp path json d)
        renamed d1 same q b v d2 q2 f2 (d3, inr (e, q3, f3)) =
            rw (q, v, q2, q3, write_via_rename)
              (inl
                (rw (f3, f2) (stored_other (some b) d1.files ∙ ap (λ f. f path) same), (e, refl)))
        renamed d1 same q b v d2 q2 f2 (d3, inl (q3, f3)) =
            rw (q, v, q2, q3, write_via_rename)
              (inr (
                b,
                refl,
                rw f3 (
                    stored_other none _
                    ∙ stored_self path _ d2.files self
                    ∙ ap (λ f. f tmp) f2
                    ∙ stored_self tmp (some b) d1.files tmp_self),
                refl,
              ))

        written :
            (d1 : Disk B)
            → d1.files ≡ d.files
            → create_dir_all dir d ≡ (ok tt, d1)
            → (b : B) → json ≡ ok b
            → (d2 : Disk B) × (((write tmp b d1 ≡ (ok tt, d2))
                  × (d2.files ≡ store_at tmp (some b) d1.files))
                ⊎ ((e : IoError) × (left : Option B) × (write tmp b d1 ≡ (err e, d2))
                    × (d2.files ≡ store_at tmp left d1.files)))
            → IsKept path d (write_via_rename dir tmp path json d)
              ⊎ IsReplaced path json (write_via_rename dir tmp path json d)
        written d1 same q b v (d2, inr (e, left, q2, f2)) =
            rw (q, v, q2, write_via_rename)
              (inl (rw f2 (stored_other left d1.files ∙ ap (λ f. f path) same), (e, refl)))
        written d1 same q b v (d2, inl (q2, f2)) =
            renamed d1 same q b v d2 q2 f2 (rename-cases tmp path d2)

-- A read that no fault stops returns the file.
pub read_stored :
    {B : Type 0} (p : FilePath) (d : Disk B) (b : B)
    → (next_fault d.faults).0 ≡ none
    → d.files p ≡ some b
    → (read p d).0 ≡ ok b
unfolding read
read_stored p d b quiet stored = rw (quiet, read) (rw (stored, read))

-- Two files of one directory are the same if their names are.
pub path_eq-join : (d : FilePath) (a b : String) → path_eq (d ++ a ∷ []) (d ++ b ∷ []) ≡ str_eq a b
unfolding path_eq
path_eq-join [] a b = ground arith
path_eq-join (x ∷ d) a b = rw (eq_refl x) (path_eq-join d a b)

nonempty : (p : FilePath) (a : String) → path_eq [] (p ++ a ∷ []) ≡ false
unfolding path_eq
nonempty [] a = refl
nonempty (x ∷ p) a = refl

nonempty_too : (p : FilePath) (a : String) → path_eq (p ++ a ∷ []) [] ≡ false
unfolding path_eq
nonempty_too [] a = refl
nonempty_too (x ∷ p) a = refl

-- Files of different names are different, in whatever directories.
pub path_eq-apart :
    (p q : FilePath) (a b : String)
    → str_eq a b ≡ false
    → path_eq (p ++ a ∷ []) (q ++ b ∷ []) ≡ false
unfolding path_eq
path_eq-apart [] [] a b h = rw h
path_eq-apart [] (y ∷ q) a b h = rw (nonempty q b) (ground arith)
path_eq-apart (x ∷ p) [] a b h = rw (nonempty_too p a) (ground arith)
path_eq-apart (x ∷ p) (y ∷ q) a b h = rw (path_eq-apart p q a b h) (ground arith)
