-- ===== src/Store/Builder/Registered.antt =====
-- src/store.rs: what `open` makes of the registered projections.
use eventfold_es.Prelude.{
  String, ◌≡◌, refl, sym, ap, ◌∙◌, none, some, List, [], ◌∷◌, ◌++◌, Result, ok, err, inl, inr,
  str_eq, All, Bool-cases, Result-cases, Option-cases,
}
use eventfold_es.Runtime.{Runtime, entry}
use eventfold_es.Client.{Grpc}
use eventfold_es.Io.{IoError, FilePath, join, Disk, read, next_fault}
use eventfold_es.Projection
use eventfold_es.Projection.{
  Projection, ProjectionCheckpoint, ProjectionRunner, default_checkpoint, load_checkpoint,
  save_checkpoint, checkpoint_path,
}
use eventfold_es.Map.{insert, entry-insert_self, entry-insert_other}
use eventfold_es.Store.Views.{AnyOf, ProjectionCatchUp, erase}
use eventfold_es.Store.Builder.{ProjectionFactory, boxed, projection_factory, init_projections}

read-files : {B : Type 0} (p : FilePath) (d : Disk B) → (read p d).1.files ≡ d.files
unfolding read
read-files p d = elim (Option-cases (next_fault d.faults).0) [
  | inr (x, e) ↦ rw (e, read)
  | inl e ↦ elim (Option-cases (d.files p)) [
    | inl q ↦ rw (e, q, read)
    | inr (b, q) ↦ rw (e, q, read)
  ]
]

new-files :
    (X : Runtime) (P : Projection X) (dir : FilePath) (d : Disk X.Bytes)
    → (Projection.new X P dir d).1.files ≡ d.files
unfolding Projection.new load_checkpoint
new-files X P dir d =
    let kept = read-files (checkpoint_path dir) d in
    elim (Result-cases (load_checkpoint X P dir d).0) [
      | inl (found, e) ↦ rw (e, Projection.new) kept
      | inr (e_, e) ↦ rw (e, Projection.new) kept
    ]

pub new-dir :
    (X : Runtime) (P : Projection X) (dir : FilePath) (d : Disk X.Bytes)
    (runner : ProjectionRunner X P)
    → (Projection.new X P dir d).0 ≡ ok runner
    → runner.checkpoint_dir ≡ dir
unfolding Projection.new
new-dir X P dir d runner h = elim (Result-cases (load_checkpoint X P dir d).0) [
  | inl (found, e) ↦
      ap
        (λ (x : Result (ProjectionRunner X P) IoError). elim x [
          | ok r ↦ r.checkpoint_dir
          | err _ ↦ dir
        ])
        (sym (rw (e, Projection.new) at h))
  | inr (e_, e) ↦ cc (rw (e, Projection.new) at h)
]

module _ (X : Runtime) (G : Grpc X) (Any Actors : Type 0) where
  -- A factory that only reads the disk.
  abbrev pub IsReader : String × ProjectionFactory X G Any Actors → Type 0
  IsReader f = (dir : FilePath) (d : Disk X.Bytes) → (f.1 dir d).1.files ≡ d.files

  boxed-disk :
      (P : Projection X) (any : AnyOf Any P.State)
      (ran : Result (ProjectionRunner X P) IoError × Disk X.Bytes)
      → (boxed X G Any Actors P any ran).1 ≡ ran.1
  unfolding boxed
  boxed-disk P any (ok runner, d) = refl
  boxed-disk P any (err e, d) = refl

  pub projection_factory-IsReader :
      (P : Projection X) (any : AnyOf Any P.State)
      → IsReader (P.name, projection_factory X G Any Actors P any)
  unfolding projection_factory
  projection_factory-IsReader P any dir d =
      let here = join (join dir "projections") P.name in
      ap (λ (x : Disk X.Bytes). x.files) (boxed-disk P any (Projection.new X P here d))
      ∙ new-files X P here d

  init_projections-other :
      (rest : List (String × ProjectionFactory X G Any Actors)) (name : String) (dir : FilePath)
      (built ps : List (String × ProjectionCatchUp X G Any)) (d : Disk X.Bytes)
      → entry name rest ≡ none
      → (init_projections X G Any Actors rest dir built d).0 ≡ ok ps
      → entry name ps ≡ entry name built
  unfolding init_projections entry
  init_projections-other [] name dir built ps d gone done =
      let same : built ≡ ps = cc in rw same refl
  init_projections-other ((n, f) ∷ rest) name dir built ps d gone done =
      elim (Bool-cases (str_eq n name)) [
        | inl q ↦ cc (rw q at gone)
        | inr q ↦ elim (Result-cases (f dir d).0) [
          | inr (e, g) ↦ cc (rw (g, init_projections) at done)
          | inl (runner, g) ↦
              init_projections-other rest name dir (insert n runner built) ps (f dir d).1
                (rw q at gone) (rw (g, init_projections) at done)
              ∙ entry-insert_other n name runner built q
        ]
      ]

  -- The runner of a name is that of its last registration.
  pub init_projections-last :
      (before : List (String × ProjectionFactory X G Any Actors)) (name : String)
      (f : ProjectionFactory X G Any Actors)
      (after : List (String × ProjectionFactory X G Any Actors)) (dir : FilePath)
      (built ps : List (String × ProjectionCatchUp X G Any)) (d : Disk X.Bytes)
      → All IsReader before
      → entry name after ≡ none
      → (init_projections X G Any Actors (before ++ (name, f) ∷ after) dir built d).0 ≡ ok ps
      → (at : Disk X.Bytes) × (runner : ProjectionCatchUp X G Any) × (at.files ≡ d.files)
        × ((f dir at).0 ≡ ok runner)
        × (entry name ps ≡ some runner)
  unfolding init_projections
  init_projections-last [] name f after dir built ps d readers gone done =
      elim (Result-cases (f dir d).0) [
        | inr (e, g) ↦ cc (rw (g, init_projections) at done)
        | inl (runner, g) ↦ (
          d,
          runner,
          refl,
          g,
          init_projections-other after name dir (insert name runner built) ps (f dir d).1 gone
                (rw (g, init_projections) at done)
              ∙ entry-insert_self name runner built,
        )
      ]
  init_projections-last ((n, h) ∷ before) name f after dir built ps d readers gone done =
      elim (Result-cases (h dir d).0) [
        | inr (e, g) ↦ cc (rw (g, init_projections) at done)
        | inl (runner, g) ↦
            let (at, made, same, ok_, found) =
              init_projections-last before name f after dir (insert n runner built) ps (h dir d).1
                readers.1 gone (rw (g, init_projections) at done) in
            (at, made, same ∙ readers.0 dir d, ok_, found)
      ]

  pub boxed-made :
      (P : Projection X) (any : AnyOf Any P.State)
      (ran : Result (ProjectionRunner X P) IoError × Disk X.Bytes)
      (made : ProjectionCatchUp X G Any)
      → (boxed X G Any Actors P any ran).0 ≡ ok made
      → (runner : ProjectionRunner X P) × (ran.0 ≡ ok runner) × (erase X G Any P any runner ≡ made)
  unfolding boxed
  boxed-made P any (ok runner, d) made h = (runner, refl, cc)
  boxed-made P any (err e, d) made h = cc
