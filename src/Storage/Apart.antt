-- ===== src/Storage/Apart.antt =====
-- src/storage.rs, with the saves of src/projection.rs: the caches of the layout's directories do not
-- disturb one another.
use text.Mathlib.TextPositions.{eq_refl}
use eventfold_es.Prelude.{
  String, Bool, true, false, ◌≡◌, refl, ap, ◌∙◌, inl, inr, Option, none, some, [], ◌∷◌, ◌&&◌, ◌++◌,
  append_assoc, str_eq, Result, Bool-cases, Result-cases,
}
use eventfold_es.Runtime.{Runtime}
use eventfold_es.Io.{
  IoError, FilePath, join, IsFileName, join-IsFileName, path_eq, Disk, store_at, write_via_rename,
}
use eventfold_es.Io.Atomic.{create_dir_all-cases, write-cases, rename-cases}
use eventfold_es.Snapshot.{snapshot_path, snapshot_dir}
use eventfold_es.Projection.{
  Projection, ProjectionCheckpoint, checkpoint_path, checkpoint_tmp_path, checkpoint_json,
  save_checkpoint,
}
use eventfold_es.Storage.{StreamLayout, projections_dir, process_managers_dir}

-- A path below a directory.
abbrev pub is_under : FilePath → FilePath → Bool
is_under [] q = true
is_under (c ∷ dir) [] = false
is_under (c ∷ dir) (d ∷ q) = str_eq c d && is_under dir q

under-apart :
    (dir q : FilePath) (name : String)
    → is_under dir q ≡ false
    → path_eq (dir ++ name ∷ []) q ≡ false
unfolding path_eq
under-apart [] q name h = cc
under-apart (c ∷ dir) [] name h = refl
under-apart (c ∷ dir) (d ∷ q) name h = elim (Bool-cases (str_eq c d)) [
  | inr e ↦ rw e refl
  | inl e ↦ rw e (under-apart dir q name (rw e at h))
]

-- Two directories under one base.
is_under-base :
    (base : FilePath) (kind name other member : String) (rest : FilePath)
    → is_under (base ++ kind ∷ name ∷ []) (base ++ other ∷ member ∷ rest)
      ≡ (str_eq kind other && (str_eq name member && true))
is_under-base [] kind name other member rest = refl
is_under-base (c ∷ base) kind name other member rest =
    rw (eq_refl c) (is_under-base base kind name other member rest)

-- The directory of a cache, when it has a file name.
join-kind :
    (base : FilePath) (kind name : String)
    → IsFileName name
    → join (base ++ kind ∷ []) name ≡ base ++ kind ∷ name ∷ []
join-kind base kind name h = join-IsFileName _ name h ∙ append_assoc base (kind ∷ []) (name ∷ [])

join-file :
    (base : FilePath) (kind name file : String)
    → IsFileName name
    → join (base ++ kind ∷ []) name ++ file ∷ [] ≡ base ++ kind ∷ name ∷ file ∷ []
join-file base kind name file h =
    ap (λ (p : FilePath). p ++ file ∷ []) (join-kind base kind name h)
    ∙ append_assoc base (kind ∷ name ∷ []) (file ∷ [])

join-snapshot :
    (base : FilePath) (kind aggregate_type instance_id file : String)
    → IsFileName aggregate_type
    → IsFileName instance_id
    → join (join (base ++ kind ∷ []) aggregate_type) instance_id ++ file ∷ []
      ≡ base ++ kind ∷ aggregate_type ∷ instance_id ∷ file ∷ []
join-snapshot base kind aggregate_type instance_id file typed named =
    ap (λ (p : FilePath). join p instance_id ++ file ∷ [])
      (join-kind base kind aggregate_type typed)
    ∙ ap (λ (p : FilePath). p ++ file ∷ [])
        (join-IsFileName (base ++ kind ∷ aggregate_type ∷ []) instance_id named)
    ∙ append_assoc (base ++ kind ∷ aggregate_type ∷ []) (instance_id ∷ []) (file ∷ [])
    ∙ append_assoc base (kind ∷ aggregate_type ∷ []) (instance_id ∷ file ∷ [])

module _ {B : Type 0} where
  store_at-other :
      (p q : FilePath) (b : Option B) (files : FilePath → Option B)
      → path_eq p q ≡ false
      → store_at p b files q ≡ files q
  unfolding store_at
  store_at-other p q b files h = rw h

  -- A save touches no file but its own two.
  write_via_rename-other :
      (dir tmp path q : FilePath) (json : Result B IoError) (d : Disk B)
      → path_eq tmp q ≡ false
      → path_eq path q ≡ false
      → (write_via_rename dir tmp path json d).1.files q ≡ d.files q
  unfolding write_via_rename
  write_via_rename-other dir tmp path q json d apart other =
      let (d1, same, made) = create_dir_all-cases dir d in
      let kept = ap (λ f. f q) same in
      elim made [
        | inr (e, m) ↦ rw (m, write_via_rename) kept
        | inl m ↦ elim (Result-cases json) [
          | inr (e, v) ↦ rw (m, v, write_via_rename) kept
          | inl (b, v) ↦
              let (d2, wrote) = write-cases tmp b d1 in
              elim wrote [
                | inr (e, left, m2, f2) ↦
                    rw (m, v, m2, write_via_rename)
                      (rw f2 (store_at-other tmp q left d1.files apart ∙ kept))
                | inl (m2, f2) ↦
                    let held : d2.files q ≡ d.files q =
                      rw f2 (store_at-other tmp q (some b) d1.files apart ∙ kept) in
                    let (d3, moved) = rename-cases tmp path d2 in
                    elim moved [
                      | inr (e, m3, f3) ↦ rw (m, v, m2, m3, write_via_rename) (rw f3 held)
                      | inl (m3, f3) ↦
                          rw (m, v, m2, m3, write_via_rename)
                            (rw f3 (
                              store_at-other tmp q none (store_at path (d2.files tmp) d2.files)
                                apart
                              ∙ store_at-other path q (d2.files tmp) d2.files other
                              ∙ held))
                    ]
              ]
        ]
      ]

module _ (X : Runtime) (P : Projection X) where
  save_checkpoint-elsewhere :
      (dir q : FilePath) (c : ProjectionCheckpoint X P) (d : Disk X.Bytes)
      → is_under dir q ≡ false
      → (save_checkpoint X P dir c d).1.files q ≡ d.files q
  unfolding save_checkpoint checkpoint_path checkpoint_tmp_path
  save_checkpoint-elsewhere dir q c d h =
      write_via_rename-other dir (checkpoint_tmp_path dir) (checkpoint_path dir) q
        (checkpoint_json X P c) d (under-apart dir q "checkpoint.json.tmp" h)
        (under-apart dir q "checkpoint.json" h)

  -- Where the names of projections, process managers, aggregate types and instances are file names,
  -- saving a projection's checkpoint in the layout's directory for it, whether it succeeds or fails,
  -- changes neither a checkpoint of a projection of another name, nor one of a process manager, nor
  -- a snapshot.
  pub save_checkpoint-apart :
      (l : StreamLayout) (c : ProjectionCheckpoint X P) (d : Disk X.Bytes)
      (name manager aggregate_type instance_id : String)
      → IsFileName P.name
      → IsFileName name
      → IsFileName manager
      → IsFileName aggregate_type
      → IsFileName instance_id
      → str_eq P.name name ≡ false
      → ((save_checkpoint X P (join (projections_dir l) P.name) c d).1.files
            (checkpoint_path (join (projections_dir l) name))
          ≡ d.files (checkpoint_path (join (projections_dir l) name)))
        × ((save_checkpoint X P (join (projections_dir l) P.name) c d).1.files
              (checkpoint_path (join (process_managers_dir l) manager))
            ≡ d.files (checkpoint_path (join (process_managers_dir l) manager)))
        × ((save_checkpoint X P (join (projections_dir l) P.name) c d).1.files
              (snapshot_path l.base_dir aggregate_type instance_id)
            ≡ d.files (snapshot_path l.base_dir aggregate_type instance_id))
  unfolding projections_dir process_managers_dir checkpoint_path snapshot_path snapshot_dir
  save_checkpoint-apart l c d name manager aggregate_type instance_id self named managing typed of
        ne =
      let here = join-kind l.base_dir "projections" P.name self in
      (
        save_checkpoint-elsewhere _ _ c d (
            rw (here, join-file l.base_dir "projections" name "checkpoint.json" named)
              (is_under-base l.base_dir "projections" P.name "projections" name _
                ∙ ap (λ b. b && true) ne)),
        save_checkpoint-elsewhere _ _ c d (
            rw (here, join-file l.base_dir "process_managers" manager "checkpoint.json" managing)
              (is_under-base l.base_dir "projections" P.name "process_managers" manager _)),
        save_checkpoint-elsewhere _ _ c d (
            rw
              (
                here,
                join-snapshot l.base_dir "snapshots" aggregate_type instance_id "snapshot.json"
                    typed of,
              )
              (is_under-base l.base_dir "projections" P.name "snapshots" aggregate_type _)),
      )
