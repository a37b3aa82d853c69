-- ===== src/Io.antt =====
-- std::io::Error, and the disk of std::fs: a map from paths to contents whose operations may fail.
-- A path is the list of its components, as `Path::components` gives them: a `..` stays in it. Two
-- paths are taken for the same file when these are equal, so no symbolic link and no `..` is
-- followed.
pub mod Atomic
use Prim.Native.Char.{Char, code}
use eventfold_es.Prelude.{
  ℕ, String, Bool, true, false, ◌≡◌, ◌↔◌, Option, none, some, List, [], ◌∷◌, ◌++◌, ◌&&◌, ◌||◌, ◌==◌,
  str_eq, Result, ok, err, if◌then◌else◌, arith, eq_iff,
}

pub data ErrorKind : Type 0 where
  not_found already_exists invalid_data other : ErrorKind
  os : ℕ → ErrorKind

pub record IoError : Type 0 where
  pub kind : ErrorKind
  pub message : String

-- io::Error::other(message)
abbrev pub other_error : String → IoError
other_error m = record { kind = other; message = m }

abbrev pub FilePath : Type 0
FilePath = List String

abbrev is_slash : Char → Bool
is_slash c = code c == 47

abbrev pub is_absolute : String → Bool
is_absolute String.[] = false
is_absolute (String.◌∷◌ c s) = is_slash c

-- What stands before the first slash, and the pieces behind it.
abbrev cut : String → String × List String
cut String.[] = (String.[], [])
cut (String.◌∷◌ c s) =
    let (piece, pieces) = cut s in
    if is_slash c then (String.[], piece ∷ pieces) else (String.◌∷◌ c piece, pieces)

-- Repeated slashes and `.` name nothing.
abbrev name_parts : List String → List String
name_parts [] = []
name_parts (piece ∷ pieces) =
    if str_eq piece "" || str_eq piece "." then name_parts pieces else piece ∷ name_parts pieces

abbrev pub components : String → List String
components s = let (piece, pieces) = cut s in name_parts (piece ∷ pieces)

-- Path::join: an absolute name replaces the path.
abbrev pub join : FilePath → String → FilePath
join p s = if is_absolute s then "/" ∷ components s else p ++ components s

-- A string that is one file name: no separator in it, and neither empty nor `.` nor `..`.
pub record IsFileName (s : String) : Type 0 where
  pub relative : is_absolute s ≡ false
  pub one : components s ≡ s ∷ []
  pub ordinary : str_eq s ".." ≡ false

pub join-IsFileName : (p : FilePath) (s : String) → IsFileName s → join p s ≡ p ++ s ∷ []
join-IsFileName p s h = rw (h.relative, h.one)

unfoldable pub path_eq : FilePath → FilePath → Bool
path_eq [] [] = true
path_eq [] (y ∷ ys) = false
path_eq (x ∷ xs) [] = false
path_eq (x ∷ xs) (y ∷ ys) = str_eq x y && path_eq xs ys

-- What the operating system does to the next operation: a failed write leaves what it wrote.
pub record Fault (B : Type 0) : Type 0 where
  pub error : IoError
  pub partial : Option B

pub record Disk (B : Type 0) : Type 0 where
  pub files : FilePath → Option B
  pub faults : List (Option (Fault B))

module _ {B : Type 0} where
  unfoldable pub store_at : FilePath → Option B → (FilePath → Option B) → FilePath → Option B
  store_at p b files q = if path_eq p q then b else files q

  -- The first planned outcome, and the others.
  unfoldable pub next_fault : List (Option (Fault B)) → Option (Fault B) × List (Option (Fault B))
  next_fault [] = (none, [])
  next_fault (f ∷ fs) = (f, fs)

  -- Directories carry no contents here: making one can fail, and stores nothing.
  unfoldable pub create_dir_all : FilePath → Disk B → Result (Unit {0}) IoError × Disk B
  unfolding next_fault
  create_dir_all p d =
      let (f, fs) = next_fault d.faults in
      let d' = record d { faults = fs } in
      elim f [ none ↦ (ok tt, d') | some x ↦ (err x.error, d') ]

  unfoldable pub write : FilePath → B → Disk B → Result (Unit {0}) IoError × Disk B
  unfolding next_fault store_at
  write p b d =
      let (f, fs) = next_fault d.faults in
      elim f [
        | none ↦ (ok tt, record d { files = store_at p (some b) d.files; faults = fs })
        | some x ↦ (err x.error, record d { files = store_at p x.partial d.files; faults = fs })
      ]

  -- A rename is atomic: it moves the whole file, or fails and changes nothing.
  unfoldable pub rename : FilePath → FilePath → Disk B → Result (Unit {0}) IoError × Disk B
  unfolding next_fault store_at
  rename p q d =
      let (f, fs) = next_fault d.faults in
      elim f [
        | none ↦ (
          ok tt,
          record d { files = store_at p none (store_at q (d.files p) d.files); faults = fs },
        )
        | some x ↦ (err x.error, record d { faults = fs })
      ]

  unfoldable pub read : FilePath → Disk B → Result B IoError × Disk B
  unfolding next_fault
  read p d =
      let (f, fs) = next_fault d.faults in
      let d' = record d { faults = fs } in
      elim f [
        | none ↦ elim (d.files p) [
          | none ↦ (err (record { kind = not_found; message = "not found" }), d')
          | some b ↦ (ok b, d')
        ]
        | some x ↦ (err x.error, d')
      ]

-- An action on the disk, and `?` between two of them.
abbrev pub Io : Type 0 → Type 0 → Type 0
Io B A = Disk B → Result A IoError × Disk B

module _ {B : Type 0} where
  -- OpenOptions::new().create(true).append(true).open(path), and one write at the end of the file.
  unfoldable pub append_line : (Option B → B → B) → FilePath → B → Io B (Unit {0})
  unfolding write
  append_line join_lines p line d = write p (join_lines (d.files p) line) d

module _ {B A C : Type 0} where
  continue : Result A IoError × Disk B → (A → Io B C) → Result C IoError × Disk B
  continue (ok a, d) f = f a d
  continue (err e, d) f = (err e, d)

  infixl 5 ◌>>=◌ ◌>>◌
  unfoldable pub ◌>>=◌ : Io B A → (A → Io B C) → Io B C
  unfolding continue
  ◌>>=◌ m f d = continue (m d) f

  abbrev pub ◌>>◌ : Io B A → Io B C → Io B C
  m >> k = m >>= λ _. k

-- How snapshots and checkpoints are saved: make the directory, write what was serialized to a
-- temporary file, and rename it into place.
unfoldable pub write_via_rename :
    {B : Type 0} → FilePath → FilePath → FilePath → Result B IoError → Io B (Unit {0})
unfolding ◌>>=◌
write_via_rename dir tmp_path path json = do
  create_dir_all dir
  b ← (λ d. (json, d))
  write tmp_path b
  rename tmp_path path
