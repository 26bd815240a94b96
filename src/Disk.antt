-- ===== src/Disk.antt =====
-- The part of the file system that the writers of src/daemon use: `std::ofstream` on `path.tmp`, then
-- `std::filesystem::rename` onto `path`. Which calls succeed is decided outside the program.
use dafeng_wubi.Prelude.{
  ℕ, Bool, true, false, not, List, [], ◌∷◌, ◌++◌, some, ◌≡◌, refl, ◌⊎◌, arith, if◌then◌else◌, take,
  Bytes, bytes_eq, bytes_eq_refl, codes,
}
use dafeng_wubi.Prelude.UnorderedMap.{find, assign, erase, find-assign, find-erase}

-- the contents of each file
abbrev pub Disk : Type 0
Disk = List (Bytes × Bytes)

-- The outcome of the calls: whether the file opens, how many bytes are written if writing fails, and
-- whether the rename succeeds.
pub record Faults : Type 0 where
  pub open_ok : Bool
  pub write_ok : Bool
  pub kept : ℕ
  pub rename_ok : Bool

-- `tmp = path; tmp += ".tmp"`
abbrev pub tmp_of : Bytes → Bytes
tmp_of path = path ++ codes ".tmp"

-- Open the temporary file, write, close, rename: the common frame of `NgramTable::Save`,
-- `YamlGenerator::Generate` and `WriteRimeDictYaml`.
unfoldable pub save_file : Faults → Bytes → Bytes → Disk → Bool × Disk
save_file f path content disk =
    if not f.open_ok
    then (false, disk)
    else if not f.write_ok
    then (false, assign (tmp_of path) (take f.kept content) disk)
    else if not f.rename_ok
    then (false, assign (tmp_of path) content disk)
    else (true, erase (tmp_of path) (assign path content (assign (tmp_of path) content disk)))

append-ne_self : (path : Bytes) → bytes_eq (tmp_of path) path ≡ false
append-ne_self [] = refl
append-ne_self (c ∷ path) = ground (arith, append-ne_self path)

-- A save that reports success has left the whole content in the file; one that reports failure has left
-- the file as it was, whichever call failed.
pub save_file_atomic :
    (f : Faults) (path content : Bytes) (disk : Disk)
    → let r = save_file f path content disk in
      ((r.0 ≡ true) × (find path r.1 ≡ some content))
      ⊎ ((r.0 ≡ false) × (find path r.1 ≡ find path disk))
unfolding save_file
save_file_atomic f path content disk = ground (
  arith,
  append-ne_self path,
  bytes_eq_refl path,
  find-erase (tmp_of path) path (assign path content (assign (tmp_of path) content disk)),
  find-assign path path content (assign (tmp_of path) content disk),
  find-assign (tmp_of path) path content disk,
  find-assign (tmp_of path) path (take f.kept content) disk,
)

-- A save touches its file and its temporary file only.
pub save_file-other :
    (f : Faults) (path content : Bytes) (disk : Disk) (other : Bytes)
    → bytes_eq path other ≡ false
    → bytes_eq (tmp_of path) other ≡ false
    → find other (save_file f path content disk).1 ≡ find other disk
unfolding save_file
save_file-other f path content disk other h k = ground (
  arith,
  find-erase (tmp_of path) other (assign path content (assign (tmp_of path) content disk)),
  find-assign path other content (assign (tmp_of path) content disk),
  find-assign (tmp_of path) other content disk,
  find-assign (tmp_of path) other (take f.kept content) disk,
)
