-- ===== src/History/Guard.antt =====
-- src/daemon/history_store.cc: the privacy guard, which keeps the store inside the data directory.
use dafeng_wubi.Prelude.{ℕ, [], ◌∷◌, ◌++◌, Option, some, ◌≡◌, ◌≢◌, ◌⊎◌, Bytes}

-- a path is `r`, or goes on behind it with a separator
abbrev pub IsUnder : (t r : Bytes) → Type 0
IsUnder t r = (t ≡ r) ⊎ ((rest : Bytes) × (t ≡ r ++ b'/' ∷ rest))

abbrev pub root_directory : Bytes
root_directory = b'/' ∷ []

-- An absolute path lies below a directory: it has the directory's name, a separator and more; the root directory's name is a separator.
abbrev pub LiesBelow : (t r : Bytes) → Type 0
LiesBelow t r =
    ((r ≢ root_directory) × ((rest : Bytes) × (t ≡ r ++ b'/' ∷ rest)))
    ⊎ ((r ≡ root_directory) × ((first : ℕ) × (rest : Bytes) × (t ≡ b'/' ∷ first ∷ rest)))

-- `weakly_canonical` gives paths in normal form, in which no two separators stand at the beginning.
abbrev pub IsNormalizing : (Bytes → Option Bytes) → Type 0
IsNormalizing weakly_canonical =
    (p t rest : Bytes) → weakly_canonical p ≡ some t → t ≢ b'/' ∷ b'/' ∷ rest
