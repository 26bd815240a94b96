-- ===== src/Cli/Private.antt =====
-- src/cli/main.cc with src/daemon/learning_round.cc and src/daemon/git_sync.cc: `learn` sends nothing.
use dafeng_wubi.Prelude.{◌∷◌, ◌≡◌, ◌⊎◌, Bytes, codes}
use dafeng_wubi.Disk.{Disk}
use dafeng_wubi.GitSync.{Libgit2, GitSync}
use dafeng_wubi.GitSync.Effects.{Effect, Effects}
use dafeng_wubi.LearningRound.{World, under}
use dafeng_wubi.LearningRound.Syncing.{RoundCommit}
use dafeng_wubi.History.Store.{Files}
use dafeng_wubi.History.Opening.{Handles, Touches, TouchesOnly}

module _ (os : Files) (handles : Handles os) (touches : Touches os) (git : Libgit2)
    (effects : Effects git) where
  open effects use {log}

  -- Nothing has happened to the repositories, or a learning round's commit has been made.
  abbrev pub Committed : (before after : git.World) → Type 0
  Committed before after =
      (log after ≡ log before)
      ⊎ ((e : Effect git.Tree git.Commit) × RoundCommit git effects e
          × (log after ≡ e ∷ log before))

  -- the files of the store behind the command: only the database and its directory are touched, and no handle is left open
  abbrev pub OnlyStore : (data_dir : Bytes) → (before after : os.World) → Type 0
  OnlyStore data_dir before after =
      TouchesOnly os touches (under data_dir (codes "history.db")) (touches.touched before)
        (touches.touched after)
      × (handles.live after ≡ handles.live before)
