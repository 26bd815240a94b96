-- ===== src/GitSync/Lifecycle.antt =====
-- src/daemon/git_sync.cc: `Libgit2Lifecycle`, the count of the objects that use libgit2, whose constructor and destructor are
-- steps of any threads, one at a time under `mu_`.
use dafeng_wubi.Prelude.{ℕ, ◌+◌, ◌-◌, ◌<◌, ◌==◌, ◌≡◌, refl, arith, if◌then◌else◌, ltb}

-- `refs_`, and how often libgit2 has been started and shut down
pub record Lifecycle : Type 0 where
  pub refs : ℕ
  pub inits : ℕ
  pub shutdowns : ℕ

abbrev pub unused : Lifecycle
unused = record { refs = 0; inits = 0; shutdowns = 0 }

-- the constructor
unfoldable pub acquire : Lifecycle → Lifecycle
acquire l = record {
  refs = l.refs + 1;
  inits = if l.refs == 0 then l.inits + 1 else l.inits;
  shutdowns = l.shutdowns;
}

-- the destructor
unfoldable pub release : Lifecycle → Lifecycle
release l = record {
  refs = l.refs - 1;
  inits = l.inits;
  shutdowns = if l.refs - 1 == 0 then l.shutdowns + 1 else l.shutdowns;
}

-- what `live` objects can do: one more is made, or one of them is destroyed
infixl 20 ◌⟶*◌
pub data ◌⟶*◌ : Lifecycle × ℕ → Lifecycle × ℕ → Type 0 where
  stay : {c : Lifecycle × ℕ} → c ⟶* c
  make :
      {l : Lifecycle} {live : ℕ} {c : Lifecycle × ℕ} → (acquire l, live + 1) ⟶* c → (l, live) ⟶* c
  destroy :
      {l : Lifecycle} {live : ℕ} {c : Lifecycle × ℕ}
      → 0 < live
      → (release l, live - 1) ⟶* c
      → (l, live) ⟶* c

-- libgit2 runs exactly while an object lives
abbrev pub Balanced : Lifecycle × ℕ → Type 0
Balanced (l, live) = (l.refs ≡ live) × (l.inits ≡ l.shutdowns + (if ltb 0 live then 1 else 0))

acquire-Balanced : (l : Lifecycle) (live : ℕ) → Balanced (l, live) → Balanced (acquire l, live + 1)
unfolding acquire
acquire-Balanced l live h = ground arith

release-Balanced :
    (l : Lifecycle) (live : ℕ) → 0 < live → Balanced (l, live) → Balanced (release l, live - 1)
unfolding release
release-Balanced l live k h = ground arith

steps-Balanced : {c c' : Lifecycle × ℕ} → c ⟶* c' → Balanced c → Balanced c'
steps-Balanced stay h = h
steps-Balanced (make {l = l} {live = live} rest) h = steps-Balanced rest (acquire-Balanced l live h)
steps-Balanced (destroy {l = l} {live = live} k rest) h =
    steps-Balanced rest (release-Balanced l live k h)

-- Whatever objects are made and destroyed, in any order and however many live at a time: libgit2 has been started once more than
-- it has been shut down while an object lives, and as often when none does.
pub lifecycle-Balanced : (l : Lifecycle) (live : ℕ) → (unused, 0) ⟶* (l, live) → Balanced (l, live)
lifecycle-Balanced l live steps = steps-Balanced steps (refl, refl)
