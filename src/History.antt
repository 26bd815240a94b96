-- ===== src/History.antt =====
-- src/daemon/history_store.{h,cc}: an entry, and the chains of entries that the learner works on.
pub mod Phrases
pub mod Store
pub mod Guard
pub mod Opening
pub mod Rows
use dafeng_wubi.Prelude.{ℕ, ◌+◌, ◌-◌, ◌%◌, Bool, List, [], ◌∷◌, ltb, if◌then◌else◌, Bytes}
use dafeng_wubi.Prelude.Sort.{sort}

pub record HistoryEntry : Type 0 where
  pub id : ℕ
  pub ts_us : ℕ
  pub code : Bytes
  pub committed_text : Bytes
  pub context_before : Bytes

abbrev pub u64_mod : ℕ
u64_mod = 0x10000000000000000

-- `a.ts_us < b.ts_us`
abbrev pub earlier : HistoryEntry → HistoryEntry → Bool
earlier a b = ltb a.ts_us b.ts_us

-- `entry.ts_us - prev_ts > gap`, in uint64_t
abbrev pub gap_exceeds : ℕ → ℕ → ℕ → Bool
gap_exceeds gap prev_ts ts = ltb gap ((ts + u64_mod - prev_ts) % u64_mod)
