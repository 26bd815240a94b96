-- ===== src/Tests/NewWordTests.antt =====
-- src/daemon/new_word.cc at a concrete history.
use dafeng_wubi.Prelude.{arith, ℕ, true, List, [], ◌∷◌, ◌≡◌, refl, codes, Bytes, All}
use dafeng_wubi.Utf8.{utf8_len}
use dafeng_wubi.Utf8.Literal.{utf8}
use dafeng_wubi.History.{HistoryEntry}
use dafeng_wubi.NewWord.{DiscoveryConfig, Counter, discover, count_all, looks_like_real_candidate}
use dafeng_wubi.NewWord.Counts.{all_grams, runs_of, emit_all, count_all-runs_of}
use dafeng_wubi.NewWord.Counts.Complete.{word_of, discover-Mem}
use dafeng_wubi.Prelude.UnorderedMap.{find}
use mathlib.Core.List.{Mem}
use dafeng_wubi.NewWord.Counts.Words.{IsWordOf, discover-IsWordOf}

abbrev entry : ℕ → Bytes → Bytes → HistoryEntry
entry ts code text = record {
  id = 0;
  ts_us = ts;
  code = code;
  committed_text = text;
  context_before = [];
}

abbrev config : DiscoveryConfig
config = record {
  min_frequency = 2;
  include_bigrams = true;
  include_trigrams = true;
  chain_max_gap_us = 2_000_000;
}

-- newest first: the word is typed twice, ten seconds apart
abbrev history : List HistoryEntry
history =
    entry 11_500_000 (codes "pw") (utf8 "窗")
    ∷ entry 11_000_000 (codes "xu") (utf8 "弹")
    ∷ entry 1_500_000 (codes "pw") (utf8 "窗")
    ∷ entry 1_000_000 (codes "xu") (utf8 "弹")
    ∷ []

discovered :
    discover config history
    ≡ record {
      text = utf8 "弹窗";
      code = codes "xupw";
      frequency = 2;
      first_seen_us = 1_000_000;
      last_seen_us = 11_000_000;
    }
      ∷ []
unfolding discover utf8_len
discovered = refl

count_all-runs_of_example :
    count_all config history ≡ emit_all (all_grams config (runs_of config history)) []
count_all-runs_of_example = count_all-runs_of config history

discover-IsWordOf_example :
    All (IsWordOf config (all_grams config (runs_of config history))) (discover config history)
discover-IsWordOf_example = discover-IsWordOf config history

abbrev counter : Counter
counter = record { count = 2; first_us = 1_000_000; last_us = 11_000_000; code = codes "xupw" }

discover-Mem_example : Mem (word_of (utf8 "弹窗") counter) (discover config history)
unfolding count_all looks_like_real_candidate utf8_len find
discover-Mem_example = discover-Mem config history (utf8 "弹窗") counter refl (omega arith) refl
