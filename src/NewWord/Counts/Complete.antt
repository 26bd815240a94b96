-- ===== src/NewWord/Counts/Complete.antt =====
-- What `Discover` of src/daemon/new_word.cc does not leave out.
use dafeng_wubi.Prelude.{
  ◌≤◌, true, false, List, [], ◌∷◌, some, ◌≡◌, sym, subst, arith, inl, inr, Bool-cases, ltb, Bytes,
  bytes_eq, bytes_eq_iff,
}
use mathlib.Core.List.{Mem, mem-cons_self, mem-cons_of_mem}
use mathlib.Core.List.Perm
use dafeng_wubi.Prelude.Sort.{sort-perm}
use dafeng_wubi.Prelude.UnorderedMap.{find}
use dafeng_wubi.History.{HistoryEntry}
use dafeng_wubi.NewWord.{
  DiscoveryConfig, DiscoveredWord, Counter, Counts, count_all, words, before, discover,
  looks_like_real_candidate,
}

-- the word of a text and its counter
abbrev pub word_of : Bytes → Counter → DiscoveredWord
word_of text c = record {
  text = text;
  code = c.code;
  frequency = c.count;
  first_seen_us = c.first_us;
  last_seen_us = c.last_us;
}

module _ (cfg : DiscoveryConfig) where
  words-cons :
      (text k : Bytes) (c d : Counter) (counts : Counts)
      → Mem (word_of text c) (words cfg counts)
      → Mem (word_of text c) (words cfg ((k, d) ∷ counts))
  unfolding words
  words-cons text k c d counts h = elim (Bool-cases (ltb d.count cfg.min_frequency)) [
    | inl rare ↦ rw rare h
    | inr often ↦ elim (Bool-cases (looks_like_real_candidate k)) [
      | inl real ↦ rw (often, real) (mem-cons_of_mem (word_of k d) h)
      | inr noise ↦ rw (often, noise) h
    ]
  ]

  words-self :
      (text : Bytes) (c : Counter) (counts : Counts)
      → cfg.min_frequency ≤ c.count
      → looks_like_real_candidate text ≡ true
      → Mem (word_of text c) (words cfg ((text, c) ∷ counts))
  unfolding words
  words-self text c counts often real =
      let enough : ltb c.count cfg.min_frequency ≡ false = ground arith in
      rw (enough, real) mem-cons_self

  words-Mem :
      (text : Bytes) (c : Counter) (counts : Counts)
      → find text counts ≡ some c
      → cfg.min_frequency ≤ c.count
      → looks_like_real_candidate text ≡ true
      → Mem (word_of text c) (words cfg counts)
  unfolding find
  words-Mem text c [] found often real = absurd (ground arith)
  words-Mem text c ((k, d) ∷ counts) found often real = elim (Bool-cases (bytes_eq k text)) [
    | inr other ↦
        words-cons text k c d counts (words-Mem text c counts (rw other at found) often real)
    | inl same ↦
        let k_is : text ≡ k = sym ((bytes_eq_iff k text).0 same) in
        let d_is : c ≡ d = ground arith in
        subst (λ j. Mem (word_of text c) (words cfg ((j, d) ∷ counts))) k_is
          (subst (λ e. Mem (word_of text c) (words cfg ((text, e) ∷ counts))) d_is
            (words-self text c counts often real))
  ]

-- Every text that has been counted at least as often as the minimum, and that passes the test for candidates,
-- is among the words that `Discover` reports, with its counter.
pub discover-Mem :
    (cfg : DiscoveryConfig) (entries : List HistoryEntry) (text : Bytes) (c : Counter)
    → find text (count_all cfg entries) ≡ some c
    → cfg.min_frequency ≤ c.count
    → looks_like_real_candidate text ≡ true
    → Mem (word_of text c) (discover cfg entries)
unfolding discover
discover-Mem cfg entries text c found often real =
    (Perm.mem_iff (sort-perm before (words cfg (count_all cfg entries)))).1
      (words-Mem cfg text c (count_all cfg entries) found often real)
