-- ===== src/NewWord/Counts.antt =====
-- What the counting of src/daemon/new_word.cc comes to: the pairs and triples of neighbouring tokens in the
-- runs of a history.
pub mod Words
pub mod Complete
use dafeng_wubi.Prelude.{
  ℕ, zero, suc, ◌+◌, ◌-◌, ◌%◌, ◌^◌, ◌≤◌, ◌<◌, min, max, Bool, true, false, not, ◌&&◌, List, [], ◌∷◌,
  ◌++◌, Option, none, some, ◌≡◌, refl, sym, ap, ◌∙◌, arith, inl, inr, Bool-cases, leb, ◌==◌,
  if◌then◌else◌, length, take, is_empty, Bytes, bytes_eq, bytes_eq_iff, All,
}
use mathlib.Core.List.{append_assoc, append-nil}
use dafeng_wubi.Prelude.Sort.{sort}
use dafeng_wubi.Prelude.UnorderedMap.{find, assign, or_default, find-assign, IsMap, assign-IsMap}
use dafeng_wubi.History.{HistoryEntry, earlier, gap_exceeds}
use dafeng_wubi.NewWord.{
  DiscoveryConfig, Token, Counter, Counts, fresh, text_of, code_of, code_ok, bump, emit, emit_spans,
  emit_token_ngrams, entry_to_tokens, count_entries, count_runs, count_all,
}

-- the groups of `span` neighbours
abbrev pub grams : ℕ → List Token → List (List Token)
grams span [] = []
grams span (t ∷ toks) =
    if leb span (length (t ∷ toks)) then take span (t ∷ toks) ∷ grams span toks else []

abbrev pub grams_of : DiscoveryConfig → List Token → List (List Token)
grams_of cfg toks =
    (if cfg.include_bigrams then grams 2 toks else [])
    ++ (if cfg.include_trigrams then grams 3 toks else [])

abbrev pub all_grams : DiscoveryConfig → List (List Token) → List (List Token)
all_grams cfg [] = []
all_grams cfg (run ∷ runs) = grams_of cfg run ++ all_grams cfg runs

-- the rest of the run that an entry at `prev_ts` belongs to, and the runs behind it
abbrev pub runs_after : ℕ → ℕ → List HistoryEntry → List Token × List (List Token)
runs_after gap prev_ts [] = ([], [])
runs_after gap prev_ts (e ∷ es) =
    let (here, later) = runs_after gap e.ts_us es in
    if gap_exceeds gap prev_ts e.ts_us
    then ([], (entry_to_tokens e ++ here) ∷ later)
    else (entry_to_tokens e ++ here, later)

abbrev pub each_alone : List HistoryEntry → List (List Token)
each_alone [] = []
each_alone (e ∷ es) = entry_to_tokens e ∷ each_alone es

-- The runs of a history: with a gap of 0 each entry alone, else the chains of entries, in order of time,
-- of which none comes more than the gap after the one before.
abbrev pub runs_of : DiscoveryConfig → List HistoryEntry → List (List Token)
runs_of cfg entries =
    if cfg.chain_max_gap_us == 0
    then each_alone entries
    else (let (here, later) = runs_after cfg.chain_max_gap_us 0 (sort earlier entries) in
        here ∷ later)

abbrev pub emit_all : List (List Token) → Counts → Counts
emit_all [] counts = counts
emit_all (g ∷ gs) counts = emit_all gs (emit g counts)

emit_all-append :
    (gs hs : List (List Token)) (counts : Counts)
    → emit_all (gs ++ hs) counts ≡ emit_all hs (emit_all gs counts)
emit_all-append [] hs counts = refl
emit_all-append (g ∷ gs) hs counts = emit_all-append gs hs (emit g counts)

emit_spans_lem :
    (span : ℕ) (toks : List Token) (counts : Counts)
    → emit_spans span toks counts ≡ emit_all (grams span toks) counts
unfolding emit_spans
emit_spans_lem span [] counts = refl
emit_spans_lem span (t ∷ toks) counts = elim (Bool-cases (leb span (length (t ∷ toks)))) [
  | inl fits ↦ rw fits (emit_spans_lem span toks (emit (take span (t ∷ toks)) counts))
  | inr short ↦ rw short refl
]

emit_token_ngrams_lem :
    (cfg : DiscoveryConfig) (toks : List Token) (counts : Counts)
    → emit_token_ngrams cfg toks counts ≡ emit_all (grams_of cfg toks) counts
unfolding emit_token_ngrams
emit_token_ngrams_lem cfg toks counts =
    both cfg.include_bigrams cfg.include_trigrams
    ∙ sym (emit_all-append (if cfg.include_bigrams then grams 2 toks else []) _ counts)
  where
    both :
        (b t : Bool)
        → (let counts1 = if b then emit_spans 2 toks counts else counts in
            if t then emit_spans 3 toks counts1 else counts1)
          ≡ emit_all
              (if t then grams 3 toks else [])
              (emit_all (if b then grams 2 toks else []) counts)
    both true true =
        emit_spans_lem 3 toks _ ∙ ap (emit_all (grams 3 toks)) (emit_spans_lem 2 toks counts)
    both true false = emit_spans_lem 2 toks counts
    both false true = emit_spans_lem 3 toks counts
    both false false = refl

grams_of-nil : (cfg : DiscoveryConfig) → grams_of cfg [] ≡ []
grams_of-nil cfg = both cfg.include_bigrams cfg.include_trigrams
  where
    both : (b t : Bool) → (if b then grams 2 [] else []) ++ (if t then grams 3 [] else []) ≡ []
    both true true = refl
    both true false = refl
    both false true = refl
    both false false = refl

emit_run :
    (cfg : DiscoveryConfig) (run : List Token) (runs : List (List Token)) (counts : Counts)
    → emit_all (all_grams cfg runs) (emit_token_ngrams cfg run counts)
      ≡ emit_all (all_grams cfg (run ∷ runs)) counts
emit_run cfg run runs counts =
    ap (emit_all (all_grams cfg runs)) (emit_token_ngrams_lem cfg run counts)
    ∙ sym (emit_all-append (grams_of cfg run) (all_grams cfg runs) counts)

emit_no_run :
    (cfg : DiscoveryConfig) (runs : List (List Token)) (counts : Counts)
    → emit_all (all_grams cfg runs) counts ≡ emit_all (all_grams cfg ([] ∷ runs)) counts
emit_no_run cfg runs counts =
    ap (λ g. emit_all (g ++ all_grams cfg runs) counts) (sym (grams_of-nil cfg))

count_entries_lem :
    (cfg : DiscoveryConfig) (es : List HistoryEntry) (counts : Counts)
    → count_entries cfg es counts ≡ emit_all (all_grams cfg (each_alone es)) counts
unfolding count_entries
count_entries_lem cfg [] counts = refl
count_entries_lem cfg (e ∷ es) counts =
    count_entries_lem cfg es (emit_token_ngrams cfg (entry_to_tokens e) counts)
    ∙ emit_run cfg (entry_to_tokens e) (each_alone es) counts

count_runs_lem :
    (cfg : DiscoveryConfig) (run : List Token) (prev_ts : ℕ) (es : List HistoryEntry)
    (counts : Counts)
    → let (here, later) = runs_after cfg.chain_max_gap_us prev_ts es in
      count_runs cfg run prev_ts es counts ≡ emit_all (all_grams cfg ((run ++ here) ∷ later)) counts
unfolding count_runs
count_runs_lem cfg [] prev_ts [] counts = emit_no_run cfg [] counts
count_runs_lem cfg (t ∷ run) prev_ts [] counts =
    emit_run cfg (t ∷ run) [] counts
    ∙ ap (λ r. emit_all (all_grams cfg (r ∷ [])) counts) (sym (append-nil (t ∷ run)))
count_runs_lem cfg [] prev_ts (e ∷ es) counts =
    let (here, later) = runs_after cfg.chain_max_gap_us e.ts_us es in
    let next = count_runs_lem cfg (entry_to_tokens e) e.ts_us es counts in
    elim (Bool-cases (gap_exceeds cfg.chain_max_gap_us prev_ts e.ts_us)) [
      | inl apart ↦ rw apart (next ∙ emit_no_run cfg ((entry_to_tokens e ++ here) ∷ later) counts)
      | inr near ↦ rw near next
    ]
count_runs_lem cfg (t ∷ run) prev_ts (e ∷ es) counts =
    let (here, later) = runs_after cfg.chain_max_gap_us e.ts_us es in
    let toks = entry_to_tokens e in
    elim (Bool-cases (gap_exceeds cfg.chain_max_gap_us prev_ts e.ts_us)) [
      | inl apart ↦ rw apart (
          count_runs_lem cfg toks e.ts_us es (emit_token_ngrams cfg (t ∷ run) counts)
          ∙ emit_run cfg (t ∷ run) ((toks ++ here) ∷ later) counts
          ∙ ap (λ r. emit_all (all_grams cfg (r ∷ (toks ++ here) ∷ later)) counts)
              (sym (append-nil (t ∷ run))))
      | inr near ↦ rw near (
          count_runs_lem cfg ((t ∷ run) ++ toks) e.ts_us es counts
          ∙ ap (λ r. emit_all (all_grams cfg (r ∷ later)) counts)
              (append_assoc (t ∷ run) toks here))
    ]

-- The counting takes every pair, if pairs are asked for, and every triple, if triples are, of neighbouring
-- tokens in each run of the history, once, run by run, and no group that reaches over the end of a run.
pub count_all-runs_of :
    (cfg : DiscoveryConfig) (entries : List HistoryEntry)
    → count_all cfg entries ≡ emit_all (all_grams cfg (runs_of cfg entries)) []
unfolding count_all
count_all-runs_of cfg entries = elim (Bool-cases (cfg.chain_max_gap_us == 0)) [
  | inl alone ↦ rw alone (count_entries_lem cfg entries [])
  | inr chained ↦ rw chained (count_runs_lem cfg [] 0 (sort earlier entries) [])
]
