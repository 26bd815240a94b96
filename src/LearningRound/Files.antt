-- ===== src/LearningRound/Files.antt =====
-- src/daemon/learning_round.cc: what a round leaves in the files of the user's data.
use dafeng_wubi.Prelude.{
  Bool, true, false, ◌&&◌, List, [], ◌∷◌, ◌++◌, Option, some, ◌≡◌, ◌⊎◌, inl, inr, refl, ◌∙◌, arith,
  is_empty, take, Bytes, bytes_eq, codes, Bool-cases,
}
use dafeng_wubi.Prelude.UnorderedMap.{find, find-assign}
use dafeng_wubi.Disk.{Disk, tmp_of, save_file, save_file_atomic, save_file-other}
use dafeng_wubi.LearningRound.{
  LearningRoundConfig, IGitSync, Answers, SentinelFaults, World, under, recode_words,
  request_rime_redeploy, discovery_config, userdata, learned_words_path, personal_ngram_path,
  rime_dict_path, write_rime_dict, run_learning_round,
}
use dafeng_wubi.NewWord.{DiscoveredWord, discover}
use dafeng_wubi.Ngram.{Table}
use dafeng_wubi.Ngram.History.{update_bigrams_from_history}
use dafeng_wubi.Ngram.File.{save, file_content}
use dafeng_wubi.UserDict.{generate, write_rime_dict_yaml, yaml_content, rime_content}
use dafeng_wubi.LearningRound.Paths.{under-differ, tmp_of-differ}

-- the two files of the user's data
module _ (cfg : LearningRoundConfig) where
  words-ngram : bytes_eq (personal_ngram_path cfg) (learned_words_path cfg) ≡ false
  words-ngram =
      under-differ (userdata cfg) (userdata cfg) (codes "personal_ngram") (codes ".bin")
        (codes "learned_words.") (codes "yaml") refl refl

  words-ngram_tmp : bytes_eq (tmp_of (personal_ngram_path cfg)) (learned_words_path cfg) ≡ false
  words-ngram_tmp =
      tmp_of-differ (userdata cfg) (userdata cfg) (codes "personal_ngram") (codes ".bin")
        (codes "learned_wo") (codes "rds.yaml") refl refl

  words-rime : bytes_eq (rime_dict_path cfg) (learned_words_path cfg) ≡ false
  words-rime =
      under-differ cfg.rime_user_dir (userdata cfg) (codes "dafeng_learned.dic") (codes "t.yaml")
        (codes "learned_word") (codes "s.yaml") refl refl

  words-rime_tmp : bytes_eq (tmp_of (rime_dict_path cfg)) (learned_words_path cfg) ≡ false
  words-rime_tmp =
      tmp_of-differ cfg.rime_user_dir (userdata cfg) (codes "dafeng_learned.dict") (codes ".yaml")
        (codes "learned_w") (codes "ords.yaml") refl refl

  words-sentinel :
      bytes_eq (under cfg.data_dir (codes "redeploy_requested")) (learned_words_path cfg) ≡ false
  words-sentinel =
      under-differ cfg.data_dir (userdata cfg) (codes "redeploy_reque") (codes "sted")
        (codes "learned_words.") (codes "yaml") refl refl

  ngram-words : bytes_eq (learned_words_path cfg) (personal_ngram_path cfg) ≡ false
  ngram-words =
      under-differ (userdata cfg) (userdata cfg) (codes "learned_words.") (codes "yaml")
        (codes "personal_ngram") (codes ".bin") refl refl

  ngram-words_tmp : bytes_eq (tmp_of (learned_words_path cfg)) (personal_ngram_path cfg) ≡ false
  ngram-words_tmp =
      tmp_of-differ (userdata cfg) (userdata cfg) (codes "learned_words") (codes ".yaml")
        (codes "personal_") (codes "ngram.bin") refl refl

  ngram-rime : bytes_eq (rime_dict_path cfg) (personal_ngram_path cfg) ≡ false
  ngram-rime =
      under-differ cfg.rime_user_dir (userdata cfg) (codes "dafeng_learned.dict.") (codes "yaml")
        (codes "personal_ngram") (codes ".bin") refl refl

  ngram-rime_tmp : bytes_eq (tmp_of (rime_dict_path cfg)) (personal_ngram_path cfg) ≡ false
  ngram-rime_tmp =
      tmp_of-differ cfg.rime_user_dir (userdata cfg) (codes "dafeng_learned.dict") (codes ".yaml")
        (codes "personal_") (codes "ngram.bin") refl refl

  ngram-sentinel :
      bytes_eq (under cfg.data_dir (codes "redeploy_requested")) (personal_ngram_path cfg) ≡ false
  ngram-sentinel =
      under-differ cfg.data_dir (userdata cfg) (codes "redeploy_reque") (codes "sted")
        (codes "personal_ngram") (codes ".bin") refl refl

  sentinel-other :
      (f : SentinelFaults) (now other : Bytes) (disk : Disk)
      → bytes_eq (under cfg.data_dir (codes "redeploy_requested")) other ≡ false
      → find other (request_rime_redeploy f now cfg.data_dir disk).1 ≡ find other disk
  unfolding request_rime_redeploy
  sentinel-other f now other disk h =
      let path = under cfg.data_dir (codes "redeploy_requested") in
      let content = now ++ b'\n' ∷ [] in
      ground (
        arith,
        find-assign path other (take f.kept content) disk,
        find-assign path other content disk,
      )

  write_rime_dict-other :
      (w : World) (words : List DiscoveredWord) (disk : Disk) (other : Bytes)
      → bytes_eq (rime_dict_path cfg) other ≡ false
      → bytes_eq (tmp_of (rime_dict_path cfg)) other ≡ false
      → find other (write_rime_dict cfg w words disk) ≡ find other disk
  unfolding write_rime_dict write_rime_dict_yaml
  write_rime_dict-other w words disk other h k =
      let content = rime_content w.rime_now w.rime_version (codes "dafeng_learned") words in
      elim (Bool-cases (is_empty cfg.rime_user_dir)) [
        | inl e ↦ rw e refl
        | inr e ↦
            ground
              (arith, save_file-other w.rime_faults (rime_dict_path cfg) content disk other h k)
      ]

  -- The steps behind the two saves leave a file as it is, if it is not among theirs.
  later-other :
      (w : World) (words : List DiscoveredWord) (disk : Disk) (other : Bytes)
      → bytes_eq (rime_dict_path cfg) other ≡ false
      → bytes_eq (tmp_of (rime_dict_path cfg)) other ≡ false
      → bytes_eq (under cfg.data_dir (codes "redeploy_requested")) other ≡ false
      → find other
          (request_rime_redeploy w.sentinel_faults w.sentinel_now cfg.data_dir
            (write_rime_dict cfg w words disk)).1
        ≡ find other disk
  later-other w words disk other h k l =
      sentinel-other w.sentinel_faults w.sentinel_now other (write_rime_dict cfg w words disk) l
      ∙ write_rime_dict-other w words disk other h k

-- a flag tells whether a file has its new content, and where it has not it is as it was
abbrev pub Wrote : Bool → (path content : Bytes) → Disk → Disk → Type 0
Wrote flag path content before after =
    ((flag ≡ true) × (find path after ≡ some content))
    ⊎ ((flag ≡ false) × (find path after ≡ find path before))

Wrote-after :
    (flag : Bool) (path content : Bytes) (before after later : Disk)
    → find path later ≡ find path after
    → Wrote flag path content before after
    → Wrote flag path content before later
Wrote-after flag path content before after later e (inl (f, g)) = inl (f, e ∙ g)
Wrote-after flag path content before after later e (inr (f, g)) = inr (f, e ∙ g)

Wrote-before :
    (flag : Bool) (path content : Bytes) (earlier before after : Disk)
    → find path before ≡ find path earlier
    → Wrote flag path content before after
    → Wrote flag path content earlier after
Wrote-before flag path content earlier before after e (inl h) = inl h
Wrote-before flag path content earlier before after e (inr (f, g)) = inr (f, g ∙ e)

module _ (git : IGitSync) where
  -- Whatever fails in a round: its two flags tell which of the files of the user's data hold what the round
  -- has learned, the words with their codes and the counts with those of the history; a file whose flag is false
  -- is as it was before the round. The round is `ok` where both hold it.
  pub run_learning_round-Wrote :
      (cfg : LearningRoundConfig) (history : Answers) (w : World) (table : Table) (disk : Disk)
      (g : Option git.State)
      → let (result, table', disk', g') = run_learning_round git cfg history w table disk g in
        let words =
          recode_words cfg.wubi_dict_path disk
            (discover (discovery_config cfg) (history.recent_for_words cfg.scan_max_entries)) in
        let learned =
          (update_bigrams_from_history
            (history.recent_for_bigrams cfg.ngram_scan_max_entries)
            table).0 in
        (result.ok ≡ (result.wrote_user_dict && result.wrote_ngram))
        × Wrote result.wrote_user_dict
            (learned_words_path cfg)
            (yaml_content w.user_dict_now words)
            disk
            disk'
        × Wrote result.wrote_ngram (personal_ngram_path cfg) (file_content learned) disk disk'
  unfolding run_learning_round generate save
  run_learning_round-Wrote cfg history w table disk g =
      let words =
        recode_words cfg.wubi_dict_path disk
          (discover (discovery_config cfg) (history.recent_for_words cfg.scan_max_entries)) in
      let learned =
        (update_bigrams_from_history (history.recent_for_bigrams cfg.ngram_scan_max_entries)
          table).0 in
      let p1 = learned_words_path cfg in
      let p2 = personal_ngram_path cfg in
      let c1 = yaml_content w.user_dict_now words in
      let c2 = file_content learned in
      let disk1 = (save_file w.user_dict_faults p1 c1 disk).1 in
      let disk2 = (save_file w.ngram_faults p2 c2 disk1).1 in
      (
        refl,
        Wrote-after _ p1 c1 disk _ _
            (later-other cfg w words disk2 p1 (words-rime cfg) (words-rime_tmp cfg)
                (words-sentinel cfg)
              ∙ save_file-other w.ngram_faults p2 c2 disk1 p1 (words-ngram cfg)
                  (words-ngram_tmp cfg))
            (save_file_atomic w.user_dict_faults p1 c1 disk),
        Wrote-after _ p2 c2 disk _ _
            (later-other cfg w words disk2 p2 (ngram-rime cfg) (ngram-rime_tmp cfg)
              (ngram-sentinel cfg))
            (Wrote-before _ p2 c2 disk disk1 disk2
              (save_file-other w.user_dict_faults p1 c1 disk p2 (ngram-words cfg)
                (ngram-words_tmp cfg))
              (save_file_atomic w.ngram_faults p2 c2 disk1)),
      )
