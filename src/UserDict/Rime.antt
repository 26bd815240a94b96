-- ===== src/UserDict/Rime.antt =====
-- The rows that `WriteRimeDictYaml` of src/daemon/user_dict.cc writes, as `WubiCodec` of
-- src/daemon/wubi_codec.cc reads the rows of a dictionary.
use dafeng_wubi.Prelude.{Bool, true, false, [], ◌∷◌, ◌++◌, some, ◌≡◌, refl, ap, arith, Bytes}
use dafeng_wubi.NewWord.{DiscoveredWord, has_space, looks_like_real_candidate}
use dafeng_wubi.WubiCodec.{CodeMap, cut_tab, is_skipped, code_column, index_entry, index_line}
use dafeng_wubi.UserDict.{rime_row, decimal}

cut_tab-append :
    (before behind : Bytes)
    → has_space before ≡ false
    → cut_tab (before ++ b'\t' ∷ behind) ≡ some (before, behind)
unfolding cut_tab has_space
cut_tab-append [] behind h = refl
cut_tab-append (c ∷ before) behind h = ground (arith, cut_tab-append before behind)

code_column-append :
    (code behind : Bytes) → has_space code ≡ false → code_column (code ++ b'\t' ∷ behind) ≡ code
unfolding code_column
code_column-append code behind h = ground (arith, cut_tab-append code behind)

looks_like_real_candidate-has_space :
    (text : Bytes) → looks_like_real_candidate text ≡ true → has_space text ≡ false
unfolding looks_like_real_candidate
looks_like_real_candidate-has_space text h = ground arith

is_skipped-append :
    (text rest : Bytes) → is_skipped text ≡ false → is_skipped (text ++ rest) ≡ false
unfolding is_skipped
is_skipped-append [] rest h = cc
is_skipped-append (c ∷ text) rest h = h

-- The row of a word whose text passes the test for candidates and does not begin with '#', and whose code has
-- no white space, is read as an entry of this text and this code.
pub rime_row-index_line :
    (w : DiscoveredWord) (past_header : Bool) (m : CodeMap)
    → looks_like_real_candidate w.text ≡ true
    → is_skipped w.text ≡ false
    → has_space w.code ≡ false
    → index_line (past_header, m) (rime_row w) ≡ (true, index_entry m w.text w.code)
unfolding index_line rime_row
rime_row-index_line w past_header m real entry spaceless =
    let behind = w.code ++ b'\t' ∷ decimal w.frequency in
    rw
      (
        is_skipped-append w.text (b'\t' ∷ behind) entry,
        cut_tab-append w.text behind (looks_like_real_candidate-has_space w.text real),
      )
      (ap (λ code. (true, index_entry m w.text code))
        (code_column-append w.code (decimal w.frequency) spaceless))
