-- ===== src/Tests/UserDictTests.antt =====
-- src/daemon/user_dict.cc at concrete inputs.
use dafeng_wubi.Prelude.{◌≤◌, true, false, [], ◌∷◌, ◌++◌, some, ◌≡◌, refl, codes, All}
use dafeng_wubi.Utf8.{utf8_len}
use dafeng_wubi.Utf8.Literal.{utf8}
use dafeng_wubi.NewWord.{DiscoveredWord, looks_like_real_candidate, has_space}
use dafeng_wubi.WubiCodec.{index_entry, index_line, is_skipped}
use dafeng_wubi.UserDict.{escape_yaml_string, rime_row}
use dafeng_wubi.UserDict.Yaml.{unquote, unquote-escape_yaml_string}
use dafeng_wubi.UserDict.Rime.{rime_row-index_line}

abbrev word : DiscoveredWord
word = record {
  text = utf8 "弹窗";
  code = codes "xupw";
  frequency = 12;
  first_seen_us = 1_000_000;
  last_seen_us = 11_000_000;
}

row : rime_row word ≡ utf8 "弹窗" ++ codes "\txupw\t12"
unfolding rime_row
row = refl

escaped : escape_yaml_string (codes "a\"\n" ++ 0x1F ∷ []) ≡ codes "\"a\\\"\\n\\x1f\""
unfolding escape_yaml_string
escaped = refl

unquote-escape_yaml_string_example :
    (unquote (escape_yaml_string (codes "a\"\n")) ≡ some (codes "a\"\n"))
    × All (λ b. 0x20 ≤ b) (escape_yaml_string (codes "a\"\n"))
unquote-escape_yaml_string_example = unquote-escape_yaml_string (codes "a\"\n")

rime_row-index_line_example :
    index_line (false, []) (rime_row word) ≡ (true, index_entry [] (utf8 "弹窗") (codes "xupw"))
unfolding looks_like_real_candidate utf8_len has_space is_skipped
rime_row-index_line_example = rime_row-index_line word false [] refl refl refl
