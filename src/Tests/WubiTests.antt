-- ===== src/Tests/WubiTests.antt =====
-- src/daemon/wubi_codec.cc at concrete inputs. The characters are written as their UTF-8 bytes.
use dafeng_wubi.Prelude.{
  ℕ, true, [], ◌∷◌, ◌++◌, some, arith, ◌≡◌, refl, codes, length, ◌≤◌, ◌⊎◌, Bytes, All, get_elem?,
  map,
}
use dafeng_wubi.Prelude.UnorderedMap.{find, assign}
use dafeng_wubi.Utf8.{utf8_lead_len}
use dafeng_wubi.Utf8.Chars.{chars}
use dafeng_wubi.WubiCodec.{
  CodeMap, load_from_dict, full_code, encode_phrase, split_utf8_chars, lines, cut_tab,
}
use dafeng_wubi.WubiCodec.Dict.{codes_for, full_code-load_from_dict}
use dafeng_wubi.WubiCodec.Phrase.{picks, places, encode_phrase-picks}

-- 弹 and 窗
abbrev dan : Bytes
dan = 0xE5 ∷ 0xBC ∷ 0xB9 ∷ []

abbrev chuang : Bytes
chuang = 0xE7 ∷ 0xAA ∷ 0x97 ∷ []

abbrev dict : Bytes
dict =
    codes "# comment\nname: x\n...\n"
    ++ (dan ++ (codes "\txu\t9\n" ++ (dan ++ (codes "\txujf\n" ++ (chuang ++ codes "\tpwtq\t1")))))

abbrev loaded : CodeMap
loaded = (dan, codes "xujf") ∷ (chuang, codes "pwtq") ∷ []

load-dict : load_from_dict (some dict) ≡ (loaded, true)
unfolding load_from_dict cut_tab chars utf8_lead_len find assign
load-dict = refl

encode-danchuang : encode_phrase loaded (dan ++ chuang) ≡ codes "xupw"
unfolding encode_phrase chars utf8_lead_len find
encode-danchuang = refl

full_code-load_from_dict_example :
    let code = full_code (load_from_dict (some dict)).0 dan in
    All (λ c. length c ≤ length code) (codes_for dan (lines dict))
    × (((codes_for dan (lines dict) ≡ []) × (code ≡ []))
        ⊎ ((i : ℕ) × (get_elem? (codes_for dan (lines dict)) i ≡ some code)))
full_code-load_from_dict_example = full_code-load_from_dict dict dan

encode_phrase-picks_example :
    encode_phrase loaded (dan ++ chuang)
    ≡ picks
        (map (full_code loaded) (split_utf8_chars (dan ++ chuang)))
        (places (length (split_utf8_chars (dan ++ chuang))))
unfolding chars utf8_lead_len full_code find
encode_phrase-picks_example = encode_phrase-picks loaded (dan ++ chuang) (omega arith) (omega arith)
