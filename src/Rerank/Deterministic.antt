-- ===== src/Rerank/Deterministic.antt =====
-- src/daemon/reranker_deterministic.cc: a score from a table of bigrams, the length and a hash. Floats are
-- the parameter; the clock's reading is an argument.
pub mod Order
pub mod LastChar
use Prim.Native.Nat.{bit_and, bit_xor}
use Prim.Native.String.{String}
use dafeng_wubi.Prelude.{
  ℕ, zero, suc, ◌+◌, ◌*◌, ◌%◌, Bool, true, false, not, ◌&&◌, List, [], ◌∷◌, ◌++◌, map, ◌==◌,
  if◌then◌else◌, min, length, take, drop, get_or, is_empty, Bytes, bytes_eq,
}
use dafeng_wubi.Prelude.Int.{pos}
use dafeng_wubi.Prelude.Sort.{sort}
use dafeng_wubi.Protocol.{RerankRequest, RerankResponse}
use dafeng_wubi.Rerank.Floats.{Floats}
use dafeng_wubi.Utf8.Literal.{utf8}

abbrev pair : String → String → Bytes × Bytes
pair prev favor = (utf8 prev, utf8 favor)

-- `kBigrams`
abbrev pub bigrams : List (Bytes × Bytes)
bigrams =
    pair "今" "天"
    ∷ pair "今" "日"
    ∷ pair "今" "年"
    ∷ pair "明" "天"
    ∷ pair "明" "年"
    ∷ pair "明" "白"
    ∷ pair "昨" "天"
    ∷ pair "前" "天"
    ∷ pair "后" "天"
    ∷ pair "天" "气"
    ∷ pair "天" "上"
    ∷ pair "天" "空"
    ∷ pair "我" "们"
    ∷ pair "我" "的"
    ∷ pair "我" "是"
    ∷ pair "你" "们"
    ∷ pair "你" "的"
    ∷ pair "你" "是"
    ∷ pair "你" "好"
    ∷ pair "他" "们"
    ∷ pair "她" "们"
    ∷ pair "它" "们"
    ∷ pair "中" "国"
    ∷ pair "中" "文"
    ∷ pair "中" "间"
    ∷ pair "一" "个"
    ∷ pair "一" "些"
    ∷ pair "一" "样"
    ∷ pair "一" "直"
    ∷ pair "是" "的"
    ∷ pair "的" "是"
    ∷ pair "的" "话"
    ∷ pair "这" "个"
    ∷ pair "这" "是"
    ∷ pair "这" "些"
    ∷ pair "这" "样"
    ∷ pair "那" "个"
    ∷ pair "那" "是"
    ∷ pair "那" "些"
    ∷ pair "那" "样"
    ∷ pair "什" "么"
    ∷ pair "怎" "么"
    ∷ pair "为" "什"
    ∷ pair "工" "作"
    ∷ pair "学" "习"
    ∷ pair "时" "候"
    ∷ pair "问" "题"
    ∷ pair "地" "方"
    ∷ pair "东" "西"
    ∷ pair "开" "始"
    ∷ pair "结" "束"
    ∷ pair "知" "道"
    ∷ []

-- `FnvHash`: FNV-1a in uint32_t
unfoldable pub fnv_from : ℕ → Bytes → ℕ
fnv_from h [] = h
fnv_from h (c ∷ s) = fnv_from ((bit_xor h c * 0x01000193) % 0x100000000) s

unfoldable pub fnv_hash : Bytes → ℕ
unfolding fnv_from
fnv_hash = fnv_from 0x811C9DC5

-- `(c & 0xC0) == 0x80`
abbrev pub is_continuation : ℕ → Bool
is_continuation c = bit_and c 0xC0 == 0x80

-- `do { --i; } while (i > 0 && s[i] is a continuation byte)`, from `i`
unfoldable pub walk_back : Bytes → ℕ → ℕ
walk_back s zero = 0
walk_back s (suc i) =
    let further = walk_back s i in
    if not (i == 0) && is_continuation (get_or s i 0) then further else i

unfoldable pub last_utf8_char : Bytes → Bytes
unfolding walk_back
last_utf8_char [] = []
last_utf8_char (c ∷ s) = drop (walk_back (c ∷ s) (length (c ∷ s))) (c ∷ s)

-- `s.size() >= plen && memcmp(s.data(), prefix, plen) == 0`
unfoldable pub starts_with : Bytes → Bytes → Bool
starts_with s [] = true
starts_with [] (p ∷ prefix) = false
starts_with (c ∷ s) (p ∷ prefix) = c == p && starts_with s prefix

-- `s.c_str()` as C reads it, up to the first NUL
unfoldable pub c_str : Bytes → Bytes
c_str [] = []
c_str (c ∷ s) = let rest = c_str s in if c == 0 then [] else c ∷ rest

-- the loop over the table, with its `break`: whether an entry fits
unfoldable pub has_bigram : List (Bytes × Bytes) → Bytes → Bytes → Bool
has_bigram [] last_char cand = false
has_bigram ((prev, favor) ∷ table) last_char cand =
    if bytes_eq last_char prev && starts_with cand favor
    then true
    else has_bigram table last_char cand

module _ (fl : Floats) where
  open fl use {Float, add, sub, mul, of_int}

  -- `cand`, `last_char`, `full_ctx`
  unfoldable pub score_candidate : Bytes → Bytes → Bytes → Float
  unfolding starts_with c_str has_bigram fnv_hash
  score_candidate cand last_char full_ctx =
      let s0 = fl.zero in
      let s1 =
        if not (is_empty cand) && (not (is_empty last_char) && starts_with cand (c_str last_char))
        then sub s0 fl.five
        else s0 in
      let s2 =
        if not (is_empty last_char) && has_bigram bigrams last_char cand
        then add s1 fl.ten
        else s1 in
      let s3 = add s2 (mul fl.half (of_int (min (length cand) 12))) in
      add s3 (mul (of_int (fnv_hash (cand ++ full_ctx) % 7)) fl.tenth)

  -- the loop that fills `scored`, from index `i`
  unfoldable pub score_all : (Bytes → Float) → ℕ → List Bytes → List (Float × ℕ)
  score_all score i [] = []
  score_all score i (cand ∷ cands) = (score cand, i) ∷ score_all score (suc i) cands

  -- `a.first > b.first`
  abbrev pub higher : Float × ℕ → Float × ℕ → Bool
  higher a b = fl.less b.0 a.0

  -- the score of a candidate in a request
  abbrev pub score_in : RerankRequest → Bytes → Float
  score_in req cand = score_candidate cand (last_utf8_char req.context_before) req.context_before

  -- `scored`, sorted
  unfoldable pub ranked : RerankRequest → List (Float × ℕ)
  unfolding score_all sort
  ranked req = sort higher (score_all (score_in req) 0 req.candidates)

  -- `Rerank`; `elapsed` is what the clock gives, in microseconds
  unfoldable pub rerank : ℕ → RerankRequest → RerankResponse Float
  rerank elapsed req =
      if is_empty req.candidates
      then record {
        request_id = req.request_id;
        reordered_indices = [];
        scores = [];
        latency_us = 0;
        model_version = 1;
      }
      else record {
        request_id = req.request_id;
        reordered_indices = map (λ p. pos p.1) (ranked req);
        scores = map (λ p. p.0) (ranked req);
        latency_us = elapsed % 0x100000000;
        model_version = 1;
      }
