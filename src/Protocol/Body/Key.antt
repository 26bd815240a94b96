-- ===== src/Protocol/Body/Key.antt =====
-- The key strings of src/common/protocol.cc, `kKeyVersion` to `kKeyUptimeSec`.
use dafeng_wubi.Prelude.{List, [], ◌∷◌, Bytes, codes}

abbrev pub version : Bytes
version = codes "v"

abbrev pub type : Bytes
type = codes "t"

abbrev pub id : Bytes
id = codes "id"

abbrev pub code : Bytes
code = codes "code"

abbrev pub context : Bytes
context = codes "ctx"

abbrev pub candidates : Bytes
candidates = codes "cands"

abbrev pub app_id : Bytes
app_id = codes "app"

abbrev pub order : Bytes
order = codes "order"

abbrev pub scores : Bytes
scores = codes "scores"

abbrev pub latency_us : Bytes
latency_us = codes "lat_us"

abbrev pub model_version : Bytes
model_version = codes "mver"

abbrev pub text : Bytes
text = codes "text"

abbrev pub err_code : Bytes
err_code = codes "ec"

abbrev pub err_msg : Bytes
err_msg = codes "em"

abbrev pub rerank_count : Bytes
rerank_count = codes "rc"

abbrev pub ping_count : Bytes
ping_count = codes "pc"

abbrev pub commit_count : Bytes
commit_count = codes "cc"

abbrev pub error_count : Bytes
error_count = codes "ec_total"

abbrev pub rerank_lat_sum : Bytes
rerank_lat_sum = codes "rls"

abbrev pub rerank_lat_max : Bytes
rerank_lat_max = codes "rlmax"

abbrev pub rerank_model_ver : Bytes
rerank_model_ver = codes "rmv"

abbrev pub uptime_sec : Bytes
uptime_sec = codes "ut"

abbrev pub known : List Bytes
known =
    version ∷ type ∷ id ∷ code ∷ context ∷ candidates ∷ app_id ∷ order ∷ scores ∷ latency_us
    ∷ model_version ∷ text ∷ err_code ∷ err_msg ∷ rerank_count ∷ ping_count ∷ commit_count
    ∷ error_count ∷ rerank_lat_sum ∷ rerank_lat_max ∷ rerank_model_ver ∷ uptime_sec ∷ []
