-- ===== src/Rerank/Deterministic/LastChar.antt =====
-- `LastUtf8Char` of src/daemon/reranker_deterministic.cc.
use dafeng_wubi.Prelude.{
  ℕ, zero, suc, ◌+◌, ◌≤◌, ◌<◌, true, false, [], ◌∷◌, ◌++◌, ◌≡◌, refl, ap, ◌∙◌, arith, length, drop,
  get_or, length-append, drop-append_length, All, Bytes,
}
use dafeng_wubi.Rerank.Deterministic.{is_continuation, walk_back, last_utf8_char}

get_or-append :
    (before : Bytes) (i d : ℕ) (rest : Bytes)
    → get_or (before ++ rest) (length before + i) d ≡ get_or rest i d
get_or-append [] i d rest = ap (λ k. get_or rest k d) (omega arith)
get_or-append (b ∷ before) i d rest =
    ap (λ k. get_or (b ∷ before ++ rest) k d) more ∙ get_or-append before i d rest
  where
    more : suc (length before) + i ≡ suc (length before + i)
    more = omega arith

get_or-All :
    (cs : Bytes) (i : ℕ)
    → i < length cs
    → All (λ c. is_continuation c ≡ true) cs
    → is_continuation (get_or cs i 0) ≡ true
get_or-All [] i h a = absurd (omega arith)
get_or-All (c ∷ cs) zero h a = a.0
get_or-All (c ∷ cs) (suc i) h a = get_or-All cs i (omega arith) a.1

last_utf8_char-drop :
    (s : Bytes) → 0 < length s → last_utf8_char s ≡ drop (walk_back s (length s)) s
unfolding last_utf8_char
last_utf8_char-drop [] h = absurd (omega arith)
last_utf8_char-drop (c ∷ s) h = refl

module _ (before : Bytes) (lead : ℕ) (cs : Bytes) (starts : is_continuation lead ≡ false)
    (goes_on : All (λ c. is_continuation c ≡ true) cs) where
  -- From any place in the last character the walk goes back to its first byte.
  walk_back-lead :
      (k : ℕ)
      → k ≤ length cs
      → walk_back (before ++ lead ∷ cs) (suc (length before + k)) ≡ length before
  unfolding walk_back
  walk_back-lead zero h = ground (arith, get_or-append before 0 0 (lead ∷ cs))
  walk_back-lead (suc k) h =
      let more : length before + suc k ≡ suc (length before + k) = omega arith in
      ground (
        arith,
        get_or-append before (suc k) 0 (lead ∷ cs),
        get_or-All cs k h goes_on,
        ap (walk_back (before ++ lead ∷ cs)) more ∙ walk_back-lead k (omega arith),
      )

  length_all : length (before ++ lead ∷ cs) ≡ suc (length before + length cs)
  length_all = omega (arith, length-append before (lead ∷ cs))

  -- The last character of a text is its last byte that is no continuation byte with the continuation bytes
  -- after it.
  pub last_utf8_char-last : last_utf8_char (before ++ lead ∷ cs) ≡ lead ∷ cs
  last_utf8_char-last =
      last_utf8_char-drop (before ++ lead ∷ cs) (omega (arith, length_all))
      ∙ ap (λ i. drop i (before ++ lead ∷ cs))
          (ap (walk_back (before ++ lead ∷ cs)) length_all
            ∙ walk_back-lead (length cs) (omega arith))
      ∙ drop-append_length before (lead ∷ cs)
