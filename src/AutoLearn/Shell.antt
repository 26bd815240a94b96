-- ===== src/AutoLearn/Shell.antt =====
-- `ShellQuote` of src/daemon/auto_learn.cc against the words of a POSIX shell.
use dafeng_wubi.Prelude.{
  ℕ, zero, suc, Bool, ◌&&◌, ◌||◌, List, [], ◌∷◌, ◌++◌, Option, none, some, ◌≡◌, refl, ap, ◌∙◌,
  arith, leb, ◌==◌, if◌then◌else◌, Bytes, codes,
}
use mathlib.Core.List.{append_assoc}
use dafeng_wubi.AutoLearn.{quote_char, quote_bytes, shell_quote, redeploy_command}

-- outside quotes, inside single quotes, behind a backslash
pub data Quoting : Type 0 where
  bare quoted escaped : Quoting

-- the bytes that mean themselves outside quotes: letters, digits, - . / _
abbrev pub is_word_byte : ℕ → Bool
is_word_byte c =
    leb b'a' c && leb c b'z'
    || (leb b'A' c && leb c b'Z' || (leb b'-' c && leb c b'9' || c == b'_'))

abbrev pub put : ℕ → Option (Bytes × Bytes) → Option (Bytes × Bytes)
put c none = none
put c (some (word, rest)) = some (c ∷ word, rest)

-- The first word of a command and what stands behind it, from a space on; `none` where a quote stays open,
-- or where a byte outside quotes has a meaning of its own.
unfoldable pub read_word : Quoting → Bytes → Option (Bytes × Bytes)
read_word bare [] = some ([], [])
read_word quoted [] = none
read_word escaped [] = none
read_word bare (c ∷ s) =
    let inside = read_word quoted s in
    let behind = read_word escaped s in
    let on = put c (read_word bare s) in
    if c == 0x20
    then some ([], c ∷ s)
    else if c == 0x27
    then inside
    else if c == 0x5C
    then behind
    else if is_word_byte c
    then on
    else none
read_word quoted (c ∷ s) =
    let closed = read_word bare s in
    let on = put c (read_word quoted s) in if c == 0x27 then closed else on
read_word escaped (c ∷ s) = put c (read_word bare s)

abbrev pub put_all : Bytes → Option (Bytes × Bytes) → Option (Bytes × Bytes)
put_all [] o = o
put_all (c ∷ s) o = put c (put_all s o)

abbrev pub without_space : Bytes → Bytes
without_space [] = []
without_space (c ∷ s) = if c == 0x20 then s else c ∷ s

abbrev pub put_word : Bytes → Option (List Bytes × Bytes) → Option (List Bytes × Bytes)
put_word w none = none
put_word w (some (ws, rest)) = some (w ∷ ws, rest)

-- the first `n` words, with one space between
unfoldable pub read_words : ℕ → Bytes → Option (List Bytes × Bytes)
unfolding read_word
read_words zero s = some ([], s)
read_words (suc n) s = elim (read_word bare s) [
  | none ↦ none
  | some (w, rest) ↦ put_word w (read_words n (without_space rest))
]

read_word-quote_char :
    (c : ℕ) (s : Bytes) → read_word quoted (quote_char c ++ s) ≡ put c (read_word quoted s)
unfolding read_word quote_char
read_word-quote_char c s = ground arith

read_word-close : (tail : Bytes) → read_word quoted (0x27 ∷ tail) ≡ read_word bare tail
unfolding read_word
read_word-close tail = refl

put_all-some : (s rest : Bytes) → put_all s (some ([], rest)) ≡ some (s, rest)
put_all-some [] rest = refl
put_all-some (c ∷ s) rest = ap (put c) (put_all-some s rest)

read_word-quote_bytes :
    (s tail : Bytes)
    → read_word quoted (quote_bytes s ++ 0x27 ∷ tail) ≡ put_all s (read_word bare tail)
unfolding quote_bytes
read_word-quote_bytes [] tail = read_word-close tail
read_word-quote_bytes (c ∷ s) tail =
    rw (append_assoc (quote_char c) (quote_bytes s) (0x27 ∷ tail), read_word-quote_char)
      (ap (put c) (read_word-quote_bytes s tail))

opened : (s rest : Bytes) → read_word bare ((0x27 ∷ s) ++ rest) ≡ read_word quoted (s ++ rest)
unfolding read_word
opened s rest = refl

spaced : (rest : Bytes) → read_word bare (0x20 ∷ rest) ≡ some ([], 0x20 ∷ rest)
unfolding read_word
spaced rest = refl

-- The quoted form is one word for the shell, the text itself, whatever bytes the text has, where a space
-- follows.
pub read_word-shell_quote :
    (s rest : Bytes) → read_word bare (shell_quote s ++ 0x20 ∷ rest) ≡ some (s, 0x20 ∷ rest)
unfolding shell_quote
read_word-shell_quote s rest =
    opened (quote_bytes s ++ 0x27 ∷ []) (0x20 ∷ rest)
    ∙ ap (read_word quoted) (append_assoc (quote_bytes s) (0x27 ∷ []) (0x20 ∷ rest))
    ∙ read_word-quote_bytes s (0x20 ∷ rest)
    ∙ ap (put_all s) (spaced rest)
    ∙ put_all-some s (0x20 ∷ rest)

read_words-zero : (s : Bytes) → read_words 0 s ≡ some ([], s)
unfolding read_words
read_words-zero s = refl

read_words-suc :
    (n : ℕ) (s : Bytes) {w rest : Bytes}
    → read_word bare s ≡ some (w, rest)
    → read_words (suc n) s ≡ put_word w (read_words n (without_space rest))
unfolding read_words
read_words-suc n s e = rw (read_words, e) refl

build_option :
    (target : Bytes)
    → read_word bare (codes "--build " ++ target) ≡ some (codes "--build", 0x20 ∷ target)
unfolding read_word
build_option target = refl

-- The command that rebuilds the tables is the deployer with the option and the directory as its two
-- arguments, whatever bytes the two paths have; behind them stand the redirections.
pub read_words-redeploy_command :
    (deployer rime_dir : Bytes)
    → read_words 3 (redeploy_command deployer rime_dir)
      ≡ some (deployer ∷ codes "--build" ∷ rime_dir ∷ [], codes ">/dev/null 2>&1")
unfolding redeploy_command
read_words-redeploy_command deployer rime_dir =
    let options = codes "--build " ++ (shell_quote rime_dir ++ codes " >/dev/null 2>&1") in
    let target = shell_quote rime_dir ++ codes " >/dev/null 2>&1" in
    read_words-suc 2 _ (read_word-shell_quote deployer options)
    ∙ ap (put_word deployer) (
        read_words-suc 1 _ (build_option target)
        ∙ ap (put_word (codes "--build")) (
            read_words-suc 0 _ (read_word-shell_quote rime_dir (codes ">/dev/null 2>&1"))
            ∙ ap (put_word rime_dir) (read_words-zero _)))
