-- ===== src/Cli/Lists.antt =====
-- src/cli/main.cc: `Split` and the list of candidates that the user writes.
use dafeng_wubi.Prelude.{
  ℕ, ◌==◌, true, false, not, List, [], ◌∷◌, ◌++◌, ◌≡◌, refl, sym, ap, ◌∙◌, arith, if◌then◌else◌,
  is_empty, Bytes,
}
use mathlib.Core.List.{append-nil, append_assoc}
use dafeng_wubi.Cli.{split_from, split}

-- the delimiter does not stand in the text
pub data IsFree (delim : ℕ) : Bytes → Type 0 where
  nil : IsFree delim []
  cons : {c : ℕ} {s : Bytes} → c == delim ≡ false → IsFree delim s → IsFree delim (c ∷ s)

pub data AreFree (delim : ℕ) : List Bytes → Type 0 where
  none : AreFree delim []
  some : {s : Bytes} {ss : List Bytes} → IsFree delim s → AreFree delim ss → AreFree delim (s ∷ ss)

-- each text with the delimiter behind it
unfoldable pub terminated : ℕ → List Bytes → Bytes
terminated delim [] = []
terminated delim (s ∷ ss) = s ++ delim ∷ terminated delim ss

-- what is left behind the last delimiter, where that is something
abbrev pub open_piece : Bytes → List Bytes
open_piece s = if not (is_empty s) then s ∷ [] else []

split_from-open :
    (delim : ℕ) (cur s : Bytes) → IsFree delim s → split_from cur s delim ≡ open_piece (cur ++ s)
unfolding split_from
split_from-open delim cur [] f = ap open_piece (sym (append-nil cur))
split_from-open delim cur (c ∷ s) (cons e f) =
    rw (split_from, e)
      (split_from-open delim (cur ++ c ∷ []) s f ∙ ap open_piece (append_assoc cur (c ∷ []) s))

split_from-piece :
    (delim : ℕ) (same : delim == delim ≡ true) (cur s rest : Bytes)
    → IsFree delim s
    → split_from cur (s ++ delim ∷ rest) delim ≡ (cur ++ s) ∷ split_from [] rest delim
unfolding split_from
split_from-piece delim same cur [] rest f = rw (split_from, same, append-nil cur) refl
split_from-piece delim same cur (c ∷ s) rest (cons e f) =
    rw (split_from, e)
      (split_from-piece delim same (cur ++ c ∷ []) s rest f
        ∙ ap (λ xs. xs ∷ split_from [] rest delim) (append_assoc cur (c ∷ []) s))

-- Split gives the pieces of a text, which do not hold the delimiter, in order, the empty ones too; behind the last delimiter
-- it gives a piece where that is not empty.
pub split-terminated :
    (delim : ℕ) (pieces : List Bytes) (s : Bytes)
    → AreFree delim pieces
    → IsFree delim s
    → split (terminated delim pieces ++ s) delim ≡ pieces ++ open_piece s
unfolding split terminated
split-terminated delim [] s f g = split_from-open delim [] s g
split-terminated delim (p ∷ pieces) s (some h f) g =
    rw (append_assoc p (delim ∷ terminated delim pieces) s) (
      split_from-piece delim (ground arith) [] p (terminated delim pieces ++ s) h
      ∙ ap (◌∷◌ p) (split-terminated delim pieces s f g))
