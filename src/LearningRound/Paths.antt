-- ===== src/LearningRound/Paths.antt =====
-- src/daemon/learning_round.cc: the files of a round are different files, in whichever directories they are.
use dafeng_wubi.Prelude.{
  ◌+◌, true, false, [], ◌∷◌, ◌++◌, ◌≡◌, inl, inr, refl, sym, ap, ◌∙◌, arith, length, drop, Bytes,
  bytes_eq, bytes_eq_iff, codes, ◌==◌, Bool-cases, length-append, drop-append_length,
}
use mathlib.Core.List.{append_assoc}
use dafeng_wubi.Disk.{tmp_of}
use dafeng_wubi.LearningRound.{under}

-- a path ends with a name
abbrev EndsWith : Bytes → Bytes → Type 0
EndsWith path name = (front : Bytes) × (path ≡ front ++ name)

under-EndsWith : (dir name : Bytes) → EndsWith (under dir name) name
unfolding under
under-EndsWith [] name = ([], refl)
under-EndsWith (c ∷ []) name = elim (Bool-cases (c == b'/')) [
  | inl e ↦ rw e (c ∷ [], refl)
  | inr e ↦ rw e (c ∷ b'/' ∷ [], refl)
]
under-EndsWith (c ∷ d ∷ dir) name =
    let (front, e) = under-EndsWith (d ∷ dir) name in (c ∷ front, ap (◌∷◌ c) e)

-- Two endings of one length of a path are the same.
ending_unique : (a b x y : Bytes) → length x ≡ length y → a ++ x ≡ b ++ y → x ≡ y
ending_unique a b x y h e =
    let l : length a ≡ length b =
      omega (arith, length-append a x, length-append b y, ap length e) in
    sym (drop-append_length a x)
    ∙ ap (drop (length a)) e
    ∙ ap (λ n. drop n (b ++ y)) l
    ∙ drop-append_length b y

-- Paths with different endings of one length differ.
ends-differ :
    (p q a x b y : Bytes)
    → p ≡ a ++ x
    → q ≡ b ++ y
    → length x ≡ length y
    → bytes_eq x y ≡ false
    → bytes_eq p q ≡ false
ends-differ p q a x b y e f h d = elim (Bool-cases (bytes_eq p q)) [
  | inr z ↦ z
  | inl z ↦
      let same : a ++ x ≡ b ++ y = sym e ∙ (bytes_eq_iff p q).0 z ∙ f in
      let xy : bytes_eq x y ≡ true = (bytes_eq_iff x y).1 (ending_unique a b x y h same) in cc
]

-- Files under any directories, by the endings of their names.
pub under-differ :
    (dir dir' front x front' y : Bytes)
    → length x ≡ length y
    → bytes_eq x y ≡ false
    → bytes_eq (under dir (front ++ x)) (under dir' (front' ++ y)) ≡ false
under-differ dir dir' front x front' y h d =
    let (a, e) = under-EndsWith dir (front ++ x) in
    let (b, f) = under-EndsWith dir' (front' ++ y) in
    ends-differ (under dir (front ++ x)) (under dir' (front' ++ y)) (a ++ front) x (b ++ front') y
      (e ∙ sym (append_assoc a front x)) (f ∙ sym (append_assoc b front' y)) h d

pub tmp_of-differ :
    (dir dir' front x front' y : Bytes)
    → length x + 4 ≡ length y
    → bytes_eq (x ++ codes ".tmp") y ≡ false
    → bytes_eq (tmp_of (under dir (front ++ x))) (under dir' (front' ++ y)) ≡ false
tmp_of-differ dir dir' front x front' y h d =
    let (a, e) = under-EndsWith dir (front ++ x) in
    let (b, f) = under-EndsWith dir' (front' ++ y) in
    ends-differ (tmp_of (under dir (front ++ x))) (under dir' (front' ++ y)) (a ++ front)
      (x ++ codes ".tmp") (b ++ front') y
      (ap tmp_of (e ∙ sym (append_assoc a front x)) ∙ append_assoc (a ++ front) x (codes ".tmp"))
      (f ∙ sym (append_assoc b front' y)) (omega (arith, length-append x (codes ".tmp"))) d
