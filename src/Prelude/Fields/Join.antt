-- ===== src/Prelude/Fields/Join.antt =====
-- Splitting undoes joining, and the parts around a byte.
use coredns_nextdns.Prelude.Text.{Text}
use coredns_nextdns.Prelude.Lists.{All}
use coredns_nextdns.Prelude.Tests.{◌==◌, Bool-cases}
use coredns_nextdns.Prelude.Fields.{before_byte, after_byte, has_byte, split, split_from, join}
use Prim.Native.Nat.{ℕ}
use mathlib.Core.Bool.{true, false}
use mathlib.Core.List.{List, [], ◌∷◌, ◌++◌, append_assoc, append-nil}
use mathlib.Core.Logic.{inl, inr}
use mathlib.Core.Path.{◌≡◌, refl, ap, ◌∙◌, subst}
use native.Mathlib.Omega.{arith}

split_from-word :
    (c : ℕ) (w word rest : Text)
    → has_byte c w ≡ false
    → split_from c word (w ++ rest) ≡ split_from c (word ++ w) rest
unfolding split_from has_byte
split_from-word c [] word rest h = rw (append-nil word) refl
split_from-word c (x ∷ w) word rest h =
    let here : (x == c) ≡ false = ground (arith, h) in
    let later : has_byte c w ≡ false = ground (arith, h) in
    rw (split_from, here)
      (split_from-word c w (word ++ x ∷ []) rest later ∙ rw (append_assoc word (x ∷ []) w) refl)

split_from-end :
    (c : ℕ) (w word : Text) → has_byte c w ≡ false → split_from c word w ≡ (word ++ w) ∷ []
unfolding split_from
split_from-end c w word h =
    subst (λ t. split_from c word t ≡ (word ++ w) ∷ []) (append-nil w)
      (split_from-word c w word [] h)

self_eq : (c : ℕ) → (c == c) ≡ true
self_eq c = ground arith

-- A list of words that hold no separator, joined and split again, is the list.
pub split-join :
    (c : ℕ) (w : Text) (words : List Text)
    → has_byte c w ≡ false
    → All (λ v. has_byte c v ≡ false) words
    → split c (join c (w ∷ words)) ≡ w ∷ words
unfolding split join split_from
split-join c w [] h later = split_from-end c w [] h
split-join c w (v ∷ words) h (here, later) =
    split_from-word c w [] (c ∷ join c (v ∷ words)) h
    ∙ rw (split_from, self_eq c) (ap (◌∷◌ w) (split-join c v words here later))

pub before_byte-append :
    (c : ℕ) (t rest : Text) → has_byte c t ≡ false → before_byte c (t ++ c ∷ rest) ≡ t
unfolding before_byte has_byte
before_byte-append c [] rest h = ground arith
before_byte-append c (x ∷ t) rest h = ground (arith, h, before_byte-append c t rest)

pub after_byte-append :
    (c : ℕ) (t rest : Text) → has_byte c t ≡ false → after_byte c (t ++ c ∷ rest) ≡ rest
unfolding after_byte has_byte
after_byte-append c [] rest h = ground arith
after_byte-append c (x ∷ t) rest h = ground (arith, h, after_byte-append c t rest)

pub has_byte-append : (c : ℕ) (t rest : Text) → has_byte c (t ++ c ∷ rest) ≡ true
unfolding has_byte
has_byte-append c [] rest = ground arith
has_byte-append c (x ∷ t) rest = ground (arith, has_byte-append c t rest)

-- What follows a separator last is a word of its own, if it holds no separator.
split_from-last :
    (c : ℕ) (word t w : Text)
    → has_byte c w ≡ false
    → split_from c word (t ++ c ∷ w) ≡ split_from c word t ++ w ∷ []
unfolding split_from
split_from-last c word [] w h = rw (split_from, self_eq c) (ap (◌∷◌ word) (split_from-end c w [] h))
split_from-last c word (x ∷ t) w h = elim (Bool-cases (x == c)) [
  | inl here ↦ rw (split_from, here) (ap (◌∷◌ word) (split_from-last c [] t w h))
  | inr other ↦ rw (split_from, other) (split_from-last c (word ++ x ∷ []) t w h)
]

pub split-last :
    (c : ℕ) (t w : Text) → has_byte c w ≡ false → split c (t ++ c ∷ w) ≡ split c t ++ w ∷ []
unfolding split
split-last c t w h = split_from-last c [] t w h
