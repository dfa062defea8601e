-- ===== src/Prelude/Dict.antt =====
-- Go maps as association lists without a second entry for a key. `evict` is the loop that deletes
-- the first key of a `range` and breaks: Go leaves the order open, so `choice` picks the entry.
pub mod Evict
use Prim.Native.Nat.{ℕ, ◌+◌, ◌%◌, ◌≤◌}
use mathlib.Core.Path.{subst, ◌≡◌, refl}
use mathlib.Core.Logic.{ite, if_pos, if_neg}
use mathlib.Core.List.{List, [], ◌∷◌}
use mathlib.Core.Option.{Option, none, some}
use native.Mathlib.Omega.{arith}
use coredns_nextdns.Prelude.Lists.{All, length, get_elem?}

abbrev pub Dict {ℓ} : Type ℓ → Type ℓ → Type ℓ
Dict K V = List (K × V)

module _ {ℓ} {K V : Type ℓ} (dec : Discrete K) where
  -- v, ok := m[k]
  unfoldable pub get : K → Dict K V → Option V
  get k [] = none
  get k (e ∷ m) = ite (dec e.0 k) (some e.1) (get k m)

  -- m[k] = v
  unfoldable pub put : K → V → Dict K V → Dict K V
  put k v [] = (k, v) ∷ []
  put k v (e ∷ m) = ite (dec e.0 k) ((k, v) ∷ m) (e ∷ put k v m)

  -- delete(m, k)
  unfoldable pub delete : K → Dict K V → Dict K V
  delete k [] = []
  delete k (e ∷ m) = ite (dec e.0 k) (delete k m) (e ∷ delete k m)

  -- The entry that a `range` over the map meets first.
  unfoldable pub first : ℕ → Dict K V → Option (K × V)
  first choice m = get_elem? m (choice % length m)

  -- for k := range m { delete(m, k); break }
  unfoldable pub evict : ℕ → Dict K V → Dict K V
  evict choice m = elim (first choice m) [ none ↦ m | some e ↦ delete e.0 m ]

  -- No key has two entries.
  abbrev pub IsDistinct : Dict K V → Type ℓ
  IsDistinct [] = Unit
  IsDistinct (e ∷ m) = (get e.0 m ≡ none) × IsDistinct m

  -- What holds of every entry holds of the one that is found.
  pub get-All :
      (P : K × V → Type ℓ) (k : K) (m : Dict K V) {v : V} → All P m → get k m ≡ some v → P (k, v)
  unfolding get
  get-All P k [] h e = absurd (ground (arith, e))
  get-All P k (x ∷ m) h e = elim (dec x.0 k) [
    | yes same ↦ subst P (ground (arith, e, same)) h.0
    | no other ↦ get-All P k m h.1 (ground (arith, e, other))
  ]

  pub get-put :
      (k j : K) (v : V) (m : Dict K V) → get j (put k v m) ≡ ite (dec k j) (some v) (get j m)
  unfolding get put
  get-put k j v [] = refl
  get-put k j v (e ∷ m) = ground (arith, get-put k j v m)

  pub get-delete : (k j : K) (m : Dict K V) → get j (delete k m) ≡ ite (dec k j) none (get j m)
  unfolding get delete
  get-delete k j [] = ground arith
  get-delete k j (e ∷ m) = ground (arith, get-delete k j m)

  pub put-IsDistinct : (k : K) (v : V) (m : Dict K V) → IsDistinct m → IsDistinct (put k v m)
  unfolding get put
  put-IsDistinct k v [] h = (refl, tt)
  put-IsDistinct k v (e ∷ m) h = ground (arith, get-put k e.0 v m, put-IsDistinct k v m h.1)

  pub delete-IsDistinct : (k : K) (m : Dict K V) → IsDistinct m → IsDistinct (delete k m)
  unfolding get delete
  delete-IsDistinct k [] h = tt
  delete-IsDistinct k (e ∷ m) h = ground (arith, get-delete k e.0 m, delete-IsDistinct k m h.1)

  pub length-put :
      (k : K) (v : V) (m : Dict K V)
      → length (put k v m) ≡ (elim (get k m) [ none ↦ length m + 1 | some _ ↦ length m ])
  unfolding get put
  length-put k v [] = omega arith
  length-put k v (e ∷ m) = ground (arith, length-put k v m)

  pub delete_absent : (k : K) (m : Dict K V) → get k m ≡ none → delete k m ≡ m
  unfolding get delete
  delete_absent k [] h = refl
  delete_absent k (e ∷ m) h = ground (arith, delete_absent k m)

  pub length-delete :
      (k : K) (w : V) (m : Dict K V)
      → IsDistinct m
      → get k m ≡ some w
      → length (delete k m) + 1 ≡ length m
  unfolding get delete
  length-delete k w [] d h = absurd (ground arith)
  length-delete k w (e ∷ m) d h = elim (dec e.0 k) [
    | yes p ↦ rw (if_pos _ p) (rw (delete_absent k m (ground arith)) (omega arith))
    | no p ↦ rw (if_neg _ p) (omega (arith, length-delete k w m d.1 (ground arith)))
  ]

  pub length-delete-le : (k : K) (m : Dict K V) → length (delete k m) ≤ length m
  unfolding delete
  length-delete-le k [] = omega arith
  length-delete-le k (e ∷ m) = ground (arith, length-delete-le k m)
