-- ===== src/Prelude/Dict/Evict.antt =====
-- What the loop that drops one arbitrary entry of a Go map does to the map, and what the map is
-- after the insertion that follows such a loop.
use Prim.Native.Nat.{ℕ, zero, suc, ◌+◌, ◌%◌, ◌≤◌, ◌<◌}
use native.Mathlib.Nat.{mod-lt}
use mathlib.Core.Path.{◌≡◌}
use mathlib.Core.Logic.{◌≢◌, ◌⊎◌, inl, inr, ite}
use mathlib.Core.List.{[], ◌∷◌}
use mathlib.Core.Option.{Option, none, some}
use native.Mathlib.Omega.{arith}
use coredns_nextdns.Prelude.Lists.{length, get_elem?, get_elem?_in_range}
use coredns_nextdns.Prelude.Tests.{Option-cases, leb, if◌then◌else◌}
use coredns_nextdns.Prelude.Dict.{
  Dict, IsDistinct, get, put, first, evict, get-put, get-delete, put-IsDistinct, delete-IsDistinct,
  length-put, length-delete,
}

module _ {ℓ} {K V : Type ℓ} (dec : Discrete K) where
  pub first_of_nonempty :
      (c : ℕ) (m : Dict K V) → 0 < length m → (e : K × V) × (first dec c m ≡ some e)
  unfolding first
  first_of_nonempty c m h = get_elem?_in_range m (c % length m) (mod-lt c h)

  get_of_elem :
      (i : ℕ) (m : Dict K V) (e : K × V)
      → IsDistinct dec m
      → get_elem? m i ≡ some e
      → get dec e.0 m ≡ some e.1
  unfolding get
  get_of_elem i [] e d h = absurd (ground arith)
  get_of_elem zero (x ∷ m) e d h = ground arith
  get_of_elem (suc i) (x ∷ m) e d h = ground (arith, get_of_elem i m e d.1 h)

  pub get_of_first :
      (c : ℕ) (m : Dict K V) (e : K × V)
      → IsDistinct dec m
      → first dec c m ≡ some e
      → get dec e.0 m ≡ some e.1
  unfolding first
  get_of_first c m e d h = get_of_elem (c % length m) m e d h

  pub evict-IsDistinct : (c : ℕ) (m : Dict K V) → IsDistinct dec m → IsDistinct dec (evict dec c m)
  unfolding evict
  evict-IsDistinct c m d = elim (Option-cases (first dec c m)) [
    | inl e ↦ rw (e, evict) d
    | inr (x, e) ↦ rw (e, evict) (delete-IsDistinct dec x.0 m d)
  ]

  -- Only the entry met first is lost.
  pub get-evict :
      (c : ℕ) (m : Dict K V) (j : K)
      → get dec j (evict dec c m) ≡ (elim (first dec c m) [
        | none ↦ get dec j m
        | some e ↦ ite (dec e.0 j) none (get dec j m)
      ])
  unfolding evict
  get-evict c m j = elim (Option-cases (first dec c m)) [
    | inl e ↦ rw (e, evict)
    | inr (x, e) ↦ rw (e, evict) (get-delete dec x.0 j m)
  ]

  pub get-evict-none :
      (c : ℕ) (m : Dict K V) (j : K) → get dec j m ≡ none → get dec j (evict dec c m) ≡ none
  get-evict-none c m j h = ground (arith, get-evict c m j)

  pub length-evict :
      (c : ℕ) (m : Dict K V)
      → IsDistinct dec m
      → 0 < length m
      → length (evict dec c m) + 1 ≡ length m
  unfolding evict
  length-evict c m d h =
      let (x, e) = first_of_nonempty c m h in
      rw (e, evict) (length-delete dec x.0 x.1 m d (get_of_first c m x d e))

  -- An insertion that first makes room: `if !known && len(m) >= max { evict }; m[k] = v`.
  unfoldable pub put_bounded : ℕ → ℕ → K → V → Dict K V → Dict K V
  put_bounded max choice k v m = elim (get dec k m) [
    | some _ ↦ put dec k v m
    | none ↦ put dec k v (if leb max (length m) then evict dec choice m else m)
  ]

  -- The key that makes room for `k`, if one has to.
  unfoldable pub evicted : ℕ → ℕ → K → Dict K V → Option K
  evicted max choice k m = elim (get dec k m) [
    | some _ ↦ none
    | none ↦
        if leb max (length m)
        then (elim (first dec choice m) [ none ↦ none | some e ↦ some e.0 ])
        else none
  ]

  module _ (max choice : ℕ) (k : K) (v : V) (m : Dict K V) where
    pub put_bounded-IsDistinct : IsDistinct dec m → IsDistinct dec (put_bounded max choice k v m)
    unfolding put_bounded
    put_bounded-IsDistinct d = ground (
      arith,
      put-IsDistinct dec k v m d,
      put-IsDistinct dec k v (evict dec choice m) (evict-IsDistinct choice m d),
    )

    pub length-put_bounded :
        IsDistinct dec m → 0 < max → length m ≤ max → length (put_bounded max choice k v m) ≤ max
    unfolding put_bounded
    length-put_bounded d pos h = ground (
      arith,
      length-put dec k v m,
      length-put dec k v (evict dec choice m),
      get-evict-none choice m k,
      length-evict choice m d,
    )

    pub get-put_bounded_self : get dec k (put_bounded max choice k v m) ≡ some v
    unfolding put_bounded
    get-put_bounded_self =
        ground (arith, get-put dec k k v m, get-put dec k k v (evict dec choice m))

    -- Every other key keeps its value, but for the one that made room, which is gone.
    pub get-put_bounded_ne :
        (j : K)
        → k ≢ j
        → evicted max choice k m ≢ some j
        → get dec j (put_bounded max choice k v m) ≡ get dec j m
    unfolding put_bounded evicted
    get-put_bounded_ne j ne kept =
        ground
          (arith, get-put dec k j v m, get-put dec k j v (evict dec choice m), get-evict choice m j)

    pub get-put_bounded-evicted :
        (j : K)
        → evicted max choice k m ≡ some j
        → (get dec j (put_bounded max choice k v m) ≡ ite (dec k j) (some v) none)
          × (max ≤ length m)
          × (get dec k m ≡ none)
    unfolding put_bounded evicted
    get-put_bounded-evicted j h =
        ground
          (arith, get-put dec k j v m, get-put dec k j v (evict dec choice m), get-evict choice m j)

    -- Nothing is made up: what is read afterwards was written now or was there before.
    pub get-put_bounded-some :
        (j : K) (w : V)
        → get dec j (put_bounded max choice k v m) ≡ some w
        → ((k ≡ j) × (v ≡ w)) ⊎ (get dec j m ≡ some w)
    unfolding put_bounded
    get-put_bounded-some j w h =
        ground
          (arith, get-put dec k j v m, get-put dec k j v (evict dec choice m), get-evict choice m j)

    pub length-put_bounded_new :
        IsDistinct dec m
        → 0 < max
        → get dec k m ≡ none
        → length (put_bounded max choice k v m)
          ≡ (if leb max (length m) then length m else length m + 1)
    unfolding put_bounded
    length-put_bounded_new d pos h = ground (
      arith,
      length-put dec k v m,
      length-put dec k v (evict dec choice m),
      get-evict-none choice m k,
      length-evict choice m d,
    )
