-- ===== src/Routing/Longest.antt =====
-- The profile of the longest prefix wins, and among equals the one that stands first.
use coredns_nextdns.Prelude.{
  ℕ, ◌≤◌, ◌≡◌, refl, List, [], ◌∷◌, Option, none, some, All, arith, ltb, if◌then◌else◌, inl, inr,
  Option-cases,
}
use coredns_nextdns.Addr.{Addr, contains}
use coredns_nextdns.Routing.{ClientProfile, first_match, insert_longest, sort_longest}

-- The best subnet for an address, straight from the configured order: of those that contain it the
-- longest, and the first of the longest.
unfoldable pub best : Addr → List ClientProfile → Option ClientProfile
best ip [] = none
best ip (cp ∷ rest) =
    let later = best ip rest in
    if contains cp.prefix ip
    then (elim later [
      | none ↦ some cp
      | some x ↦ if ltb cp.prefix.bits_plus_one x.prefix.bits_plus_one then some x else some cp
    ])
    else later

-- No subnet of the list is longer than `n`.
abbrev AtMost : ℕ → List ClientProfile → Type 0
AtMost n = All (λ cp. cp.prefix.bits_plus_one ≤ n)

abbrev IsSorted : List ClientProfile → Type 0
IsSorted [] = Unit
IsSorted (cp ∷ rest) = AtMost cp.prefix.bits_plus_one rest × IsSorted rest

AtMost-weaken : (m n : ℕ) (l : List ClientProfile) → m ≤ n → AtMost m l → AtMost n l
AtMost-weaken m n [] h a = tt
AtMost-weaken m n (cp ∷ l) h a = (omega (arith, a.0), AtMost-weaken m n l h a.1)

insert_longest-AtMost :
    (n : ℕ) (cp : ClientProfile) (l : List ClientProfile)
    → cp.prefix.bits_plus_one ≤ n
    → AtMost n l
    → AtMost n (insert_longest cp l)
unfolding insert_longest
insert_longest-AtMost n cp [] h a = (h, tt)
insert_longest-AtMost n cp (x ∷ l) h a = ground (arith, insert_longest-AtMost n cp l h a.1)

insert_longest-IsSorted :
    (cp : ClientProfile) (l : List ClientProfile) → IsSorted l → IsSorted (insert_longest cp l)
unfolding insert_longest
insert_longest-IsSorted cp [] s = (tt, tt)
insert_longest-IsSorted cp (x ∷ l) s = ground (
  arith,
  insert_longest-IsSorted cp l s.1,
  insert_longest-AtMost x.prefix.bits_plus_one cp l,
  AtMost-weaken x.prefix.bits_plus_one cp.prefix.bits_plus_one l,
)

sort_longest-IsSorted : (l : List ClientProfile) → IsSorted (sort_longest l)
unfolding sort_longest
sort_longest-IsSorted [] = tt
sort_longest-IsSorted (cp ∷ l) =
    insert_longest-IsSorted cp (sort_longest l) (sort_longest-IsSorted l)

first_match-AtMost :
    (n : ℕ) (ip : Addr) (l : List ClientProfile) (x : ClientProfile)
    → AtMost n l
    → first_match ip l ≡ some x
    → x.prefix.bits_plus_one ≤ n
unfolding first_match
first_match-AtMost n ip [] x a h = absurd (ground arith)
first_match-AtMost n ip (cp ∷ l) x a h = ground (arith, first_match-AtMost n ip l x a.1)

first_match-insert :
    (ip : Addr) (cp : ClientProfile) (l : List ClientProfile)
    → IsSorted l
    → first_match ip (insert_longest cp l) ≡ (
        if contains cp.prefix ip
        then (elim (first_match ip l) [
          | none ↦ some cp
          | some x ↦ if ltb cp.prefix.bits_plus_one x.prefix.bits_plus_one then some x else some cp
        ])
        else first_match ip l)
unfolding first_match insert_longest
first_match-insert ip cp [] s = refl
first_match-insert ip cp (x ∷ l) s = elim (Option-cases (first_match ip l)) [
  | inl e ↦ ground (arith, first_match-insert ip cp l s.1)
  | inr (y, e) ↦
      ground (
        arith,
        first_match-insert ip cp l s.1,
        first_match-AtMost x.prefix.bits_plus_one ip l y s.0,
      )
]

-- The first match in the sorted subnets is the best one in the order of the configuration.
pub first_match-sort :
    (ip : Addr) (l : List ClientProfile) → first_match ip (sort_longest l) ≡ best ip l
unfolding sort_longest best
first_match-sort ip [] = unfold first_match in refl
first_match-sort ip (cp ∷ l) =
    rw (first_match-insert ip cp (sort_longest l) (sort_longest-IsSorted l), first_match-sort ip l)
