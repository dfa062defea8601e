-- ===== src/Plugin/Admission.antt =====
-- nextdns.go: the concurrency limit when many queries are handled at once. The counter is taken and
-- given back atomically, and any handlers may run between.
use coredns_nextdns.Prelude.{
  ℕ, zero, suc, ◌+◌, ◌-◌, ◌≤◌, ◌≡◌, refl, List, [], ◌∷◌, arith, ltb, if◌then◌else◌,
}

-- The counter, the handlers between their admission and the end of their exchange, and those that
-- were refused and have yet to give back what they counted.
pub record Slots : Type 0 where
  pub concurrent : ℕ
  pub inside : ℕ
  pub leaving : ℕ

pub data Move : Type 0 where
  arrives answers leaves : Move

-- A handler counts itself and is admitted or refused; one that was admitted ends; one that was
-- refused ends. The limit is positive.
unfoldable pub step : ℕ → Slots → Move → Slots
step max_concurrent s arrives =
    let count = s.concurrent + 1 in
    if ltb max_concurrent count
    then record s { concurrent = count; leaving = s.leaving + 1 }
    else record s { concurrent = count; inside = s.inside + 1 }
step max_concurrent s answers = elim s.inside [
  | zero ↦ s
  | suc k ↦ record s { concurrent = s.concurrent - 1; inside = k }
]
step max_concurrent s leaves = elim s.leaving [
  | zero ↦ s
  | suc k ↦ record s { concurrent = s.concurrent - 1; leaving = k }
]

unfoldable pub run : ℕ → Slots → List Move → Slots
run max_concurrent s [] = s
run max_concurrent s (m ∷ moves) = run max_concurrent (step max_concurrent s m) moves

abbrev pub unused : Slots
unused = record { concurrent = 0; inside = 0; leaving = 0 }

record IsBalanced (limit : ℕ) (s : Slots) : Type 0 where
  counted : s.concurrent ≡ s.inside + s.leaving
  within : s.inside ≤ limit

step-IsBalanced :
    (limit : ℕ) (s : Slots) (m : Move) → IsBalanced limit s → IsBalanced limit (step limit s m)
unfolding step
step-IsBalanced limit s arrives h = record {
  counted = ground (arith, h.counted);
  within = ground (arith, h.counted, h.within);
}
step-IsBalanced limit s answers h = record {
  counted = ground (arith, h.counted);
  within = ground (arith, h.counted, h.within);
}
step-IsBalanced limit s leaves h = record {
  counted = ground (arith, h.counted);
  within = ground (arith, h.counted, h.within);
}

run-IsBalanced :
    (limit : ℕ) (s : Slots) (moves : List Move)
    → IsBalanced limit s
    → IsBalanced limit (run limit s moves)
unfolding run
run-IsBalanced limit s [] h = h
run-IsBalanced limit s (m ∷ moves) h =
    run-IsBalanced limit (step limit s m) moves (step-IsBalanced limit s m h)

-- In every interleaving of handlers at most as many exchanges run at once as the limit says, and
-- the counter is those exchanges and the refused handlers that have yet to end: no slot is lost.
pub run-inside :
    (limit : ℕ) (moves : List Move)
    → ((run limit unused moves).inside ≤ limit)
      × ((run limit unused moves).concurrent
          ≡ (run limit unused moves).inside + (run limit unused moves).leaving)
run-inside limit moves =
    let h = run-IsBalanced limit unused moves (record { counted = refl; within = omega arith }) in
    (h.within, h.counted)
