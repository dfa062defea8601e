-- ===== src/Plugin/Threads/Slots.antt =====
-- The concurrency limit when the stages of many handlers interleave.
use coredns_nextdns.Prelude.{
  ℕ, zero, suc, ◌+◌, ◌≤◌, ◌<◌, ◌≡◌, ◌⊎◌, inl, inr, refl, List, [], ◌∷◌, none, some, get_elem?, set,
  arith, Option-cases, Bool-cases, ltb,
}
use coredns_nextdns.Prelude.Text.{Text}
use coredns_nextdns.Dns.{Msg}
use coredns_nextdns.Plugin.{Libraries, NextDns, Query}
use coredns_nextdns.Plugin.Threads.{
  Stage, arrived, missed, refused, answering, entering, admitted, exchanged, leaving, finished,
  Thread, Server, give_back, take_reply, proceed, step, run,
}

-- 1 for a handler that is within the limit, from its admission to its return.
unfoldable pub inside : Stage → ℕ
inside arrived = 0
inside (answering m) = 0
inside missed = 0
inside (entering ci) = 0
inside refused = 0
inside (admitted ci) = 1
inside (exchanged answer) = 1
inside (leaving w) = 1
inside (finished w) = 0

-- 1 for a handler that was refused and has yet to give back what it counted.
unfoldable pub counted_out : Stage → ℕ
counted_out arrived = 0
counted_out (answering m) = 0
counted_out missed = 0
counted_out (entering ci) = 0
counted_out refused = 1
counted_out (admitted ci) = 0
counted_out (exchanged answer) = 0
counted_out (leaving w) = 0
counted_out (finished w) = 0

unfoldable pub total : (Stage → ℕ) → List Thread → ℕ
total f [] = 0
total f (t ∷ ts) = f t.stage + total f ts

total-set :
    (f : Stage → ℕ) (ts : List Thread) (i : ℕ) (t u : Thread)
    → get_elem? ts i ≡ some t
    → total f (set ts i u) + f t.stage ≡ total f ts + f u.stage
unfolding total
total-set f [] i t u e = absurd (ground arith)
total-set f (x ∷ ts) zero t u e = ground arith
total-set f (x ∷ ts) (suc i) t u e = omega (arith, total-set f ts i t u e)

total-le :
    (f : Stage → ℕ) (ts : List Thread) (i : ℕ) (t : Thread)
    → get_elem? ts i ≡ some t
    → f t.stage ≤ total f ts
unfolding total
total-le f [] i t e = absurd (ground arith)
total-le f (x ∷ ts) zero t e = ground arith
total-le f (x ∷ ts) (suc i) t e = omega (arith, total-le f ts i t e)

-- The counter is the handlers that have counted themselves, and those inside are within the limit.
pub record IsBalanced (s : Server) : Type 0 where
  pub counted : s.plugin.concurrent ≡ total inside s.threads + total counted_out s.threads
  pub within : total inside s.threads ≤ s.plugin.max_concurrent

module _ (lib : Libraries) where
  -- What a step does to the counter: it follows the handler's stage, and who is let in finds the
  -- counter within the limit.
  record Moves (n : NextDns) (old : Stage) (r : NextDns × Stage) : Type 0 where
    limit : r.0.max_concurrent ≡ n.max_concurrent
    counter :
        r.0.concurrent + (inside old + counted_out old)
        ≡ n.concurrent + (inside r.1 + counted_out r.1)
    room : (inside r.1 ≤ inside old) ⊎ (r.0.concurrent ≤ n.max_concurrent)

  take_reply-Moves :
      (n : NextDns) (q : Query) (profile : Text) (m : Msg)
      → Moves n (exchanged (some m)) (take_reply lib n q profile m)
  unfolding take_reply inside counted_out
  take_reply-Moves n q profile m = record {
    limit = ground arith;
    counter = ground arith;
    room = inl (ground arith);
  }

  proceed-Moves :
      (n : NextDns) (q : Query) (profile : Text) (s : Stage)
      → 0 < n.max_concurrent
      → inside s + counted_out s ≤ n.concurrent
      → Moves n s (proceed lib n q profile s)
  unfolding proceed give_back inside counted_out
  proceed-Moves n q profile arrived pos h = record {
    limit = ground arith;
    counter = ground arith;
    room = inl (ground arith);
  }
  proceed-Moves n q profile (answering m) pos h = record {
    limit = refl;
    counter = refl;
    room = inl (omega arith);
  }
  proceed-Moves n q profile missed pos h = record {
    limit = refl;
    counter = refl;
    room = inl (omega arith);
  }
  proceed-Moves n q profile (entering ci) pos h =
      elim (Bool-cases (ltb n.max_concurrent (n.concurrent + 1))) [
        | inl e ↦ record { limit = ground arith; counter = ground arith; room = inl (ground arith) }
        | inr e ↦ record { limit = ground arith; counter = ground arith; room = inr (ground arith) }
      ]
  proceed-Moves n q profile (admitted ci) pos h = record {
    limit = refl;
    counter = refl;
    room = inl (omega arith);
  }
  proceed-Moves n q profile (exchanged none) pos h = record {
    limit = refl;
    counter = refl;
    room = inl (omega arith);
  }
  proceed-Moves n q profile (exchanged (some m)) pos h = take_reply-Moves n q profile m
  proceed-Moves n q profile refused pos h = record {
    limit = ground arith;
    counter = ground arith;
    room = inl (omega arith);
  }
  proceed-Moves n q profile (leaving w) pos h = record {
    limit = ground arith;
    counter = ground arith;
    room = inl (omega arith);
  }
  proceed-Moves n q profile (finished w) pos h = record {
    limit = refl;
    counter = refl;
    room = inl (omega arith);
  }

  step-IsBalanced :
      (s : Server) (i : ℕ)
      → 0 < s.plugin.max_concurrent
      → IsBalanced s
      → IsBalanced (step lib s i) × (0 < (step lib s i).plugin.max_concurrent)
  unfolding step
  step-IsBalanced s i pos h = elim (Option-cases (get_elem? s.threads i)) [
    | inl e ↦ rw (step, e) (h, pos)
    | inr (t, e) ↦
        let r = proceed lib s.plugin t.query t.profile t.stage in
        let u : Thread = record t { stage = r.1 } in
        let mv = proceed-Moves s.plugin t.query t.profile t.stage pos (
          omega (
            arith,
            h.counted,
            total-le inside s.threads i t e,
            total-le counted_out s.threads i t e,
          )) in
        let ins = total-set inside s.threads i t u e in
        let outs = total-set counted_out s.threads i t u e in
        rw (step, e)
          (
            record {
              counted = omega (arith, ins, outs, mv.counter, h.counted);
              within =
                  ground (arith, ins, outs, mv.counter, h.counted, h.within, mv.room, mv.limit);
            },
            omega (arith, pos, mv.limit),
          )
  ]

  -- With a positive limit and from a state in which the counter is balanced, as it is before the
  -- first handler, it stays so however the stages of the handlers interleave: at most as many as
  -- the limit says are between their admission and their return, and the counter is those and the
  -- refused ones that have yet to return.
  pub run-IsBalanced :
      (s : Server) (turns : List ℕ)
      → 0 < s.plugin.max_concurrent
      → IsBalanced s
      → IsBalanced (run lib s turns)
  unfolding run
  run-IsBalanced s [] pos h = h
  run-IsBalanced s (i ∷ rest) pos h =
      let (h', pos') = step-IsBalanced s i pos h in run-IsBalanced (step lib s i) rest pos' h'
