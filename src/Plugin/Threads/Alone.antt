-- ===== src/Plugin/Threads/Alone.antt =====
-- A handler that no other comes between, against the handler as one function.
use coredns_nextdns.Prelude.{
  ℕ, zero, suc, ◌+◌, ◌-◌, ◌≡◌, inl, inr, refl, ap, ◌∙◌, List, true, false, Option, none, some,
  arith, Option-cases, Bool-cases, ltb,
}
use coredns_nextdns.Prelude.Text.{Text}
use coredns_nextdns.Dns.{Msg}
use coredns_nextdns.Device.{ClientInfo}
use coredns_nextdns.Doh.{DohClient}
use coredns_nextdns.Plugin.{
  Libraries, NextDns, Query, Outcome, reply, refuse, accept, conclude, go_out, go_upstream,
  with_slot, look_up, serve_found, serve_profile, identify, preceded,
}
use coredns_nextdns.Plugin.Limits.{Found-cases}
use coredns_nextdns.Plugin.Threads.{
  Stage, arrived, missed, refused, answering, entering, admitted, exchanged, leaving, finished,
  with_id, give_back, take_reply, proceed,
}

give_back_limited :
    (n : NextDns)
    → ltb 0 n.max_concurrent ≡ true
    → give_back n ≡ record n { concurrent = n.concurrent - 1 }
unfolding give_back
give_back_limited n e = rw (give_back, e) refl

give_back_free : (n : NextDns) → ltb 0 n.max_concurrent ≡ false → give_back n ≡ n
unfolding give_back
give_back_free n e = rw (give_back, e) refl

module _ (lib : Libraries) where
  -- A number of steps of one handler.
  unfoldable pub proceed_alone : ℕ → Query → Text → NextDns × Stage → NextDns × Stage
  proceed_alone zero q profile s = s
  proceed_alone (suc k) q profile (n, stage) =
      proceed_alone k q profile (proceed lib n q profile stage)

  -- The end of a handler that has gone through as a function.
  abbrev pub ended : NextDns × Outcome → NextDns × Stage
  ended r = (r.0, finished r.1.written)

  accepted :
      (n : NextDns) (q : Query) (profile : Text) (m : Msg)
      → take_reply lib n q profile m
        ≡ ((accept lib n q profile m).0, leaving (accept lib n q profile m).1.written)
  unfolding take_reply accept reply with_id
  accepted n q profile m = elim (Bool-cases (lib.match_reply q.request m)) [
    | inr f ↦ rw (take_reply, accept, f) refl
    | inl f ↦ elim (Option-cases n.cache) [
      | inl g ↦ rw (take_reply, accept, f, g) refl
      | inr (mc, g) ↦ rw (take_reply, accept, f, g) refl
    ]
  ]

  -- What is left of a handler after its exchange.
  concluded :
      (n : NextDns) (q : Query) (profile : Text) (answer : Option Msg) (client : DohClient)
      (errors : List Text)
      → proceed_alone 2 q profile (record n { client = client }, exchanged answer) ≡ (
        give_back (conclude lib n q profile (answer, client, errors)).0,
        finished (conclude lib n q profile (answer, client, errors)).1.written,
      )
  unfolding proceed_alone proceed conclude preceded
  concluded n q profile none client errors = refl
  concluded n q profile (some m) client errors =
      ap (proceed_alone 1 q profile) (accepted (record n { client = client }) q profile m)

  upstream :
      (n : NextDns) (q : Query) (profile : Text) (ci : ClientInfo)
      → proceed_alone 3 q profile (n, admitted ci) ≡ (
        give_back (go_upstream lib n q profile ci).0,
        finished (go_upstream lib n q profile ci).1.written,
      )
  unfolding proceed_alone proceed go_upstream
  upstream n q profile ci =
      let (answer, client, errors) = go_out lib n q profile ci in
      concluded n q profile answer client errors

  max_concurrent-go_upstream :
      (n : NextDns) (q : Query) (profile : Text) (ci : ClientInfo)
      → (go_upstream lib n q profile ci).0.max_concurrent ≡ n.max_concurrent
  unfolding go_upstream conclude accept
  max_concurrent-go_upstream n q profile ci = ground arith

  limited :
      (n : NextDns) (q : Query) (profile : Text) (ci : ClientInfo)
      → proceed_alone 4 q profile (n, entering ci) ≡ ended (with_slot lib n q profile ci)
  unfolding proceed_alone proceed with_slot refuse
  limited n q profile ci =
      let n' = record n { concurrent = n.concurrent + 1 } in
      let same = max_concurrent-go_upstream n q profile ci in
      let same' = max_concurrent-go_upstream n' q profile ci in
      elim (Bool-cases (ltb 0 n.max_concurrent)) [
        | inr e ↦
            let free : proceed lib n q profile (entering ci) ≡ (n, admitted ci) =
              rw (proceed, e) refl in
            ap (proceed_alone 3 q profile) free
            ∙ upstream n q profile ci
            ∙ rw (with_slot, e)
                (ap (λ x. (x, finished (go_upstream lib n q profile ci).1.written))
                  (give_back_free (go_upstream lib n q profile ci).0 (rw same e)))
        | inl e ↦ elim (Bool-cases (ltb n.max_concurrent (n.concurrent + 1))) [
          | inl f ↦
              let full : proceed lib n q profile (entering ci) ≡ (n', refused) =
                rw (proceed, e, f) refl in
              ap (proceed_alone 3 q profile) full
              ∙ rw (with_slot, e, f) (ap (λ x. (x, finished none)) (give_back_limited n' e))
          | inr f ↦
              let room : proceed lib n q profile (entering ci) ≡ (n', admitted ci) =
                rw (proceed, e, f) refl in
              ap (proceed_alone 3 q profile) room
              ∙ upstream n' q profile ci
              ∙ rw (with_slot, e, f)
                  (ap (λ x. (x, finished (go_upstream lib n' q profile ci).1.written))
                    (give_back_limited (go_upstream lib n' q profile ci).0 (rw same' e)))
        ]
      ]

  -- A handler that runs on its own, six steps from its start, is the handler as one function: it
  -- leaves the same plugin behind and has written the same message, whether the cache answers it, the limit
  -- refuses it, or its exchange brings a reply, a wrong one or none.
  pub proceed_alone-serve_profile :
      (n : NextDns) (q : Query) (profile : Text)
      → proceed_alone 6 q profile (n, arrived) ≡ ended (serve_profile lib n q profile)
  unfolding proceed_alone proceed serve_profile serve_found preceded reply with_id
  proceed_alone-serve_profile n q profile = elim (Found-cases (look_up lib n q profile)) [
    | inl (inl e) ↦
        let miss : proceed lib n q profile arrived ≡ (n, missed) = rw (proceed, e) refl in
        let (ci, devices) = identify lib true n q profile in
        ap (proceed_alone 5 q profile) miss
        ∙ limited (record n { devices = devices }) q profile ci
        ∙ rw (serve_profile, e) refl
    | inl (inr e) ↦
        let miss : proceed lib n q profile arrived ≡ (n, missed) = rw (proceed, e) refl in
        let (ci, devices) = identify lib true n q profile in
        ap (proceed_alone 5 q profile) miss
        ∙ limited (record n { devices = devices }) q profile ci
        ∙ rw (serve_profile, e) refl
    | inr (m, e) ↦
        let found : proceed lib n q profile arrived ≡ (n, answering m) = rw (proceed, e) refl in
        ap (proceed_alone 5 q profile) found ∙ rw (serve_profile, e) refl
  ]
