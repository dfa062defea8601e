-- ===== src/Tests/Upstream.antt =====
-- Runs of the DNS-over-HTTPS client.
use coredns_nextdns.Prelude.{
  ◌≡◌, ◌↔◌, inl, refl, [], ◌∷◌, ◌++◌, map, Bool, true, false, none, some, All, Any, ℕ_discrete,
  if◌then◌else◌,
}
use coredns_nextdns.Prelude.Text.{Text, codes, text_eq, text_discrete}
use coredns_nextdns.Prelude.Dict
use coredns_nextdns.Prelude.Dict.{Dict}
use coredns_nextdns.Doh.{
  Endpoint, DohClient, matches_network, addrs_from, addrs, gather, note_bootstrap, plain, connected,
  try_addresses, dial, conf_changed_at, update_last_mod, Attempt, do_request, exchange_loop,
}
use coredns_nextdns.Doh.Bootstrap.{Declares, dial-plain_iff}
use coredns_nextdns.Doh.Exchange.{Answers, Fails, exchange_loop-answers}
use coredns_nextdns.Tests.Data.{answered, home}

program : Unit {0}
unfolding matches_network addrs_from addrs gather note_bootstrap try_addresses dial conf_changed_at
    update_last_mod do_request exchange_loop Dict.get Dict.put text_discrete ℕ_discrete
program = tt

abbrev near : Endpoint
near = record {
  base = codes "https://near";
  host = codes "near";
  bootstrap = codes "45.90.28.0" ∷ [];
  next = 0;
}

abbrev far : Endpoint
far = record { base = codes "https://far"; host = codes "far"; bootstrap = []; next = 0 }

abbrev client : DohClient
client = record { endpoints = near ∷ far ∷ []; last_mod = []; boot_failing = [] }

abbrev always : Text → Bool
always t = true

dial-plain_iff_example :
    ((dial always always (codes "tcp") (codes "far") client).0 ≡ plain)
    ↔ (¬ Any (Declares (codes "far")) client.endpoints)
dial-plain_iff_example = dial-plain_iff always always (codes "tcp") (codes "far") client

near_connected :
    (dial always always (codes "tcp4") (codes "near") client).0 ≡ connected (codes "45.90.28.0")
unfolding program
near_connected = refl

-- The first endpoint is down, and the second one answers.
abbrev attempt : Endpoint → Attempt
attempt e =
    if text_eq e.host (codes "near") then record { response = none; expired = false } else record {
      response = some (record { status = 200; body = some answered; header = some 9 });
      expired = false;
    }

far_Answers : Answers attempt answered far
unfolding text_discrete ℕ_discrete
far_Answers = record {
  response = record { status = 200; body = some answered; header = some 9 };
  arrived = refl;
  status = refl;
  body = refl;
}

near-Fails : All (λ x. Fails attempt x × ((attempt x).expired ≡ false)) (near ∷ [])
unfolding text_discrete ℕ_discrete
near-Fails = ((inl refl, refl), tt)

exchange_loop-answers_example : exchange_loop home attempt ((near ∷ []) ++ far ∷ []) [] ≡ (
  some answered,
  update_last_mod home far_Answers.response.header [],
  map (λ x. x.host) (near ∷ []),
)
exchange_loop-answers_example =
    exchange_loop-answers home attempt (near ∷ []) far [] [] answered far_Answers near-Fails

far_reply : (exchange_loop home attempt (near ∷ far ∷ []) []).0 ≡ some answered
unfolding program
far_reply = refl
