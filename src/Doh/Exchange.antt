-- ===== src/Doh/Exchange.antt =====
-- What exchange returns: the reply of the first endpoint that gives one, before the deadline.
use coredns_nextdns.Prelude.{
  ℕ, ◌≡◌, ◌⊎◌, inl, inr, refl, ap, ◌∙◌, List, [], ◌∷◌, ◌++◌, map, false, none, some, All, arith,
  Option-cases, ◌==◌,
}
use coredns_nextdns.Prelude.Text.{Text}
use coredns_nextdns.Prelude.Dict.{Dict}
use coredns_nextdns.Dns.{Msg}
use coredns_nextdns.Doh.{Endpoint, Response, Attempt, update_last_mod, do_request, exchange_loop}

-- The attempt on an endpoint gives this reply: status 200 with a body that unpacks to it.
pub record Answers (attempt : Endpoint → Attempt) (msg : Msg) (ep : Endpoint) : Type 0 where
  pub response : Response
  pub arrived : (attempt ep).response ≡ some response
  pub status : response.status ≡ 200
  pub body : response.body ≡ some msg

-- The attempt on an endpoint gives no reply.
abbrev pub Fails : (Endpoint → Attempt) → Endpoint → Type 0
Fails attempt ep =
    ((attempt ep).response ≡ none)
    ⊎ ((r : Response) × ((attempt ep).response ≡ some r)
        × (((r.status == 200) ≡ false) ⊎ (r.body ≡ none)))

do_request-some :
    (profile : Text) (attempt : Endpoint → Attempt) (ep : Endpoint) (m : Dict Text ℕ) (msg : Msg)
    → (do_request profile (attempt ep).response m).0 ≡ some msg
    → (a : Answers attempt msg ep) × ((do_request profile (attempt ep).response m).1
        ≡ update_last_mod profile a.response.header m)
unfolding do_request
do_request-some profile attempt ep m msg h = elim (Option-cases (attempt ep).response) [
  | inl e ↦ absurd (ground arith)
  | inr (r, e) ↦ (
    record { response = r; arrived = e; status = ground arith; body = ground arith },
    ground arith,
  )
]

do_request-none :
    (profile : Text) (attempt : Endpoint → Attempt) (ep : Endpoint) (m : Dict Text ℕ)
    → (do_request profile (attempt ep).response m).0 ≡ none
    → Fails attempt ep × ((do_request profile (attempt ep).response m).1 ≡ m)
unfolding do_request
do_request-none profile attempt ep m h = elim (Option-cases (attempt ep).response) [
  | inl e ↦ (inl e, ground arith)
  | inr (r, e) ↦ (inr (r, e, ground arith), ground arith)
]

-- A reply of exchange is that of an endpoint whose forerunners all failed before the deadline, in
-- the configured order; exactly their hosts are counted as errors, and the profile's change time is
-- updated from that reply alone.
pub exchange_loop-reply :
    (profile : Text) (attempt : Endpoint → Attempt) (eps : List Endpoint) (m : Dict Text ℕ)
    (msg : Msg)
    → (exchange_loop profile attempt eps m).0 ≡ some msg
    → (before : List Endpoint) × (ep : Endpoint) × (after : List Endpoint) × (a : Answers attempt
        msg ep)
      × (eps ≡ before ++ ep ∷ after)
      × All (λ x. Fails attempt x × ((attempt x).expired ≡ false)) before
      × ((exchange_loop profile attempt eps m).1 ≡ update_last_mod profile a.response.header m)
      × ((exchange_loop profile attempt eps m).2 ≡ map (λ x. x.host) before)
unfolding exchange_loop
exchange_loop-reply profile attempt [] m msg h = absurd (ground arith)
exchange_loop-reply profile attempt (ep ∷ rest) m msg h =
    let got = do_request profile (attempt ep).response m in
    elim (Option-cases got.0) [
      | inr (x, e) ↦
          let same : x ≡ msg = ground arith in
          let (a, updated) = do_request-some profile attempt ep m msg (e ∙ ap some same) in
          ([], ep, rest, a, refl, tt, ground (arith, updated), ground arith)
      | inl e ↦
          let (fails, kept) = do_request-none profile attempt ep m e in
          let in_time : (attempt ep).expired ≡ false = ground arith in
          let later : (exchange_loop profile attempt rest m).0 ≡ some msg = ground arith in
          let (before, ep', after, a, split, failed, updated, errors) =
            exchange_loop-reply profile attempt rest m msg later in
          (
            ep ∷ before,
            ep',
            after,
            a,
            ap (◌∷◌ ep) split,
            ((fails, in_time), failed),
            ground (arith, updated),
            ground (arith, errors),
          )
    ]

do_request-Fails :
    (profile : Text) (attempt : Endpoint → Attempt) (ep : Endpoint) (m : Dict Text ℕ)
    → Fails attempt ep
    → do_request profile (attempt ep).response m ≡ (none, m)
unfolding do_request
do_request-Fails profile attempt ep m (inl e) = rw (e) refl
do_request-Fails profile attempt ep m (inr (r, e, h)) = ground arith

do_request-Answers :
    (profile : Text) (attempt : Endpoint → Attempt) (ep : Endpoint) (m : Dict Text ℕ) (msg : Msg)
    (a : Answers attempt msg ep)
    → do_request profile (attempt ep).response m
      ≡ (some msg, update_last_mod profile a.response.header m)
unfolding do_request
do_request-Answers profile attempt ep m msg a = ground (arith, a.arrived, a.status, a.body)

-- Failover: when an endpoint answers and every one before it in the configured order failed before
-- the deadline, its reply is the result, its report of the last change is noted for the profile, and
-- the errors counted are those of the endpoints before it; the ones behind it are not asked.
pub exchange_loop-answers :
    (profile : Text) (attempt : Endpoint → Attempt) (before : List Endpoint) (ep : Endpoint)
    (after : List Endpoint) (m : Dict Text ℕ) (msg : Msg) (a : Answers attempt msg ep)
    → All (λ x. Fails attempt x × ((attempt x).expired ≡ false)) before
    → exchange_loop profile attempt (before ++ ep ∷ after) m
      ≡ (some msg, update_last_mod profile a.response.header m, map (λ x. x.host) before)
unfolding exchange_loop
exchange_loop-answers profile attempt [] ep after m msg a h =
    let same = do_request-Answers profile attempt ep m msg a in
    ground (arith, ap (λ r. r.0) same, ap (λ r. r.1) same)
exchange_loop-answers profile attempt (x ∷ before) ep after m msg a ((f, t), h) =
    let same = do_request-Fails profile attempt x m f in
    ground (
      arith,
      ap (λ r. r.0) same,
      ap (λ r. r.1) same,
      exchange_loop-answers profile attempt before ep after m msg a h,
    )
