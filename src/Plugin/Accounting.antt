-- ===== src/Plugin/Accounting.antt =====
-- nextdns.go and metrics.go: what the counters of a query say.
use coredns_nextdns.Prelude.{
  subst, ℕ, ◌+◌, ◌≡◌, inl, inr, refl, List, [], ◌∷◌, ◌++◌, Bool, true, false, Option, none, some,
  arith, subst, sym, if◌then◌else◌, is_some, Option-cases, Bool-cases, ltb, leb, ◌&&◌,
}
use coredns_nextdns.Prelude.Text.{Text}
use coredns_nextdns.Dns.{Msg}
use coredns_nextdns.Cache.{Found, hit, absent, collided}
use coredns_nextdns.Device.{ClientInfo}
use coredns_nextdns.Plugin.{
  Metadata, Libraries, NextDns, Query, Outcome, ServeError, next_error, max_concurrent_error,
  upstream_error, override, preceded, reply, refuse, accept, conclude, go_out, go_upstream,
  with_slot, look_up, count_cache, serve_found, serve_profile, identify, route, serve_dns,
}
use coredns_nextdns.Plugin.Publish.{Metadata}
use coredns_nextdns.Plugin.Counters.{
  Counter, cache_hits, cache_misses, cache_collisions, max_concurrent_rejects, mismatches,
  request_duration, responses, errors, count_found, count_errors,
}
use coredns_nextdns.Plugin.Limits.{IsProfileQuery, identified, missed, serve_dns-profile}
use coredns_nextdns.Routing.{note_metadata}

-- How many of the counts are of a kind.
unfoldable pub tally : (Counter → Bool) → List Counter → ℕ
tally p [] = 0
tally p (c ∷ cs) = let rest = tally p cs in if p c then rest + 1 else rest

-- cache_hits_total and cache_misses_total
abbrev pub is_lookup : Counter → Bool
is_lookup cache_hits = true
is_lookup cache_misses = true
is_lookup cache_collisions = false
is_lookup max_concurrent_rejects = false
is_lookup mismatches = false
is_lookup (request_duration _) = false
is_lookup (responses _ _) = false
is_lookup (errors _) = false

-- The counts of how a query ends: responses_total, max_concurrent_rejects_total and
-- mismatches_total
abbrev pub is_ending : Counter → Bool
is_ending cache_hits = false
is_ending cache_misses = false
is_ending cache_collisions = false
is_ending max_concurrent_rejects = true
is_ending mismatches = true
is_ending (request_duration _) = false
is_ending (responses _ _) = true
is_ending (errors _) = false

-- request_duration_seconds
abbrev pub is_exchange : Counter → Bool
is_exchange cache_hits = false
is_exchange cache_misses = false
is_exchange cache_collisions = false
is_exchange max_concurrent_rejects = false
is_exchange mismatches = false
is_exchange (request_duration _) = true
is_exchange (responses _ _) = false
is_exchange (errors _) = false

tally-append :
    (p : Counter → Bool) (xs ys : List Counter) → tally p (xs ++ ys) ≡ tally p xs + tally p ys
unfolding tally
tally-append p [] ys = omega arith
tally-append p (x ∷ xs) ys = ground (arith, tally-append p xs ys)

-- The errors of an exchange are of none of these kinds.
tally-count_errors :
    (p : Counter → Bool) (hosts : List Text)
    → ((h : Text) → p (errors h) ≡ false)
    → tally p (count_errors hosts) ≡ 0
unfolding tally count_errors
tally-count_errors p [] h = refl
tally-count_errors p (x ∷ xs) h = ground (arith, h x, tally-count_errors p xs h)

-- 1 for an outcome that a failed exchange ended, which has no count of its own.
unfoldable pub failures : Option ServeError → ℕ
failures none = 0
failures (some next_error) = 0
failures (some max_concurrent_error) = 0
failures (some upstream_error) = 1

-- The counts of a query, when `sent` exchanges have been made for it and `asked` lookups in the
-- cache.
pub record IsCounted (asked sent : ℕ) (out : Outcome) : Type 0 where
  pub lookups : tally is_lookup out.counted ≡ asked
  pub ending : tally is_ending out.counted + failures out.error ≡ 1
  pub exchanges : tally is_exchange out.counted ≡ sent

preceded-IsCounted :
    (a b asked sent : ℕ) (cs : List Counter) (metadata : Option Metadata) (out : Outcome)
    → tally is_lookup cs + asked ≡ a
    → tally is_ending cs ≡ 0
    → tally is_exchange cs + sent ≡ b
    → IsCounted asked sent out
    → IsCounted a b (preceded cs metadata out)
unfolding preceded
preceded-IsCounted a b asked sent cs metadata out l e x h = record {
  lookups = omega (arith, tally-append is_lookup cs out.counted, h.lookups, l);
  ending = omega (arith, tally-append is_ending cs out.counted, h.ending, e);
  exchanges = omega (arith, tally-append is_exchange cs out.counted, h.exchanges, x);
}

-- What an exchange counts of itself.
exchange_counts :
    (p : Counter → Bool) (hosts : List Text) (profile : Text)
    → ((h : Text) → p (errors h) ≡ false)
    → tally p (count_errors hosts ++ request_duration profile ∷ [])
      ≡ (if p (request_duration profile) then 1 else 0)
unfolding tally
exchange_counts p hosts profile h = ground (
  arith,
  tally-append p (count_errors hosts) (request_duration profile ∷ []),
  tally-count_errors p hosts h,
)

module _ (lib : Libraries) where
  -- Whether a query makes an exchange: a slot is free for it.
  unfoldable pub sends : NextDns → ℕ
  sends n = if ltb 0 n.max_concurrent && leb n.max_concurrent n.concurrent then 0 else 1

  accept-IsCounted :
      (n : NextDns) (q : Query) (profile : Text) (m : Msg)
      → IsCounted 0 0 (accept lib n q profile m).1
  unfolding accept reply tally failures
  accept-IsCounted n q profile m = record {
    lookups = ground arith;
    ending = ground arith;
    exchanges = ground arith;
  }

  go_upstream-IsCounted :
      (n : NextDns) (q : Query) (profile : Text) (ci : ClientInfo)
      → IsCounted 0 1 (go_upstream lib n q profile ci).1
  unfolding go_upstream conclude tally
  go_upstream-IsCounted n q profile ci =
      let hosts = (go_out lib n q profile ci).2 in
      let cs = count_errors hosts ++ request_duration profile ∷ [] in
      let asked = exchange_counts is_lookup hosts profile (λ h. refl) in
      let ended = exchange_counts is_ending hosts profile (λ h. refl) in
      let sent = exchange_counts is_exchange hosts profile (λ h. refl) in
      elim (Option-cases (go_out lib n q profile ci).0) [
        | inl e ↦
            rw (go_upstream, conclude, e)
              (record {
                lookups = asked;
                ending = unfold failures in omega (arith, ended);
                exchanges = sent;
              })
        | inr (m, e) ↦
            let n' = record n { client = (go_out lib n q profile ci).1 } in
            let out = (accept lib n' q profile m).1 in
            rw (go_upstream, conclude, e)
              (preceded-IsCounted 0 1 0 0 cs out.metadata out (omega (arith, asked)) ended
                (omega (arith, sent)) (accept-IsCounted n' q profile m))
      ]

  with_slot-IsCounted :
      (n : NextDns) (q : Query) (profile : Text) (ci : ClientInfo)
      → IsCounted 0 (sends n) (with_slot lib n q profile ci).1
  unfolding with_slot sends refuse tally failures
  with_slot-IsCounted n q profile ci = elim (Bool-cases (ltb 0 n.max_concurrent)) [
    | inr e ↦ rw (with_slot, sends, e) (go_upstream-IsCounted n q profile ci)
    | inl e ↦ elim (Bool-cases (leb n.max_concurrent n.concurrent)) [
      | inl f ↦
          let g : ltb n.max_concurrent (n.concurrent + 1) ≡ true = ground arith in
          rw (with_slot, sends, e, f, g)
            (record { lookups = refl; ending = refl; exchanges = refl })
      | inr f ↦
          let g : ltb n.max_concurrent (n.concurrent + 1) ≡ false = ground arith in
          rw (with_slot, sends, e, f, g)
            (go_upstream-IsCounted (record n { concurrent = n.concurrent + 1 }) q profile ci)
    ]
  ]

  -- How many lookups in the cache and how many exchanges a profile query makes.
  unfoldable pub lookups_of : NextDns → ℕ
  lookups_of n = if is_some n.cache then 1 else 0

  unfoldable pub exchanges_of : NextDns → Found → ℕ
  exchanges_of n (hit m) = 0
  exchanges_of n absent = sends n
  exchanges_of n collided = sends n

  count_cache_lem :
      (n : NextDns) (f : Found)
      → (tally is_lookup (count_cache lib n f) ≡ lookups_of n)
        × (tally is_ending (count_cache lib n f) ≡ 0)
        × (tally is_exchange (count_cache lib n f) ≡ 0)
  unfolding count_cache count_found lookups_of tally
  count_cache_lem n (hit m) = (ground arith, ground arith, ground arith)
  count_cache_lem n absent = (ground arith, ground arith, ground arith)
  count_cache_lem n collided = (ground arith, ground arith, ground arith)

  missed-IsCounted :
      (n : NextDns) (q : Query) (profile : Text) (metadata : Option Metadata)
      → IsCounted 0 (sends n) (preceded [] metadata (missed lib n q profile).1)
  unfolding missed identified sends tally
  missed-IsCounted n q profile metadata =
      let out = (missed lib n q profile).1 in
      preceded-IsCounted 0 (sends n) 0 (sends n) [] metadata out (omega arith) refl (omega arith) (
        with_slot-IsCounted (identified lib n q profile) q profile
          (identify lib true n q profile).0)

  serve_found-IsCounted :
      (n : NextDns) (q : Query) (profile : Text) (f : Found)
      → IsCounted 0 (exchanges_of n f) (serve_found lib n q profile f).1
  unfolding serve_found exchanges_of missed identified reply preceded tally failures
  serve_found-IsCounted n q profile (hit m) = record {
    lookups = refl;
    ending = refl;
    exchanges = refl;
  }
  serve_found-IsCounted n q profile absent = missed-IsCounted n q profile _
  serve_found-IsCounted n q profile collided = missed-IsCounted n q profile _

  -- The counters of a query for a profile add up: with a cache, one hit or one miss; one exchange
  -- timed if it was neither a hit nor refused; and of a response, a rejection, a mismatch and an
  -- upstream error, which counts nothing but its endpoints, exactly one.
  pub serve_dns-IsCounted :
      (n : NextDns) (q : Query)
      → IsProfileQuery lib n q
      → IsCounted
          (lookups_of n)
          (exchanges_of n (look_up lib n q (route lib n q)))
          (serve_dns lib n q).1
  unfolding serve_profile look_up lookups_of exchanges_of sends count_cache
  serve_dns-IsCounted n q p =
      let profile = route lib n q in
      let n' = record n { bad = note_metadata n.bad (override q) } in
      let f = look_up lib n q profile in
      let (asked, ended, sent) = count_cache_lem n f in
      let out = (serve_found lib n' q profile f).1 in
      let counted =
        preceded-IsCounted (lookups_of n) (exchanges_of n f) 0 (exchanges_of n f)
          (count_cache lib n f) out.metadata out (omega (arith, asked)) ended (omega (arith, sent))
          (serve_found-IsCounted n' q profile f) in
      subst (λ r. IsCounted (lookups_of n) (exchanges_of n f) r.1)
        (sym (serve_dns-profile lib n q p)) counted
