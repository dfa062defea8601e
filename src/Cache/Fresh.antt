-- ===== src/Cache/Fresh.antt =====
-- The lifetimes that the cache computes: how long an entry lives and the TTL that a hit carries.
use coredns_nextdns.Prelude.{
  ℕ, ◌+◌, ◌-◌, ◌*◌, ◌^◌, ◌≤◌, ◌<◌, ◌≡◌, ◌≢◌, refl, arith, AllPairs, AllPairs-map,
}
use coredns_nextdns.Dns.{Rr, Msg, second, type_opt}
use coredns_nextdns.Cache.{set_ttl_rr, set_ttl, ttl_seconds, clamp_ttl}

-- With limits in order, the lifetime of an entry lies between them.
pub clamp_ttl_bounds :
    (lo hi ttl : ℕ) → lo ≤ hi → (lo ≤ clamp_ttl lo hi ttl) × (clamp_ttl lo hi ttl ≤ hi)
unfolding clamp_ttl
clamp_ttl_bounds lo hi ttl h = ground arith

-- An entry that is still alive is handed out with the seconds it has left, rounded up: never 0,
-- and less than a second more than what is left. The lifetime is at most 2 ^ 32 - 1 seconds.
pub ttl_seconds_bounds :
    (remaining : ℕ)
    → 0 < remaining
    → remaining ≤ (2 ^ 32 - 1) * second
    → (0 < ttl_seconds remaining)
      × (remaining ≤ ttl_seconds remaining * second)
      × (ttl_seconds remaining * second < remaining + second)
unfolding ttl_seconds
ttl_seconds_bounds remaining pos h = ground arith

-- What a record of the rewritten message is, against the record it comes from.
pub record IsRewritten (ttl : ℕ) (old new : Rr) : Type 0 where
  pub same_type : new.rrtype ≡ old.rrtype
  pub same_data : new.rdata ≡ old.rdata
  pub opt : old.rrtype ≡ type_opt → new.ttl ≡ old.ttl
  pub lifetime : old.rrtype ≢ type_opt → new.ttl ≡ ttl

pub set_ttl_rr-IsRewritten : (ttl : ℕ) (rr : Rr) → IsRewritten ttl rr (set_ttl_rr ttl rr)
unfolding set_ttl_rr
set_ttl_rr-IsRewritten ttl rr = ground arith

-- Rewriting a message keeps every record in its section and place, and gives each the one TTL but
-- for OPT, whose TTL field is no lifetime; nothing else of the message changes.
pub set_ttl-IsRewritten :
    (m : Msg) (ttl : ℕ)
    → AllPairs (IsRewritten ttl) m.answer (set_ttl m ttl).answer
      × AllPairs (IsRewritten ttl) m.ns (set_ttl m ttl).ns
      × AllPairs (IsRewritten ttl) m.extra (set_ttl m ttl).extra
      × (set_ttl m ttl ≡ record m {
        answer = (set_ttl m ttl).answer;
        ns = (set_ttl m ttl).ns;
        extra = (set_ttl m ttl).extra;
      })
unfolding set_ttl
set_ttl-IsRewritten m ttl =
    let each = AllPairs-map (IsRewritten ttl) (set_ttl_rr ttl) (set_ttl_rr-IsRewritten ttl) in
    (each m.answer, each m.ns, each m.extra, refl)
