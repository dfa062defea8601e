-- ===== src/Cache/Match.antt =====
-- When an entry answers a question.
use coredns_nextdns.Prelude.{◌≡◌, ◌↔◌, arith, true}
use coredns_nextdns.Prelude.Text.{Text}
use coredns_nextdns.Dns.{Request}
use coredns_nextdns.Cache.{CacheEntry, matches}

-- The same question as far as an answer can depend on it: request `a` asks what `b` asks.
pub record SameQuestion (a b : Request) : Type 0 where
  pub name : a.name ≡ b.name
  pub qtype : a.qtype ≡ b.qtype
  pub qclass : a.qclass ≡ b.qclass
  pub dnssec_ok : a.dnssec_ok ≡ b.dnssec_ok
  pub cd : a.req.checking_disabled ≡ b.req.checking_disabled

-- An entry matches exactly a question with its own profile, name, type, class and flags.
pub matches_iff :
    (e : CacheEntry) (p : Text) (q : Request)
    → (matches e p q ≡ true) ↔ (
        (e.profile ≡ p)
        × (e.qname ≡ q.name)
        × (e.qtype ≡ q.qtype)
        × (e.qclass ≡ q.qclass)
        × (e.dnssec_ok ≡ q.dnssec_ok)
        × (e.cd ≡ q.req.checking_disabled))
unfolding matches
matches_iff e p q = ground arith
