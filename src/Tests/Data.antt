-- ===== src/Tests/Data.antt =====
-- Values that the runs share.
use coredns_nextdns.Prelude.{ℕ, false, [], ◌∷◌, Option, none, some, length}
use coredns_nextdns.Prelude.Text.{Text, codes}
use coredns_nextdns.Dns.{Msg, Request}
use coredns_nextdns.Dns.Rcode
use coredns_nextdns.Addr.{Addr, v4}

-- 192.0.2.7
abbrev pub alice : Addr
alice = v4 3221225991

abbrev pub asked : Msg
asked = record {
  id = 7;
  rcode = Rcode.success;
  truncated = false;
  checking_disabled = false;
  question = record { name = codes "a."; qtype = 1; qclass = 1 } ∷ [];
  answer = [];
  ns = [];
  extra = [];
}

abbrev pub answered : Msg
answered = record asked { id = 0; answer = record { rrtype = 1; ttl = 60; rdata = codes "x" } ∷ [] }

abbrev pub request : Request
request = record {
  req = asked;
  name = codes "a.";
  qtype = 1;
  qclass = 1;
  dnssec_ok = false;
  ip = codes "192.0.2.7";
}

abbrev pub home : Text
home = codes "abc123"

-- A hash of bytes, for runs only.
abbrev pub sum64 : Text → ℕ
sum64 t = length t

abbrev pub minimal_ttl : Msg → ℕ → ℕ
minimal_ttl m now = 60_000_000_000

abbrev pub parse_addr : Text → Option Addr
parse_addr [] = none
parse_addr (c ∷ t) = some alice
