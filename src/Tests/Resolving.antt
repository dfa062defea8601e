-- ===== src/Tests/Resolving.antt =====
-- Runs of the resolvers of reverse names, and of the gauges of an instance.
use coredns_nextdns.Prelude.{
  if◌then◌else◌, ◌≡◌, ◌↔◌, List, [], ◌∷◌, ◌++◌, true, Option, none, some, All,
}
use coredns_nextdns.Prelude.Text.{Text, codes, text_eq}
use coredns_nextdns.Prelude.Result.{ok}
use coredns_nextdns.Dns.{Msg}
use coredns_nextdns.Discovery.Resolvers.{
  external_resolver, Names, FailsOn, external_resolver-ok_iff,
}
use coredns_nextdns.Tests.Data.{answered}

-- The first resolver is down, and the second one answers with a truncated message.
abbrev udp : Text → Option Msg
udp t = if text_eq t (codes "down") then none else some (record answered { truncated = true })

abbrev tcp : Text → Option Msg
tcp t =
    some
      (record answered { answer = record { rrtype = 12; ttl = 60; rdata = codes "phone." } ∷ [] })

abbrev resolvers : List Text
resolvers = codes "down" ∷ codes "up" ∷ []

external_resolver-ok_iff_example : (external_resolver udp tcp resolvers ≡ ok (codes "phone.")) ↔ (
    (l : List Text) × (addr : Text) × (rest : List Text) × (resolvers ≡ l ++ addr ∷ rest)
    × All (FailsOn udp tcp) l
    × Names udp tcp addr (codes "phone."))
external_resolver-ok_iff_example = external_resolver-ok_iff udp tcp resolvers (codes "phone.")
