-- ===== src/Routing/Prefixes.antt =====
-- What the subnets of client_profile, as parsePrefix reads them, contain.
use coredns_nextdns.Prelude.{
  ℕ, ◌-◌, ◌<◌, ◌≡◌, ◌↔◌, refl, Option, none, some, arith, true, false, [],
}
use coredns_nextdns.Prelude.Text.{Text}
use coredns_nextdns.Addr.{
  Addr, v4, v6, Prefix, is_4in6, unmap, with_zone, prefix_from, masked, contains, contains_addr,
  same_top, bit_len, IsPlain,
}
use coredns_nextdns.Routing.{parse_prefix}

masked_invalid : (q : Prefix) (a : Addr) → q.bits_plus_one ≡ 0 → contains (masked q) a ≡ false
unfolding masked contains
masked_invalid q a h = ground arith

-- A subnet written as a CIDR in the IPv6 form of IPv4 addresses, as ::ffff:192.0.2.0/120, is
-- accepted and contains no address at all, if its length is more than 32: the address is turned
-- into an IPv4 address, and the length is kept.
pub parse_prefix_mapped :
    (parse_cidr : Text → Option Prefix) (parse_addr : Text → Option Addr) (s : Text) (p : Prefix)
    (bits : ℕ) (zone : Text)
    → parse_cidr s ≡ some p
    → p.addr ≡ v6 bits zone
    → is_4in6 bits ≡ true
    → 32 < p.bits_plus_one - 1
    → (q : Prefix) × (parse_prefix parse_cidr parse_addr s ≡ some q)
      × ((a : Addr) → contains q a ≡ false)
unfolding parse_prefix unmap prefix_from
parse_prefix_mapped parse_cidr parse_addr s p bits zone e k m long =
    let q = prefix_from (unmap p.addr) (p.bits_plus_one - 1) in
    let short : bit_len (unmap p.addr) ≡ 32 = rw (k, unmap, m) refl in
    (masked q, rw (parse_prefix, e) refl, λ a. masked_invalid q a (ground (arith, short)))

contains_self :
    (a b : Addr) → IsPlain b → with_zone [] a ≡ b → contains (prefix_from a (bit_len a)) b ≡ true
unfolding contains prefix_from contains_addr same_top with_zone
contains_self (v4 x) (v4 y) h e = ground arith
contains_self (v6 x z) (v6 y w) h e = ground arith
contains_self (v4 x) (v6 y w) h e = cc
contains_self (v6 x z) (v4 y) h e = cc

contains_only :
    (a b : Addr) → IsPlain b → contains (prefix_from a (bit_len a)) b ≡ true → with_zone [] a ≡ b
unfolding contains prefix_from contains_addr same_top with_zone
contains_only (v4 x) (v4 y) h e = ground arith
contains_only (v6 x z) (v6 y w) h e = ground arith
contains_only (v4 x) (v6 y w) h e = cc
contains_only (v6 x z) (v4 y) h e = cc

-- A bare address in place of a CIDR is a rule for exactly the client with that address: of all
-- client addresses it matches the one and no other, whatever zone or form it is written with.
pub parse_prefix_host :
    (parse_cidr : Text → Option Prefix) (parse_addr : Text → Option Addr) (s : Text) (a : Addr)
    → parse_cidr s ≡ none
    → parse_addr s ≡ some a
    → (q : Prefix) × (parse_prefix parse_cidr parse_addr s ≡ some q)
      × ((b : Addr) → IsPlain b → (contains q b ≡ true) ↔ (with_zone [] (unmap a) ≡ b))
unfolding parse_prefix
parse_prefix_host parse_cidr parse_addr s a e f = (
  prefix_from (unmap a) (bit_len (unmap a)),
  rw (parse_prefix, e, f) refl,
  λ b h. (contains_only (unmap a) b h, contains_self (unmap a) b h),
)
