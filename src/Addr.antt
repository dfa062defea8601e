-- ===== src/Addr.antt =====
-- The part of net/netip that the plugin computes with: addresses, Unmap, WithZone and prefixes.
-- The parser of addresses (netip.ParseAddr) is a parameter of what calls it.
use coredns_nextdns.Prelude.{
  ◌+◌, leb, not, ℕ, ◌-◌, ◌*◌, ◌/◌, ◌%◌, ◌^◌, ◌≡◌, subst, inl, inr, Option-cases, [], ◌∷◌, Bool,
  true, false, ◌&&◌, Option, none, some, arith, ◌==◌, if◌then◌else◌, ℕ_discrete,
}
use coredns_nextdns.Prelude.Text.{Text, text_discrete, is_empty}

-- netip.Addr: 32 bits, or 128 bits with a zone.
pub data Addr : Type 0 where
  v4 : ℕ → Addr
  v6 : ℕ → Text → Addr

-- The IPv6 forms of IPv4 addresses, ::ffff:0:0/96.
unfoldable pub is_4in6 : ℕ → Bool
is_4in6 bits = bits / 2 ^ 32 == 0xFFFF

-- Addr.Unmap
unfoldable pub unmap : Addr → Addr
unmap (v4 bits) = v4 bits
unmap (v6 bits zone) = if is_4in6 bits then v4 (bits % 2 ^ 32) else v6 bits zone

-- Addr.WithZone: an IPv4 address has no zone.
unfoldable pub with_zone : Text → Addr → Addr
with_zone zone (v4 bits) = v4 bits
with_zone zone (v6 bits _) = v6 bits zone

abbrev pub bit_len : Addr → ℕ
bit_len (v4 _) = 32
bit_len (v6 _ _) = 128

-- netip.Prefix; a `bits_plus_one` of 0 marks an invalid one, whose Bits() is -1.
pub record Prefix : Type 0 where
  pub addr : Addr
  pub bits_plus_one : ℕ

-- netip.PrefixFrom: a length that the address does not have makes the prefix invalid.
unfoldable pub prefix_from : Addr → ℕ → Prefix
prefix_from a bits = record {
  addr = a;
  bits_plus_one = if leb bits (bit_len a) then bits + 1 else 0;
}

unfoldable pub same_top : ℕ → ℕ → ℕ → ℕ → Bool
same_top width n a b = a / 2 ^ (width - n) == b / 2 ^ (width - n)

unfoldable pub contains_addr : ℕ → Addr → Addr → Bool
unfolding same_top
contains_addr n (v4 a) (v4 b) = same_top 32 n a b
contains_addr n (v6 a _) (v6 b zone) = is_empty zone && same_top 128 n a b
contains_addr n (v4 a) (v6 b zone) = false
contains_addr n (v6 a _) (v4 b) = false

-- Prefix.Contains: nothing is in an invalid prefix, and no address with a zone is in any, nor one
-- of the other family.
unfoldable pub contains : Prefix → Addr → Bool
unfolding contains_addr
contains p ip = not (p.bits_plus_one == 0) && contains_addr (p.bits_plus_one - 1) p.addr ip

clear_host : ℕ → Addr → Addr
clear_host n (v4 a) = v4 (a / 2 ^ (32 - n) * 2 ^ (32 - n))
clear_host n (v6 a _) = v6 (a / 2 ^ (128 - n) * 2 ^ (128 - n)) []

-- Prefix.Masked: the host bits cleared, and the zone dropped. What is invalid stays so: its address
-- is that of the zero Prefix in the source, and is never read.
unfoldable pub masked : Prefix → Prefix
unfolding clear_host
masked p = record p { addr = clear_host (p.bits_plus_one - 1) p.addr }

unfoldable pub addr_discrete : Discrete Addr
unfolding ℕ_discrete text_discrete
addr_discrete (v4 a) (v4 b) = elim (ℕ_discrete a b) [ yes p ↦ yes (cc) | no p ↦ no (λ e. p (cc)) ]
addr_discrete (v4 a) (v6 b z) = no (λ e. cc)
addr_discrete (v6 a z) (v4 b) = no (λ e. cc)
addr_discrete (v6 a z) (v6 b y) = elim (ℕ_discrete a b) [
  | no p ↦ no (λ e. p (cc))
  | yes p ↦ elim (text_discrete z y) [ no q ↦ no (λ e. q (cc)) | yes q ↦ yes (cc) ]
]

-- An address that can be compared and stored: no zone, and no IPv4 address in its IPv6 form.
abbrev pub IsPlain : Addr → Type 0
IsPlain (v4 bits) = Unit {0}
IsPlain (v6 bits zone) = (zone ≡ []) × (is_4in6 bits ≡ false)

module _ (parse_addr : Text → Option Addr) where
  -- clientAddr of device.go
  unfoldable pub client_addr : Text → Option Addr
  client_addr ip = elim (parse_addr ip) [
    | none ↦ none
    | some addr ↦ some (with_zone [] (unmap addr))
  ]

unmap-IsPlain : (a : Addr) → IsPlain (with_zone [] (unmap a))
unfolding unmap with_zone
unmap-IsPlain (v4 bits) = tt
unmap-IsPlain (v6 bits zone) = ground arith

-- A client's address is always plain, so that it can match a prefix, a name or a table entry.
pub client_addr-IsPlain :
    (parse_addr : Text → Option Addr) (ip : Text) (a : Addr)
    → client_addr parse_addr ip ≡ some a
    → IsPlain a
unfolding client_addr
client_addr-IsPlain parse_addr ip a h = elim (Option-cases (parse_addr ip)) [
  | inl e ↦ absurd (ground arith)
  | inr (x, e) ↦
      let same : with_zone [] (unmap x) ≡ a = ground arith in subst IsPlain same (unmap-IsPlain x)
]

-- A host route, the whole address as prefix, contains no other address without a zone.
pub contains_host : (a b : Addr) → IsPlain a → contains (prefix_from a (bit_len a)) b ≡ true → a ≡ b
unfolding contains prefix_from
contains_host (v4 a) (v4 b) pa h = ground arith
contains_host (v6 a z) (v6 b []) pa h = ground arith
contains_host (v6 a z) (v6 b (c ∷ y)) pa h = cc
contains_host (v4 a) (v6 b zone) pa h = cc
contains_host (v6 a z) (v4 b) pa h = cc
