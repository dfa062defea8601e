-- ===== src/Sources/Zones.antt =====
-- A source keeps the zone of an address, which a client's address never has.
use coredns_nextdns.Prelude.{
  if_neg, ◌≢◌, ◌≡◌, inl, inr, refl, List, [], ◌∷◌, Bool, true, false, not, ◌&&◌, Option, none, some,
  arith, if◌then◌else◌, Option-cases, Bool-cases,
}
use mathlib.Core.Logic.{if_neg}
use coredns_nextdns.Prelude.Text.{Text, is_empty}
use coredns_nextdns.Prelude.Fields.{fields, before_byte}
use coredns_nextdns.Prelude.Dict
use coredns_nextdns.Addr.{
  Addr, v4, v6, is_4in6, unmap, IsPlain, client_addr, client_addr-IsPlain, addr_discrete,
}
use coredns_nextdns.Device.{DeviceInfo, HardwareAddr}
use coredns_nextdns.Sources.{Table, parse_lines, hosts_entry, parse_as, hosts, store, unknown}

-- An address with a zone, as fe80::1%eth0; an IPv4 address in its IPv6 form loses its zone with it.
unfoldable pub is_zoned : Addr → Bool
is_zoned (v4 bits) = false
is_zoned (v6 bits zone) = not (is_empty zone) && not (is_4in6 bits)

IsApart : Addr → Type 0
IsApart a = (b : Addr) → IsPlain b → a ≢ b

unmap-IsApart : (a : Addr) → is_zoned a ≡ true → IsApart (unmap a)
unfolding IsApart is_zoned unmap
unmap-IsApart (v4 bits) h = λ b plain e. absurd (ground (arith, h))
unmap-IsApart (v6 bits []) h = λ b plain e. absurd (ground (arith, h))
unmap-IsApart (v6 bits (c ∷ zone)) h = λ b plain e.
    elim b as (λ b. IsPlain b → unmap (v6 bits (c ∷ zone)) ≡ b → ⊥) [
      | v4 x ↦ λ plain e. ground (arith, h, e)
      | v6 x z ↦ λ plain e. ground (arith, h, e, plain.0)
    ]
      plain e

module _ (parse_addr : Text → Option Addr) where
  -- A line of a hosts file that names an address with a zone.
  unfoldable pub names_zoned : Text → Bool
  names_zoned line = elim (fields (before_byte b'#' line)) [
    | ip ∷ name ∷ aliases ↦ elim (parse_addr ip) [ some a ↦ is_zoned a | none ↦ false ]
    | _ ↦ false
  ]

  -- The file without the lines that name an address with a zone.
  unfoldable pub without_zoned : List Text → List Text
  without_zoned [] = []
  without_zoned (line ∷ rest) =
      let kept = without_zoned rest in if names_zoned line then kept else line ∷ kept

module _ (parse_addr : Text → Option Addr) (parse_mac : Text → Option HardwareAddr) where
  -- What a line that names an address with a zone makes is stored under no client's address.
  zoned_entry :
      (line : Text)
      → names_zoned parse_addr line ≡ true
      → (a : Addr) × (info : DeviceInfo) × (hosts_entry parse_addr parse_mac line ≡ some (a, info))
        × IsApart a
  unfolding names_zoned hosts_entry
  zoned_entry line h =
      elim (fields (before_byte b'#' line))
          as (λ f.
            fields (before_byte b'#' line) ≡ f
            → (a : Addr) × (info : DeviceInfo) × (hosts_entry parse_addr parse_mac line
                ≡ some (a, info))
              × IsApart a) [
                | [] ↦ λ e. absurd (ground (arith, h, e))
                | ip ∷ [] ↦ λ e. absurd (ground (arith, h, e))
                | ip ∷ name ∷ aliases ↦ λ e. elim (Option-cases (parse_addr ip)) [
                  | inl bad ↦ absurd (ground (arith, h, e, bad))
                  | inr (a, good) ↦ (
                    unmap a,
                    record unknown { name = name },
                    rw (hosts_entry, e, good) refl,
                    unmap-IsApart a (ground (arith, h, e, good)),
                  )
                ]
              ]
        refl

  get-parse_lines :
      (client : Addr) (out out' : Table) (lines : List Text)
      → IsPlain client
      → Dict.get addr_discrete client out ≡ Dict.get addr_discrete client out'
      → Dict.get addr_discrete client
          (parse_lines parse_addr parse_mac (hosts_entry parse_addr parse_mac) out lines)
        ≡ Dict.get addr_discrete client (
            parse_lines parse_addr parse_mac
              (hosts_entry parse_addr parse_mac)
              out'
              (without_zoned parse_addr lines))
  unfolding parse_lines without_zoned IsApart
  get-parse_lines client out out' [] plain same = same
  get-parse_lines client out out' (line ∷ rest) plain same =
      elim (Bool-cases (names_zoned parse_addr line)) [
        | inl zoned ↦
            let (a, info, made, apart) = zoned_entry line zoned in
            rw (without_zoned, zoned, parse_lines, made)
              (get-parse_lines client (store a info out) out' rest plain (
                rw
                  (
                    Dict.get-put addr_discrete a client info out,
                    if_neg (addr_discrete a client) (apart client plain),
                  )
                  same))
        | inr other ↦ elim (Option-cases (hosts_entry parse_addr parse_mac line)) [
          | inl nothing ↦
              rw (without_zoned, other, parse_lines, nothing)
                (get-parse_lines client out out' rest plain same)
          | inr ((a, info), made) ↦
              rw (without_zoned, other, parse_lines, made)
                (get-parse_lines client (store a info out) (store a info out') rest plain (
                  rw
                    (
                      Dict.get-put addr_discrete a client info out,
                      Dict.get-put addr_discrete a client info out',
                      same,
                    )
                    refl))
        ]
      ]

  -- The lines of a hosts file that name an address with a zone, as fe80::1%eth0, are as if they were
  -- not there: for every client address the file's table holds what it would hold without them, even
  -- for the client that comes with this very address and zone, since the zone is dropped there and
  -- not here.
  pub hosts_zoned :
      (lines : List Text) (ip : Text) (client : Addr)
      → client_addr parse_addr ip ≡ some client
      → Dict.get addr_discrete client (parse_as parse_addr parse_mac hosts lines)
        ≡ Dict.get addr_discrete client
            (parse_as parse_addr parse_mac hosts (without_zoned parse_addr lines))
  unfolding parse_as
  hosts_zoned lines ip client c =
      get-parse_lines client [] [] lines (client_addr-IsPlain parse_addr ip client c) refl
