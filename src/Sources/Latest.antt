-- ===== src/Sources/Latest.antt =====
-- The parsers that take each line by itself: the last line that names an address counts.
use coredns_nextdns.Prelude.{
  inr, ite, inl, ◌≡◌, refl, List, [], ◌∷◌, Option, none, some, arith, Option-cases,
}
use coredns_nextdns.Prelude.Text.{Text}
use coredns_nextdns.Prelude.Dict
use coredns_nextdns.Addr.{Addr, addr_discrete}
use coredns_nextdns.Device.{HardwareAddr, DeviceInfo}
use coredns_nextdns.Sources.{Table, store, parse_lines}

-- What the last line that makes an entry for `j` says of it; `found` is what was known before.
unfoldable pub last_entry :
    (Text → Option (Addr × DeviceInfo)) → Addr → Option DeviceInfo → List Text → Option DeviceInfo
last_entry entry j found [] = found
last_entry entry j found (line ∷ rest) = elim (last_entry entry j none rest) [
  | some i ↦ some i
  | none ↦ elim (entry line) [ none ↦ found | some (a, i) ↦ ite (addr_discrete a j) (some i) found ]
]

module _ (parse_addr : Text → Option Addr) (parse_mac : Text → Option HardwareAddr) where
  last_entry_from :
      (entry : Text → Option (Addr × DeviceInfo)) (j : Addr) (found : Option DeviceInfo)
      (lines : List Text)
      → last_entry entry j found lines
        ≡ (elim (last_entry entry j none lines) [ some i ↦ some i | none ↦ found ])
  unfolding last_entry
  last_entry_from entry j found [] = refl
  last_entry_from entry j found (line ∷ rest) = ground arith

  parse_lines-last_from :
      (entry : Text → Option (Addr × DeviceInfo)) (j : Addr) (out : Table) (lines : List Text)
      → Dict.get addr_discrete j (parse_lines parse_addr parse_mac entry out lines)
        ≡ last_entry entry j (Dict.get addr_discrete j out) lines
  unfolding parse_lines last_entry
  parse_lines-last_from entry j out [] = refl
  parse_lines-last_from entry j out (line ∷ rest) = elim (Option-cases (entry line)) [
    | inl e ↦ ground (
      arith,
      e,
      parse_lines-last_from entry j out rest,
      last_entry_from entry j (Dict.get addr_discrete j out) rest,
    )
    | inr ((a, i), e) ↦ ground (
      arith,
      e,
      parse_lines-last_from entry j (store a i out) rest,
      Dict.get-put addr_discrete a j i out,
      last_entry_from entry j (Dict.get addr_discrete j (store a i out)) rest,
    )
  ]

  -- A hosts file, a dnsmasq lease file and the ARP table say of an address what the last line that
  -- makes an entry for it says, and nothing if there is none: lines that make no entry, and lines
  -- about other addresses, change nothing.
  pub get-parse_lines :
      (entry : Text → Option (Addr × DeviceInfo)) (j : Addr) (lines : List Text)
      → Dict.get addr_discrete j (parse_lines parse_addr parse_mac entry [] lines)
        ≡ last_entry entry j none lines
  unfolding Dict.get
  get-parse_lines entry j lines = parse_lines-last_from entry j [] lines
