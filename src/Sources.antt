-- ===== src/Sources.antt =====
-- sources.go: the on-disk sources of device names. The parsers of addresses and MACs
-- (netip.ParseAddr, net.ParseMAC) are parameters. A parser reads the lines of a file and adds to a
-- table; what opening a file gives is an argument.
pub mod Latest
pub mod Dhcpd
pub mod Zones
pub mod Learned
use coredns_nextdns.Prelude.{
  ℕ, zero, suc, ◌+◌, ◌-◌, ◌*◌, ◌^◌, List, [], ◌∷◌, ◌++◌, Bool, true, false, not, ◌&&◌, ◌||◌, Option,
  none, some, leb, ltb, ◌==◌, if◌then◌else◌, drop, length, take,
}
use coredns_nextdns.Prelude.Text.{Text, codes, text_eq, is_empty}
use coredns_nextdns.Prelude.Fields.{
  fields, trim_space, has_prefix, has_suffix, trim_prefix, trim_suffix, before_byte, scan_lines,
}
use coredns_nextdns.Prelude.Dict
use coredns_nextdns.Prelude.Dict.{Dict}
use coredns_nextdns.Addr.{Addr, v4, addr_discrete, unmap}
use coredns_nextdns.Device.{HardwareAddr, DeviceInfo}
use coredns_nextdns.Device.Refresh.{Reading}

abbrev pub Table : Type 0
Table = Dict Addr DeviceInfo

-- supportedFormats
pub data Format : Type 0 where
  hosts dnsmasq dhcpd : Format

-- The format of newDeviceFile; `none` is its error
unfoldable pub parse_format : Text → Option Format
parse_format s = elim (text_eq s (codes "hosts")) [
  | true ↦ some hosts
  | false ↦ elim (text_eq s (codes "dnsmasq")) [
    | true ↦ some dnsmasq
    | false ↦ elim (text_eq s (codes "dhcpd")) [ true ↦ some dhcpd | false ↦ none ]
  ]
]

abbrev pub store : Addr → DeviceInfo → Table → Table
store addr info out = Dict.put addr_discrete addr info out

-- s[1 : len(s)-1]
abbrev pub inner : Text → Text
inner s = take (length s - 2) (drop 1 s)

unfoldable pub unquote : Text → Text
unquote s =
    let s = trim_space s in
    if leb 2 (length s) && (has_prefix (b'"' ∷ []) s && has_suffix (b'"' ∷ []) s)
    then inner s
    else s

-- A hexadecimal digit's value; 16 for any other byte.
unfoldable pub hex_value : ℕ → ℕ
hex_value c =
    if leb b'0' c && leb c b'9'
    then c - b'0'
    else if leb b'a' c && leb c b'f'
    then c - b'a' + 10
    else if leb b'A' c && leb c b'F'
    then c - b'A' + 10
    else 16

unfoldable pub hex_from : ℕ → Text → Option ℕ
hex_from n [] = some n
hex_from n (c ∷ t) = elim (leb (hex_value c) 15) [
  | true ↦ hex_from (n * 16 + hex_value c) t
  | false ↦ none
]

-- strconv.ParseUint(s, 16, 32); `none` is its error
unfoldable pub parse_hex32 : Text → Option ℕ
parse_hex32 s = elim (if is_empty s then none else hex_from 0 s) [
  | none ↦ none
  | some n ↦ if ltb n (2 ^ 32) then some n else none
]

unfoldable pub is_zero_mac : HardwareAddr → Bool
is_zero_mac [] = true
is_zero_mac (b ∷ mac) = if b == 0 then is_zero_mac mac else false

-- What the parser of dhcpd leases carries from line to line; `cur` is read only inside a lease.
pub record Lease : Type 0 where
  pub cur : Addr
  pub info : DeviceInfo
  pub in_tag : Bool
  pub out : Table

abbrev pub unknown : DeviceInfo
unknown = record { name = []; mac = [] }

abbrev pub no_lease : Lease
no_lease = record { cur = v4 0; info = unknown; in_tag = false; out = [] }

-- The line as the parser of dhcpd leases sees it: no comment, no white space around it.
unfoldable pub clean : Text → Text
clean line = trim_space (before_byte b'#' (trim_space line))

unfoldable pub is_lease : Text → Bool
is_lease line = has_prefix (codes "lease ") line && has_suffix (codes "{") line

-- strings.TrimSuffix(strings.TrimPrefix(line, key), ";")
unfoldable pub value_of : Text → Text → Text
value_of key line = trim_suffix (codes ";") (trim_prefix key line)

module _ (parse_addr : Text → Option Addr) (parse_mac : Text → Option HardwareAddr) where
  -- The entry that a line of a hosts file makes.
  unfoldable pub hosts_entry : Text → Option (Addr × DeviceInfo)
  hosts_entry line = elim (fields (before_byte b'#' line)) [
    | ip ∷ name ∷ aliases ↦ elim (parse_addr ip) [
      | some addr ↦ some (unmap addr, record unknown { name = name })
      | none ↦ none
    ]
    | _ ↦ none
  ]

  -- The entry that a line of a dnsmasq lease file makes.
  unfoldable pub dnsmasq_entry : Text → Option (Addr × DeviceInfo)
  dnsmasq_entry line = elim (fields line) [
    | expiry ∷ mac ∷ ip ∷ name ∷ rest ↦ elim (parse_addr ip) [
      | some addr ↦ some (
        unmap addr,
        record {
          name = if text_eq name (codes "*") then [] else name;
          mac = elim (parse_mac mac) [ some m ↦ m | none ↦ [] ];
        },
      )
      | none ↦ none
    ]
    | _ ↦ none
  ]

  -- The entry that a line of the ARP table makes: not for an incomplete one or a MAC of zeros.
  unfoldable pub arp_entry : Text → Option (Addr × DeviceInfo)
  arp_entry line = elim (fields line) [
    | ip ∷ hw ∷ flags ∷ mac ∷ rest ↦ elim (parse_hex32 (trim_prefix (codes "0x") flags)) [
      | none ↦ none
      | some zero ↦ none
      | some (suc n) ↦ elim (parse_addr ip) [
        | none ↦ none
        | some addr ↦ elim (parse_mac mac) [
          | none ↦ none
          | some m ↦ if is_zero_mac m then none else some (unmap addr, record unknown { mac = m })
        ]
      ]
    ]
    | _ ↦ none
  ]

  -- The loop of the parsers that take each line by itself.
  unfoldable pub parse_lines : (Text → Option (Addr × DeviceInfo)) → Table → List Text → Table
  parse_lines entry out [] = out
  parse_lines entry out (line ∷ rest) = elim (entry line) [
    | none ↦ parse_lines entry out rest
    | some (addr, info) ↦ parse_lines entry (store addr info out) rest
  ]

  -- The address of a `lease` line; a line without one is passed over.
  unfoldable pub open_lease : Text → Lease → Lease
  open_lease line s = elim (fields line) [
    | tag ∷ ip ∷ rest ↦ elim (parse_addr ip) [
      | none ↦ record s { in_tag = false }
      | some addr ↦ record s { cur = unmap addr; info = unknown; in_tag = true }
    ]
    | _ ↦ s
  ]

  -- A line within a lease.
  unfoldable pub lease_line : Text → DeviceInfo → DeviceInfo
  lease_line line info =
      if has_prefix (codes "client-hostname ") line
      then record info { name = unquote (value_of (codes "client-hostname ") line) }
      else if has_prefix (codes "hostname ") line
      then (if is_empty info.name
          then record info { name = unquote (value_of (codes "hostname ") line) }
          else info)
      else if has_prefix (codes "hardware ethernet ") line
      then (elim (parse_mac (trim_space (value_of (codes "hardware ethernet ") line))) [
        | some m ↦ record info { mac = m }
        | none ↦ info
      ])
      else info

  -- The end of a lease: one that says nothing of the device is left out.
  unfoldable pub close_lease : Lease → Lease
  close_lease s =
      if not (is_empty s.info.name) || not (is_empty s.info.mac)
      then record s { in_tag = false; out = store s.cur s.info s.out }
      else record s { in_tag = false }

  unfoldable pub dhcpd_step : Text → Lease → Lease
  dhcpd_step line s =
      if is_lease line
      then open_lease line s
      else if not s.in_tag
      then s
      else if text_eq line (codes "}")
      then close_lease s
      else record s { info = lease_line line s.info }

  unfoldable pub dhcpd_lines : Lease → List Text → Lease
  dhcpd_lines s [] = s
  dhcpd_lines s (line ∷ rest) = dhcpd_lines (dhcpd_step (clean line) s) rest

  -- The table of a file in a format, from its lines.
  unfoldable pub parse_as : Format → List Text → Table
  parse_as hosts lines = parse_lines hosts_entry [] lines
  parse_as dnsmasq lines = parse_lines dnsmasq_entry [] lines
  parse_as dhcpd lines = (dhcpd_lines no_lease lines).out

-- What os.Open gives: an error, or the file's bytes.
pub data Opened : Type 0 where
  refused : Text → Opened
  contents : Text → Opened

-- s.Err(), as the text of the error; empty for none
abbrev pub scan_error : Bool → Text
scan_error long = if long then codes "bufio.Scanner: token too long" else []

module _ (parse_addr : Text → Option Addr) (parse_mac : Text → Option HardwareAddr) where
  -- deviceFile.read
  unfoldable pub read : Format → Opened → Reading
  read format (refused e) = record { error = e; entries = [] }
  read format (contents t) =
      let (lines, long) = scan_lines t in
      record { error = scan_error long; entries = parse_as parse_addr parse_mac format lines }

  -- readARP: the first line is a header
  unfoldable pub read_arp : Opened → Reading
  read_arp (refused e) = record { error = e; entries = [] }
  read_arp (contents t) =
      let (lines, long) = scan_lines t in
      record {
        error = scan_error long;
        entries =
            parse_lines parse_addr parse_mac (arp_entry parse_addr parse_mac) [] (drop 1 lines);
      }
