-- ===== src/Tests/Files.antt =====
-- Runs of the parsers of device files.
use coredns_nextdns.Prelude.{
  if◌then◌else◌, ◌+◌, ◌^◌, ◌*◌, ◌≡◌, inr, refl, List, [], ◌∷◌, ◌++◌, true, false, not, ◌||◌, Option,
  none, some, All, ℕ_discrete,
}
use coredns_nextdns.Prelude.Text.{Text, codes, text_discrete, is_empty}
use coredns_nextdns.Prelude.Fields.{
  fields, trim_space, has_prefix, has_suffix, trim_prefix, trim_suffix, before_byte, join,
  scan_lines, drop_cr,
}
use coredns_nextdns.Prelude.Dict
use coredns_nextdns.Addr.{Addr, v6, unmap, with_zone, is_4in6, client_addr, addr_discrete}
use coredns_nextdns.Device.{HardwareAddr, DeviceInfo, DeviceDb, id_auto}
use coredns_nextdns.Sources.{
  unknown, no_lease, clean, is_lease, value_of, unquote, open_lease, lease_line, close_lease,
  dhcpd_step, dhcpd_lines, parse_as, hosts, dhcpd, Opened, contents,
}
use coredns_nextdns.Sources.Dhcpd.{Leased, Opens, IsInside, Closes, lease_addr, said}
use coredns_nextdns.Sources.Dhcpd.Sound.{get-dhcpd_lines}
use coredns_nextdns.Sources.Learned.{refresh_sources, get-refresh_sources}
use coredns_nextdns.Config.{SourceSettings}
use coredns_nextdns.Sources.Zones.{is_zoned, names_zoned, without_zoned, hosts_zoned}
use coredns_nextdns.Tests.Data.{alice, parse_addr}

abbrev parse_mac : Text → Option HardwareAddr
parse_mac t = none

abbrev head : Text
head = codes "lease 192.0.2.7 { # now"

abbrev body : List Text
body = codes "  hardware ethernet bad;" ∷ codes "  client-hostname \"phone\";" ∷ []

abbrev close : Text
close = codes "}"

abbrev lease : List Text
lease = head ∷ (body ++ (close ∷ []))

abbrev phone : DeviceInfo
phone = record { name = codes "phone"; mac = [] }

program : Unit {0}
unfolding fields trim_space has_prefix has_suffix trim_prefix trim_suffix before_byte Dict.get
    Dict.put text_discrete ℕ_discrete addr_discrete unmap clean is_lease value_of unquote open_lease
    lease_line close_lease dhcpd_step dhcpd_lines lease_addr said
program = tt

leased :
    Dict.get addr_discrete alice (dhcpd_lines parse_addr parse_mac no_lease lease).out ≡ some phone
unfolding program
leased = refl

get-dhcpd_lines_example : Leased parse_addr parse_mac lease alice phone
get-dhcpd_lines_example = get-dhcpd_lines parse_addr parse_mac lease alice phone leased

opens : Opens parse_addr parse_mac head alice
unfolding program
opens = (refl, refl)

inside : All (IsInside parse_addr parse_mac) body
unfolding program
inside = (inr (refl, refl), (inr (refl, refl), tt))

closes : Closes parse_addr parse_mac close
unfolding program
closes = (refl, refl)

informs :
    (let i = said parse_addr parse_mac unknown body in
      not (is_empty i.name) || not (is_empty i.mac))
    ≡ true
unfolding program
informs = refl

abbrev file : Text
file = join 10 (lease ++ lease)

abbrev disk : Text → Opened
disk path = contents file

abbrev sources : SourceSettings
sources = record {
  files = (dhcpd, codes "/leases") ∷ [];
  use_arp = false;
  arp_path = [];
  reload = 1;
  reload_on = false;
}

abbrev database : DeviceDb
database = record {
  mode = id_auto;
  model = [];
  send_ip = true;
  max_bindings = 4;
  static = [];
  discovery = none;
  learned = (alice, record { name = codes "old"; mac = [] }) ∷ [];
  bindings = [];
}

scanned : scan_lines file ≡ (lease ++ (head ∷ (body ++ (close ∷ []))), false)
unfolding join scan_lines drop_cr
scanned = refl

get-refresh_sources_example :
    Dict.get addr_discrete alice
      (refresh_sources parse_addr parse_mac disk (λ a. 0) (λ m. m) sources database).learned
    ≡ some (said parse_addr parse_mac unknown body)
get-refresh_sources_example =
    get-refresh_sources parse_addr parse_mac disk (λ a. 0) (λ m. m) sources database
      (codes "/leases") file lease head body close alice refl refl refl scanned opens inside closes
      informs

-- fe80::1%eth0 for a field that begins with f, and alice's address for any other.
abbrev parse_zoned : Text → Option Addr
parse_zoned t =
    if has_prefix (codes "f") t then some (v6 (0xFE80 * 2 ^ 112 + 1) (codes "eth0")) else some alice

abbrev zoned : Text
zoned = codes "fe80::1%eth0"

zoned_client : client_addr parse_zoned zoned ≡ some (v6 (0xFE80 * 2 ^ 112 + 1) [])
unfolding client_addr unmap with_zone is_4in6 has_prefix
zoned_client = refl

-- A hosts file with a plain line before a zoned one.
abbrev hosts_lines : List Text
hosts_lines = codes "192.0.2.7 phone" ∷ codes "fe80::1%eth0 printer" ∷ []

hosts_zoned_example :
    Dict.get addr_discrete
      (v6 (0xFE80 * 2 ^ 112 + 1) [])
      (parse_as parse_zoned parse_mac hosts hosts_lines)
    ≡ Dict.get addr_discrete
        (v6 (0xFE80 * 2 ^ 112 + 1) [])
        (parse_as parse_zoned parse_mac hosts (without_zoned parse_zoned hosts_lines))
hosts_zoned_example =
    hosts_zoned parse_zoned parse_mac hosts_lines zoned (v6 (0xFE80 * 2 ^ 112 + 1) []) zoned_client

-- The line that is left out is the zoned one.
without_zoned_lines : without_zoned parse_zoned hosts_lines ≡ codes "192.0.2.7 phone" ∷ []
unfolding program without_zoned names_zoned is_zoned is_4in6
without_zoned_lines = refl
