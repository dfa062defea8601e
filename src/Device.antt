-- ===== src/Device.antt =====
-- device.go: how a client is named and identified towards NextDNS. The tables are here; the
-- children hold the parts of an identity, the lookup of a client and the refresh of the tables.
pub mod Utf8
pub mod Name
pub mod ShortId
pub mod Lookup
pub mod Refresh
use coredns_nextdns.Prelude.{ℕ, Bool, true, false, List, Option, none, some}
use coredns_nextdns.Prelude.Text.{Text, codes, text_eq}
use coredns_nextdns.Prelude.Dict.{Dict}
use coredns_nextdns.Addr.{Addr}
use coredns_nextdns.Discovery.{Discoverer}

-- net.HardwareAddr, as its bytes; empty if no MAC is known.
abbrev pub HardwareAddr : Type 0
HardwareAddr = List ℕ

pub record ClientInfo : Type 0 where
  pub id : Text
  pub ip : Text
  pub name : Text
  pub model : Text

pub data IdMode : Type 0 where
  id_auto id_ip id_mac id_none : IdMode

-- parseIDMode; `none` is its error
unfoldable pub parse_id_mode : Text → Option IdMode
parse_id_mode s = elim (text_eq s (codes "auto")) [
  | true ↦ some id_auto
  | false ↦ elim (text_eq s (codes "ip")) [
    | true ↦ some id_ip
    | false ↦ elim (text_eq s (codes "mac")) [
      | true ↦ some id_mac
      | false ↦ elim (text_eq s (codes "none")) [ true ↦ some id_none | false ↦ none ]
    ]
  ]
]

pub record DeviceInfo : Type 0 where
  pub name : Text
  pub mac : HardwareAddr

-- deviceDB, without the parts that start and stop its ticker
pub record DeviceDb : Type 0 where
  pub mode : IdMode
  pub model : Text
  pub send_ip : Bool
  pub max_bindings : ℕ
  pub static : Dict Addr Text
  pub discovery : Option Discoverer
  pub learned : Dict Addr DeviceInfo
  pub bindings : Dict Addr HardwareAddr
