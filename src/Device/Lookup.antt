-- ===== src/Device/Lookup.antt =====
-- deviceDB.lookup and deviceID. The hash, the parser and the printer of addresses are parameters;
-- what other goroutines do while a query is held is a list of discovery events.
use coredns_nextdns.Prelude.{
  ℕ, zero, suc, ◌+◌, ◌-◌, ◌/◌, ◌%◌, List, [], ◌∷◌, ◌++◌, Bool, Option, none, some, length, take,
  leb, ltb, if◌then◌else◌,
}
use coredns_nextdns.Prelude.Text.{Text, codes, is_empty}
use coredns_nextdns.Prelude.Dict
use coredns_nextdns.Prelude.Dict.{Dict}
use coredns_nextdns.Addr.{Addr, v4, v6, addr_discrete, client_addr}
use coredns_nextdns.Discovery.{Discoverer, Event, reply, hold_on, HoldEnd, ask, run, hold}
use coredns_nextdns.Device.{
  HardwareAddr, ClientInfo, IdMode, id_auto, id_ip, id_mac, id_none, DeviceInfo, DeviceDb,
}
use coredns_nextdns.Device.Name.{normalize_name}
use coredns_nextdns.Device.ShortId.{short_id}

-- The `n` low bytes of a number, most significant first.
unfoldable pub big_endian : ℕ → ℕ → Text
big_endian zero x = []
big_endian (suc n) x = big_endian n (x / 256) ++ (x % 256) ∷ []

-- Addr.AsSlice: 4 or 16 bytes
unfoldable pub as_slice : Addr → Text
as_slice (v4 bits) = big_endian 4 bits
as_slice (v6 bits zone) = big_endian 16 bits

-- A byte as two lower-case hexadecimal digits.
hex_digit : ℕ → ℕ
hex_digit d = if ltb d 10 then b'0' + d else b'a' + (d - 10)

-- HardwareAddr.String: the bytes in hexadecimal with colons between them
unfoldable pub mac_text : HardwareAddr → Text
unfolding hex_digit
mac_text [] = []
mac_text (b ∷ []) = hex_digit (b / 16) ∷ hex_digit (b % 16) ∷ []
mac_text (b ∷ c ∷ mac) = hex_digit (b / 16) ∷ hex_digit (b % 16) ∷ b':' ∷ mac_text (c ∷ mac)

-- deviceID: `mac` is empty if none is known
unfoldable pub device_id : (Text → ℕ) → IdMode → Text → Addr → HardwareAddr → Text
device_id sum64 id_none profile addr mac = []
device_id sum64 id_ip profile addr mac = short_id sum64 profile (as_slice addr)
device_id sum64 id_mac profile addr mac = if is_empty mac then [] else short_id sum64 profile mac
device_id sum64 id_auto profile addr mac =
    if is_empty mac then short_id sum64 profile (as_slice addr) else short_id sum64 profile mac

-- What is on record for an address: the learned entry, with the MAC remembered for the address
-- where the entry has none.
unfoldable pub known_device : DeviceDb → Addr → DeviceInfo
known_device d addr =
    let info : DeviceInfo = (elim (Dict.get addr_discrete addr d.learned) [
      | none ↦ record { name = []; mac = [] }
      | some i ↦ i
    ]) in
    if is_empty info.mac
    then record info {
      mac = (elim (Dict.get addr_discrete addr d.bindings) [ none ↦ [] | some m ↦ m ]);
    }
    else info

-- The configured name, if there is one, over the learned one.
unfoldable pub local_name : DeviceDb → Addr → Text
local_name d addr = elim (Dict.get addr_discrete addr d.static) [
  | some name ↦ name
  | none ↦ (known_device d addr).name
]

-- Whether and how a query asks discovery: may it be held, the clock, what happens during a hold
-- and how the hold ends.
pub record Hold : Type 0 where
  pub may_hold : Bool
  pub now : ℕ
  pub meanwhile : List Event
  pub ends : HoldEnd

-- discoverer.name; `none` is a nil discoverer
unfoldable pub discover : Hold → Addr → Option Discoverer → Text × Option Discoverer
discover h addr none = ([], none)
discover h addr (some d) =
    let (d', got) = ask h.may_hold h.now addr d in
    elim got [
      | reply name ↦ (name, some d')
      | hold_on done ↦ let d'' = run d' h.meanwhile in (hold h.ends addr d'', some d'')
    ]

-- The name before it is normalised, and the database after the question.
unfoldable pub raw_name : Hold → DeviceDb → Addr → Text × DeviceDb
raw_name h d addr =
    let name = local_name d addr in
    if is_empty name
    then (let asked = discover h addr d.discovery in (asked.0, record d { discovery = asked.1 }))
    else (name, d)

abbrev pub no_client : ClientInfo
no_client = record { id = []; ip = []; name = []; model = [] }

-- The model: the configured one, or the vendor's part of a full MAC.
unfoldable pub device_model : DeviceDb → HardwareAddr → Text
device_model d mac =
    if is_empty d.model
    then (if leb 6 (length mac) then codes "mac:" ++ take 8 (mac_text mac) else [])
    else d.model

module _ (sum64 : Text → ℕ) (parse_addr : Text → Option Addr) (addr_text : Addr → Text) where
  unfoldable pub lookup : Hold → DeviceDb → Text → Text → ClientInfo × DeviceDb
  lookup h d ip profile = elim (client_addr parse_addr ip) [
    | none ↦ (no_client, d)
    | some addr ↦
        let mac = (known_device d addr).mac in
        let named = raw_name h d addr in
        (
          record {
            id = device_id sum64 d.mode profile addr mac;
            ip = if d.send_ip then addr_text addr else [];
            name = normalize_name named.0;
            model = device_model d mac;
          },
          named.1,
        )
  ]
