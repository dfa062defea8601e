-- ===== src/Dns.antt =====
-- The parts of miekg/dns messages and of coredns request.Request that the plugin reads and writes.
pub mod Rcode
use coredns_nextdns.Prelude.{ℕ, ◌*◌, ◌^◌, Bool, List}
use coredns_nextdns.Prelude.Text.{Text}

-- time.Second; instants and durations are counted in nanoseconds.
abbrev pub second : ℕ
second = 10 ^ 9

-- Of dns: TypePTR, TypeOPT.
abbrev pub type_ptr : ℕ
type_ptr = 12

abbrev pub type_opt : ℕ
type_opt = 41

pub record Question : Type 0 where
  pub name : Text
  pub qtype : ℕ
  pub qclass : ℕ

pub record Rr : Type 0 where
  pub rrtype : ℕ
  pub ttl : ℕ
  pub rdata : Text

pub record Msg : Type 0 where
  pub id : ℕ
  pub rcode : ℕ
  pub truncated : Bool
  pub checking_disabled : Bool
  pub question : List Question
  pub answer : List Rr
  pub ns : List Rr
  pub extra : List Rr

-- A query with what request.Request reports of it: Name (lower case, fully qualified), QType,
-- QClass, Do and IP.
pub record Request : Type 0 where
  pub req : Msg
  pub name : Text
  pub qtype : ℕ
  pub qclass : ℕ
  pub dnssec_ok : Bool
  pub ip : Text
