-- ===== src/Cache.antt =====
-- cache.go: the profile-aware response cache over the store. The hash (xxhash.Sum64) and the
-- lifetime of a reply (response.Typify with dnsutil.MinimalTTL) are parameters, `now` is the clock
-- and `conf` is the client's confChangedAt. A message is a value, so Copy is the identity.
pub mod Key
pub mod Fresh
pub mod Match
pub mod Hits
pub mod Served
use Prim.Native.Nat.{bit_or}
use coredns_nextdns.Prelude.{
  ℕ, ◌+◌, ◌-◌, ◌*◌, ◌/◌, ◌%◌, ◌^◌, List, [], ◌∷◌, ◌++◌, map, Bool, true, false, ◌&&◌, ◌||◌, Option,
  none, some, leb, ltb, ◌==◌, if◌then◌else◌, bool_eq,
}
use coredns_nextdns.Prelude.Text.{Text, text_eq}
use coredns_nextdns.Dns.{Question, Rr, Msg, Request, second, type_ptr, type_opt}
use coredns_nextdns.Dns.Rcode
use coredns_nextdns.Store
use coredns_nextdns.Store.{Store}

pub record CacheEntry : Type 0 where
  pub stored : ℕ
  pub ttl : ℕ
  pub msg : Msg
  pub profile : Text
  pub qname : Text
  pub qtype : ℕ
  pub qclass : ℕ
  pub dnssec_ok : Bool
  pub cd : Bool

pub record MsgCache : Type 0 where
  pub c : Store CacheEntry
  pub min_ttl : ℕ
  pub max_ttl : ℕ

-- defaultCacheCapacity, defaultCacheMinTTL, defaultCacheMaxTTL
abbrev pub default_cache_capacity : ℕ
default_cache_capacity = 10000

abbrev pub default_cache_min_ttl : ℕ
default_cache_min_ttl = 5 * second

abbrev pub default_cache_max_ttl : ℕ
default_cache_max_ttl = 3600 * second

unfoldable pub new_msg_cache : ℕ → MsgCache
new_msg_cache capacity =
    let capacity = if leb capacity 0 then default_cache_capacity else capacity in
    record {
      c = Store.new_store capacity;
      min_ttl = default_cache_min_ttl;
      max_ttl = default_cache_max_ttl;
    }

unfoldable pub matches : CacheEntry → Text → Request → Bool
matches e profile state =
    text_eq e.profile profile
    && (text_eq e.qname state.name
        && (e.qtype == state.qtype
            && (e.qclass == state.qclass
                && (bool_eq e.dnssec_ok state.dnssec_ok
                    && bool_eq e.cd state.req.checking_disabled))))

-- binary.BigEndian.AppendUint16
unfoldable pub big_endian16 : ℕ → Text
big_endian16 x = (x / 256 % 256) ∷ (x % 256) ∷ []

unfoldable pub flag_bits : Bool → Bool → ℕ
flag_bits dnssec_ok cd =
    let flags : ℕ = 0 in
    let flags = if dnssec_ok then bit_or flags 1 else flags in if cd then bit_or flags 2 else flags

-- The bytes that cacheKey hashes.
unfoldable pub key_bytes : Text → Request → Text
key_bytes profile state =
    profile
    ++ (0
        ∷ (state.name
            ++ (big_endian16 state.qtype
                ++ (big_endian16 state.qclass
                    ++ flag_bits state.dnssec_ok state.req.checking_disabled ∷ []))))

unfoldable pub set_ttl_rr : ℕ → Rr → Rr
set_ttl_rr ttl rr = if rr.rrtype == type_opt then rr else record rr { ttl = ttl }

-- setTTL
unfoldable pub set_ttl : Msg → ℕ → Msg
unfolding set_ttl_rr
set_ttl m ttl = record m {
  answer = map (set_ttl_rr ttl) m.answer;
  ns = map (set_ttl_rr ttl) m.ns;
  extra = map (set_ttl_rr ttl) m.extra;
}

-- m.Question = []dns.Question{state.Req.Question[0]}, if there is a question
unfoldable pub echo_question : Request → Msg → Msg
echo_question state m = elim state.req.question [ [] ↦ m | q ∷ _ ↦ record m { question = q ∷ [] } ]

-- The outcome of a lookup; a collision is counted, and is a miss for the caller.
pub data Found : Type 0 where
  hit : Msg → Found
  absent collided : Found

-- (remaining + time.Second - 1) / time.Second, as a uint32
unfoldable pub ttl_seconds : ℕ → ℕ
ttl_seconds remaining = (remaining + second - 1) / second % 2 ^ 32

-- The rest of get, for an entry that was found: `e.ttl - now.Sub(e.stored)` is positive exactly if
-- the truncated difference is.
unfoldable pub get_entry : (Text → ℕ) → ℕ → Text → Request → CacheEntry → Found
get_entry conf now profile state e =
    let remaining = e.stored + e.ttl - now in
    if matches e profile state
    then if ltb e.stored (conf profile)
      then absent
      else if leb remaining 0
      then absent
      else hit (echo_question state (set_ttl e.msg (ttl_seconds remaining)))
    else collided

-- The lifetime of an entry: at least minTTL, then at most maxTTL.
unfoldable pub clamp_ttl : ℕ → ℕ → ℕ → ℕ
clamp_ttl min_ttl max_ttl ttl =
    let ttl = if ltb ttl min_ttl then min_ttl else ttl in if ltb max_ttl ttl then max_ttl else ttl

unfoldable pub is_cacheable : Request → Msg → Bool
is_cacheable state m =
    if state.qtype == type_ptr || m.truncated
    then false
    else m.rcode == Rcode.success || m.rcode == Rcode.name_error

module _ (sum64 : Text → ℕ) (minimal_ttl : Msg → ℕ → ℕ) where
  unfoldable pub cache_key : Text → Request → ℕ
  cache_key profile state = sum64 (key_bytes profile state)

  unfoldable pub get : MsgCache → (Text → ℕ) → ℕ → Text → Request → Found
  get mc conf now profile state =
      if state.qtype == type_ptr then absent else elim (Store.get (cache_key profile state) mc.c) [
        | none ↦ absent
        | some e ↦ get_entry conf now profile state e
      ]

  unfoldable pub new_entry : MsgCache → ℕ → Text → Request → Msg → CacheEntry
  new_entry mc now profile state m = record {
    stored = now;
    ttl = clamp_ttl mc.min_ttl mc.max_ttl (minimal_ttl m now);
    msg = m;
    profile = profile;
    qname = state.name;
    qtype = state.qtype;
    qclass = state.qclass;
    dnssec_ok = state.dnssec_ok;
    cd = state.req.checking_disabled;
  }

  -- `choice` is the store's, should it have to evict.
  unfoldable pub put : ℕ → MsgCache → ℕ → Text → Request → Msg → MsgCache
  put choice mc now profile state m =
      if is_cacheable state m
      then record mc {
        c = Store.add choice (cache_key profile state) (new_entry mc now profile state m) mc.c;
      }
      else mc
