-- ===== src/Cache/Hits.antt =====
-- What a hit promises, against the replies that were stored, whatever the hash does.
use coredns_nextdns.Prelude.{
  ℕ, ◌+◌, ◌-◌, ◌≤◌, ◌<◌, ◌≡◌, ◌≢◌, inl, inr, refl, List, [], ◌∷◌, arith, All, Any, true, none, some,
  Bool-cases, subst, Any-weaken, All-Any,
}
use coredns_nextdns.Prelude.Text.{Text}
use coredns_nextdns.Dns.{Msg, Request, type_ptr}
use coredns_nextdns.Cache.{
  CacheEntry, MsgCache, hit, matches, set_ttl, echo_question, ttl_seconds, get_entry, clamp_ttl,
  is_cacheable, cache_key, get, put, new_entry,
}
use coredns_nextdns.Store
use coredns_nextdns.Store.Bounds.{IsValid, add-IsValid}
use coredns_nextdns.Store.History.{get-add-some}
use coredns_nextdns.Cache.Match.{SameQuestion, matches_iff}

-- One call of put: the clock, the arguments and the store's choice.
pub record Stored : Type 0 where
  pub choice : ℕ
  pub at : ℕ
  pub profile : Text
  pub request : Request
  pub reply : Msg

module _ (sum64 : Text → ℕ) (minimal_ttl : Msg → ℕ → ℕ) where
  unfoldable pub run : MsgCache → List Stored → MsgCache
  run mc [] = mc
  run mc (a ∷ rest) = run (put sum64 minimal_ttl a.choice mc a.at a.profile a.request a.reply) rest

  -- How long a stored reply lives under the limits of a cache.
  abbrev pub lifetime : MsgCache → Stored → ℕ
  lifetime mc a = clamp_ttl mc.min_ttl mc.max_ttl (minimal_ttl a.reply a.at)

  -- The stored reply `a` is one that a query may be served at `now`, as the message `m`.
  pub record Serves (mc : MsgCache) (conf : Text → ℕ) (now : ℕ) (p : Text) (q : Request) (m : Msg)
      (a : Stored) : Type 0 where
    pub cacheable : is_cacheable a.request a.reply ≡ true
    pub profile : a.profile ≡ p
    pub question : SameQuestion a.request q
    pub current : conf p ≤ a.at
    pub alive : now < a.at + lifetime mc a
    pub reply : m ≡ echo_question q (set_ttl a.reply (ttl_seconds (a.at + lifetime mc a - now)))

  -- Every entry that can be found satisfies `P`; the limits are those of `mc`.
  record Sourced (P : CacheEntry → Type 0) (mc : MsgCache) (size : ℕ) (c : MsgCache) : Type 0 where
    min_ttl : c.min_ttl ≡ mc.min_ttl
    max_ttl : c.max_ttl ≡ mc.max_ttl
    valid : IsValid size c.c
    entries : (key : ℕ) (e : CacheEntry) → Store.get key c.c ≡ some e → P e

  -- The entry that a call of put makes, if it stores at all.
  abbrev entry_of : MsgCache → Stored → CacheEntry
  entry_of mc a = new_entry sum64 minimal_ttl mc a.at a.profile a.request a.reply

  entry_of-eq :
      (c mc : MsgCache) (a : Stored)
      → c.min_ttl ≡ mc.min_ttl
      → c.max_ttl ≡ mc.max_ttl
      → entry_of c a ≡ entry_of mc a
  unfolding new_entry
  entry_of-eq c mc a h k = cc

  put-Sourced :
      (P : CacheEntry → Type 0) (mc : MsgCache) (size : ℕ) (c : MsgCache) (a : Stored)
      → (is_cacheable a.request a.reply ≡ true → P (entry_of mc a))
      → Sourced P mc size c
      → Sourced P mc size (put sum64 minimal_ttl a.choice c a.at a.profile a.request a.reply)
  unfolding put
  put-Sourced P mc size c a new h = elim (Bool-cases (is_cacheable a.request a.reply)) [
    | inr refused ↦ rw (refused, put) h
    | inl stores ↦
        let key = cache_key sum64 minimal_ttl a.profile a.request in
        rw (stores, put)
          (record {
            min_ttl = h.min_ttl;
            max_ttl = h.max_ttl;
            valid = add-IsValid size a.choice key (entry_of c a) c.c h.valid;
            entries = λ j e found.
                elim (get-add-some size a.choice key (entry_of c a) c.c h.valid j e found) [
                  | inl (_, made) ↦
                      subst P made (rw (entry_of-eq c mc a h.min_ttl h.max_ttl) (new stores))
                  | inr old ↦ h.entries j e old
                ];
          })
  ]

  run-Sourced :
      (P : CacheEntry → Type 0) (mc : MsgCache) (size : ℕ) (c : MsgCache) (calls : List Stored)
      → All (λ a. is_cacheable a.request a.reply ≡ true → P (entry_of mc a)) calls
      → Sourced P mc size c
      → Sourced P mc size (run c calls)
  unfolding run
  run-Sourced P mc size c [] new h = h
  run-Sourced P mc size c (a ∷ rest) new h =
      run-Sourced P mc size (put sum64 minimal_ttl a.choice c a.at a.profile a.request a.reply) rest
        new.1 (put-Sourced P mc size c a new.0 h)

  -- The entry `e` was made by the call `a`.
  abbrev MadeBy : MsgCache → CacheEntry → Stored → Type 0
  MadeBy mc e a = (is_cacheable a.request a.reply ≡ true) × (e ≡ entry_of mc a)

  get-hit :
      (mc c : MsgCache) (conf : Text → ℕ) (now : ℕ) (p : Text) (q : Request) (m : Msg)
      → get sum64 minimal_ttl c conf now p q ≡ hit m
      → (e : CacheEntry) × (Store.get (cache_key sum64 minimal_ttl p q) c.c ≡ some e)
        × (get_entry conf now p q e ≡ hit m)
        × (q.qtype ≢ type_ptr)
  unfolding get
  get-hit mc c conf now p q m h = ground arith

  get_entry-hit :
      (conf : Text → ℕ) (now : ℕ) (p : Text) (q : Request) (m : Msg) (e : CacheEntry)
      → get_entry conf now p q e ≡ hit m
      → (matches e p q ≡ true)
        × (conf p ≤ e.stored)
        × (now < e.stored + e.ttl)
        × (m ≡ echo_question q (set_ttl e.msg (ttl_seconds (e.stored + e.ttl - now))))
  unfolding get_entry
  get_entry-hit conf now p q m e h = ground arith

  entry-Serves :
      (mc : MsgCache) (conf : Text → ℕ) (now : ℕ) (p : Text) (q : Request) (m : Msg)
      (e : CacheEntry) (a : Stored)
      → get_entry conf now p q e ≡ hit m
      → MadeBy mc e a
      → Serves mc conf now p q m a
  unfolding new_entry
  entry-Serves mc conf now p q m e a h made =
      let (match, current, alive, reply) =
        get_entry-hit conf now p q m (entry_of mc a) (rw (← made.1) h) in
      let (profile, name, qtype, qclass, dnssec_ok, cd) =
        (matches_iff (entry_of mc a) p q).0 match in
      record {
        cacheable = made.0;
        profile = profile;
        question = record {
          name = name;
          qtype = qtype;
          qclass = qclass;
          dnssec_ok = dnssec_ok;
          cd = cd;
        };
        current = current;
        alive = alive;
        reply = reply;
      }

  new-Sourced :
      (P : CacheEntry → Type 0) (mc : MsgCache) (size : ℕ)
      → IsValid size mc.c
      → ((key : ℕ) → Store.get key mc.c ≡ none)
      → Sourced P mc size mc
  new-Sourced P mc size valid empty = record {
    min_ttl = refl;
    max_ttl = refl;
    valid = valid;
    entries = λ key e found. absurd (ground (arith, empty key));
  }

  -- Every hit is one of the replies that were put: stored for this profile and this question (name,
  -- type, class and both flags), cacheable, no older than the profile's last configuration change,
  -- still within its lifetime, and handed out with its TTLs counted down and the question echoed;
  -- and the query is no reverse lookup. This holds for every hash function, collisions included,
  -- and whatever the evictions drop, for a cache that starts empty and valid.
  pub get-run :
      (mc : MsgCache) (size : ℕ) (calls : List Stored) (conf : Text → ℕ) (now : ℕ) (p : Text)
      (q : Request) (m : Msg)
      → IsValid size mc.c
      → ((key : ℕ) → Store.get key mc.c ≡ none)
      → get sum64 minimal_ttl (run mc calls) conf now p q ≡ hit m
      → Any (Serves mc conf now p q m) calls × (q.qtype ≢ type_ptr)
  get-run mc size calls conf now p q m valid empty h =
      let (e, found, served, no_ptr) = get-hit mc (run mc calls) conf now p q m h in
      let sourced =
        run-Sourced (λ x. Any (MadeBy mc x) calls) mc size mc calls
          (All-Any (λ a. is_cacheable a.request a.reply ≡ true) (λ a b. MadeBy mc (entry_of mc a) b)
            (λ a stores. (stores, refl)) calls)
          (new-Sourced (λ x. Any (MadeBy mc x) calls) mc size valid empty) in
      let made = sourced.entries (cache_key sum64 minimal_ttl p q) e found in
      (
        Any-weaken (MadeBy mc e) (Serves mc conf now p q m)
            (λ a made. entry-Serves mc conf now p q m e a served made) calls made,
        no_ptr,
      )
