-- ===== src/Discovery/Resolvers.antt =====
-- discovery.go: the resolvers that name an address, and what they make of a reply. The exchanges
-- over UDP and TCP, and CoreDNS's own lookup, are parameters.
use coredns_nextdns.Prelude.{
  ℕ_discrete, Option-cases, inl, inr, ◌≢◌, Bool-cases, ◌⊎◌, ◌∙◌, sym, subst, ap, ◌↔◌, ◌==◌, ◌≡◌,
  refl, List, [], ◌∷◌, ◌++◌, false, ◌||◌, Option, none, some, All, ℕ, arith, if◌then◌else◌,
}
use coredns_nextdns.Prelude.Text.{Text}
use coredns_nextdns.Prelude.Result.{Result, ok, err}
use coredns_nextdns.Dns.{Msg, Rr, type_ptr}
use coredns_nextdns.Dns.Rcode
use coredns_nextdns.Discovery.{true, Resolved, found, failed}

pub data ResolveError : Type 0 where
  no_response exchange_failed no_resolver : ResolveError
  reverse_failed : ℕ → ResolveError

-- The target of the first PTR record, or no name.
unfoldable pub first_ptr : List Rr → Text
first_ptr [] = []
first_ptr (rr ∷ rest) = if rr.rrtype == type_ptr then rr.rdata else first_ptr rest

-- ptrName
unfoldable pub ptr_name : Option Msg → Result ResolveError Text
ptr_name none = err no_response
ptr_name (some m) =
    if m.rcode == Rcode.success || m.rcode == Rcode.name_error
    then ok (first_ptr m.answer)
    else err (reverse_failed m.rcode)

-- internalResolver: `lookup` is the reply of upstream.Lookup, where `none` inside is a nil message.
unfoldable pub internal_resolver : (Text → Option (Option Msg)) → Text → Result ResolveError Text
internal_resolver lookup arpa = elim (lookup arpa) [
  | none ↦ err exchange_failed
  | some m ↦ ptr_name m
]

-- What lookup makes of a resolver's result.
unfoldable pub resolved : Result ResolveError Text → Resolved
resolved (ok name) = found name
resolved (err _) = failed

-- The name that a list of answers gives: the target of its first PTR record, or none without one.
abbrev pub IsPtrName : List Rr → Text → Type 0
IsPtrName answer name =
    ((l : List Rr) × (rr : Rr) × (rest : List Rr) × (answer ≡ l ++ rr ∷ rest)
      × All (λ x. x.rrtype ≢ type_ptr) l
      × (rr.rrtype ≡ type_ptr)
      × (rr.rdata ≡ name))
    ⊎ (All (λ x. x.rrtype ≢ type_ptr) answer × (name ≡ []))

first_ptr-IsPtrName : (answer : List Rr) → IsPtrName answer (first_ptr answer)
unfolding first_ptr
first_ptr-IsPtrName [] = inr (tt, refl)
first_ptr-IsPtrName (rr ∷ rest) = elim (ℕ_discrete rr.rrtype type_ptr) [
  | yes e ↦ inl ([], rr, rest, refl, tt, e, ground (arith, e))
  | no n ↦
      let same : first_ptr (rr ∷ rest) ≡ first_ptr rest = ground (arith, n) in
      rw same (elim (first_ptr-IsPtrName rest) [
        | inl (l, x, more, split, others, ptr, named) ↦
            inl (rr ∷ l, x, more, ap (λ t. rr ∷ t) split, (n, others), ptr, named)
        | inr (others, empty) ↦ inr ((n, others), empty)
      ])
]

first_ptr_skip :
    (l : List Rr) (rr : Rr) (rest : List Rr)
    → All (λ x. x.rrtype ≢ type_ptr) l
    → rr.rrtype ≡ type_ptr
    → first_ptr (l ++ rr ∷ rest) ≡ rr.rdata
unfolding first_ptr
first_ptr_skip [] rr rest h e = ground (arith, e)
first_ptr_skip (x ∷ l) rr rest (n, h) e = ground (arith, n, first_ptr_skip l rr rest h e)

first_ptr_none : (answer : List Rr) → All (λ x. x.rrtype ≢ type_ptr) answer → first_ptr answer ≡ []
unfolding first_ptr
first_ptr_none [] h = refl
first_ptr_none (x ∷ answer) (n, h) = ground (arith, n, first_ptr_none answer h)

IsPtrName-first_ptr :
    (answer : List Rr) (name : Text) → IsPtrName answer name → first_ptr answer ≡ name
IsPtrName-first_ptr answer name (inl (l, rr, rest, split, others, ptr, named)) =
    ap first_ptr split ∙ first_ptr_skip l rr rest others ptr ∙ named
IsPtrName-first_ptr answer name (inr (others, empty)) = first_ptr_none answer others ∙ sym empty

-- A resolver's final word: success, or that the name does not exist.
abbrev pub IsFinal : Msg → Type 0
IsFinal m = (m.rcode ≡ Rcode.success) ⊎ (m.rcode ≡ Rcode.name_error)

ptr_name_cases :
    (m : Msg)
    → (IsFinal m × (ptr_name (some m) ≡ ok (first_ptr m.answer)))
      ⊎ (¬ IsFinal m × (ptr_name (some m) ≡ err (reverse_failed m.rcode)))
unfolding ptr_name
ptr_name_cases m = elim (ℕ_discrete m.rcode Rcode.success) [
  | yes e ↦ inl (inl e, ground (arith, e))
  | no n ↦ elim (ℕ_discrete m.rcode Rcode.name_error) [
    | yes e ↦ inl (inr e, ground (arith, e))
    | no o ↦ inr (λ f. elim f [ inl e ↦ absurd (n e) | inr e ↦ absurd (o e) ], ground (arith, n, o))
  ]
]

module _ (udp tcp : Text → Option Msg) where
  -- The reply of a resolver: over TCP if the reply over UDP is truncated and TCP answers.
  unfoldable pub whole_reply : Text → Msg → Msg
  whole_reply addr m = if m.truncated then (elim (tcp addr) [ some m2 ↦ m2 | none ↦ m ]) else m

  unfoldable pub ask_resolver : Text → Result ResolveError Text
  ask_resolver addr = elim (udp addr) [
    | none ↦ err exchange_failed
    | some m ↦ ptr_name (some (whole_reply addr m))
  ]

  -- The loop of externalResolver; `last` is lastErr.
  unfoldable pub external_loop : ResolveError → List Text → Result ResolveError Text
  external_loop last [] = err last
  external_loop last (addr ∷ rest) = elim (ask_resolver addr) [
    | ok name ↦ ok name
    | err e ↦ external_loop e rest
  ]

  unfoldable pub external_resolver : List Text → Result ResolveError Text
  external_resolver addrs = external_loop no_resolver addrs

  -- The reply of a resolver that counts: its reply over UDP, or its reply over TCP where the one over
  -- UDP is truncated and there is one over TCP.
  abbrev pub Replies : Text → Msg → Type 0
  Replies addr m =
      (u : Msg) × (udp addr ≡ some u)
      × (((u.truncated ≡ true) × (tcp addr ≡ some m))
          ⊎ (((u.truncated ≡ false) ⊎ (tcp addr ≡ none)) × (u ≡ m)))

  -- A resolver names an address: its reply is final, and the name is that of its first PTR record.
  abbrev pub Names : Text → Text → Type 0
  Names addr name = (m : Msg) × Replies addr m × IsFinal m × IsPtrName m.answer name

  -- A resolver fails: it does not reply over UDP, or its reply is not final.
  abbrev pub FailsOn : Text → Type 0
  FailsOn addr = (udp addr ≡ none) ⊎ ((m : Msg) × Replies addr m × ¬ IsFinal m)

  whole_reply-Replies :
      (addr : Text) (u : Msg) → udp addr ≡ some u → Replies addr (whole_reply addr u)
  unfolding whole_reply
  whole_reply-Replies addr u e = elim (Bool-cases u.truncated) [
    | inl cut ↦ elim (Option-cases (tcp addr)) [
      | inl silent ↦ (u, e, inr (inr silent, ground (arith, cut, silent)))
      | inr (m, answers) ↦ (u, e, inl (cut, ground (arith, cut, answers)))
    ]
    | inr whole ↦ (u, e, inr (inl whole, ground (arith, whole)))
  ]

  Replies-ask_resolver :
      (addr : Text) (m : Msg) → Replies addr m → ask_resolver addr ≡ ptr_name (some m)
  unfolding ask_resolver whole_reply
  Replies-ask_resolver addr m (u, e, inl (cut, answers)) = rw (ask_resolver, e, cut, answers) refl
  Replies-ask_resolver addr m (u, e, inr (inl whole, same)) = ground (arith, e, whole, same)
  Replies-ask_resolver addr m (u, e, inr (inr silent, same)) = ground (arith, e, silent, same)

  -- A resolver's outcome: it fails, or it names the address.
  ask_resolver_cases :
      (addr : Text)
      → (FailsOn addr × ((e : ResolveError) × (ask_resolver addr ≡ err e)))
        ⊎ ((name : Text) × Names addr name × (ask_resolver addr ≡ ok name))
  unfolding ask_resolver
  ask_resolver_cases addr = elim (Option-cases (udp addr)) [
    | inl silent ↦ inl (inl silent, (exchange_failed, rw (ask_resolver, silent) refl))
    | inr (u, e) ↦
        let m = whole_reply addr u in
        let replies = whole_reply-Replies addr u e in
        let same = Replies-ask_resolver addr m replies in
        elim (ptr_name_cases m) [
          | inl (final, r) ↦
              inr (first_ptr m.answer, (m, replies, final, first_ptr-IsPtrName m.answer), same ∙ r)
          | inr (other, r) ↦ inl (inr (m, replies, other), (reverse_failed m.rcode, same ∙ r))
        ]
  ]

  FailsOn-ask_resolver :
      (addr : Text) → FailsOn addr → (e : ResolveError) × (ask_resolver addr ≡ err e)
  unfolding ask_resolver
  FailsOn-ask_resolver addr (inl silent) = (exchange_failed, rw (ask_resolver, silent) refl)
  FailsOn-ask_resolver addr (inr (m, replies, other)) = elim (ptr_name_cases m) [
    | inl (final, _) ↦ absurd (other final)
    | inr (_, r) ↦ (reverse_failed m.rcode, Replies-ask_resolver addr m replies ∙ r)
  ]

  Names-ask_resolver : (addr name : Text) → Names addr name → ask_resolver addr ≡ ok name
  Names-ask_resolver addr name (m, replies, final, named) = elim (ptr_name_cases m) [
    | inl (_, r) ↦
        Replies-ask_resolver addr m replies ∙ r ∙ ap ok (IsPtrName-first_ptr m.answer name named)
    | inr (other, _) ↦ absurd (other final)
  ]

  external_loop_skip :
      (last : ResolveError) (l rest : List Text) (addr : Text) (name : Text)
      → All FailsOn l
      → ask_resolver addr ≡ ok name
      → external_loop last (l ++ addr ∷ rest) ≡ ok name
  unfolding external_loop
  external_loop_skip last [] rest addr name h e = ground (arith, e)
  external_loop_skip last (a ∷ l) rest addr name (f, h) e =
      let (x, failed_) = FailsOn-ask_resolver a f in
      ground (arith, failed_, external_loop_skip x l rest addr name h e)

  external_loop_first :
      (last : ResolveError) (addrs : List Text) (name : Text)
      → external_loop last addrs ≡ ok name
      → (l : List Text) × (addr : Text) × (rest : List Text) × (addrs ≡ l ++ addr ∷ rest)
        × All FailsOn l
        × Names addr name
  unfolding external_loop
  external_loop_first last [] name h = absurd (ground (arith, h))
  external_loop_first last (a ∷ addrs) name h = elim (ask_resolver_cases a) [
    | inl (fails, (x, e)) ↦
        let (l, addr, rest, same, others, names) =
          external_loop_first x addrs name (ground (arith, e, h)) in
        (a ∷ l, addr, rest, ap (λ t. a ∷ t) same, (fails, others), names)
    | inr (n, names, e) ↦ ([], a, addrs, refl, tt, subst (Names a) (ground (arith, e, h)) names)
  ]

  -- The explicit resolvers are a failover list: the name is that of the first resolver whose reply
  -- is final, success or NXDOMAIN, taken from the first PTR record of that reply, and empty without
  -- one. The reply is that over TCP where the one over UDP is truncated and TCP answers. Exactly the
  -- resolvers before it failed, with no reply over UDP or with another code, and a name comes from no other.
  pub external_resolver-ok_iff :
      (addrs : List Text) (name : Text)
      → (external_resolver addrs ≡ ok name) ↔ (
          (l : List Text) × (addr : Text) × (rest : List Text) × (addrs ≡ l ++ addr ∷ rest)
          × All FailsOn l
          × Names addr name)
  unfolding external_resolver
  external_resolver-ok_iff addrs name = (
    external_loop_first no_resolver addrs name,
    λ (l, addr, rest, same, fails, names).
        subst (λ x. external_loop no_resolver x ≡ ok name) (sym same)
          (external_loop_skip no_resolver l rest addr name fails
            (Names-ask_resolver addr name names)),
  )
