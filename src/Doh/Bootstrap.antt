-- ===== src/Doh/Bootstrap.antt =====
-- How an endpoint is dialled: by its bootstrap addresses alone once it has any, each in its turn.
use coredns_nextdns.Prelude.{
  ℕ, zero, suc, ◌+◌, ◌%◌, ◌≡◌, ◌≢◌, ◌⊎◌, ◌↔◌, inl, inr, refl, ap, sym, ◌∙◌, subst, List, [], ◌∷◌,
  ◌++◌, Bool, true, false, some, Any, arith, Option-cases, Bool-cases, length, get_elem?,
}
use coredns_nextdns.Prelude.Text.{Text, text_discrete}
use coredns_nextdns.Doh.{
  Endpoint, DohClient, plain, unusable, connected, matches_network, addrs_from, addrs, gather,
  has_any, try_addresses, dial,
}

-- The endpoint tells how to reach the host.
abbrev pub Declares : Text → Endpoint → Type 0
Declares host ep = (ep.host ≡ host) × (ep.bootstrap ≢ [])

has_any-ne : (l : List Text) → has_any l ≡ true → l ≢ []
has_any-ne [] h = cc
has_any-ne (x ∷ l) h = λ e. cc

has_any-eq : (l : List Text) → has_any l ≡ false → l ≡ []
has_any-eq [] h = refl
has_any-eq (x ∷ l) h = cc

gather-declared :
    (is4 : Text → Bool) (network host : Text) (eps : List Endpoint)
    → (gather is4 network host eps).0 ≡ true
    → Any (Declares host) eps
unfolding gather
gather-declared is4 network host [] h = absurd (ground arith)
gather-declared is4 network host (ep ∷ rest) h = elim (text_discrete ep.host host) [
  | no other ↦ inr (gather-declared is4 network host rest (ground arith))
  | yes same ↦ elim (Bool-cases (has_any ep.bootstrap)) [
    | inl some_there ↦ inl (same, has_any-ne ep.bootstrap some_there)
    | inr none_there ↦ inr (gather-declared is4 network host rest (ground arith))
  ]
]

gather-undeclared :
    (is4 : Text → Bool) (network host : Text) (eps : List Endpoint)
    → (gather is4 network host eps).0 ≡ false
    → Any (Declares host) eps
    → ⊥
unfolding gather
gather-undeclared is4 network host [] h declared = declared
gather-undeclared is4 network host (ep ∷ rest) h (inl (same, there)) =
    there (has_any-eq ep.bootstrap (ground arith))
gather-undeclared is4 network host (ep ∷ rest) h (inr later) =
    gather-undeclared is4 network host rest (ground arith) later

-- One of the addresses of a list.
abbrev pub IsIn : Text → List Text → Type 0
IsIn ip = Any (λ x. x ≡ ip)

get_elem?-IsIn : (l : List Text) (i : ℕ) (ip : Text) → get_elem? l i ≡ some ip → IsIn ip l
get_elem?-IsIn [] i ip h = absurd (ground arith)
get_elem?-IsIn (x ∷ l) zero ip h = inl (ground arith)
get_elem?-IsIn (x ∷ l) (suc i) ip h = inr (get_elem?-IsIn l i ip h)

addrs_from-IsIn :
    (ok : Text → Bool) (boot : List Text) (n pos : ℕ) (ip : Text)
    → IsIn ip (addrs_from ok boot n pos)
    → IsIn ip boot × (ok ip ≡ true)
unfolding addrs_from
addrs_from-IsIn ok boot zero pos ip h = elim h [ ]
addrs_from-IsIn ok boot (suc n) pos ip h =
    let ih = addrs_from-IsIn ok boot n (pos + 1) ip in
    elim (Option-cases (get_elem? boot (pos % length boot))) [
      | inl e ↦ ih (rw (e, addrs_from) at h)
      | inr (x, e) ↦ elim (Bool-cases (ok x)) [
        | inr bad ↦ ih (rw (e, bad, addrs_from) at h)
        | inl good ↦ elim (rw (e, good, addrs_from) at h) [
          | inl here ↦ (
            get_elem?-IsIn boot (pos % length boot) ip (e ∙ ap some here),
            subst (λ y. ok y ≡ true) here good,
          )
          | inr later ↦ ih later
        ]
      ]
    ]

no_addrs :
    (is4 : Text → Bool) (network : Text) (ep : Endpoint)
    → ep.bootstrap ≡ []
    → (addrs is4 network ep).0 ≡ []
unfolding addrs
no_addrs is4 network ep h = ground arith

all_addrs :
    (is4 : Text → Bool) (network : Text) (ep : Endpoint)
    → ep.bootstrap ≢ []
    → (addrs is4 network ep).0
      ≡ addrs_from (matches_network is4 network) ep.bootstrap (length ep.bootstrap) ep.next
unfolding addrs
all_addrs is4 network ep h = ground arith

addrs-IsIn :
    (is4 : Text → Bool) (network ip : Text) (ep : Endpoint)
    → IsIn ip (addrs is4 network ep).0
    → IsIn ip ep.bootstrap × (matches_network is4 network ip ≡ true)
unfolding addrs
addrs-IsIn is4 network ip ep h = elim (Bool-cases (has_any ep.bootstrap)) [
  | inr none_there ↦
      absurd
        (subst (λ l. IsIn ip l) (no_addrs is4 network ep (has_any-eq ep.bootstrap none_there)) h)
  | inl some_there ↦
      addrs_from-IsIn (matches_network is4 network) ep.bootstrap (length ep.bootstrap) ep.next ip
        (subst (λ l. IsIn ip l) (all_addrs is4 network ep (has_any-ne ep.bootstrap some_there)) h)
]

-- An endpoint of the host has the address in its list, and the network can use it.
abbrev pub Offers : (Text → Bool) → Text → Text → Text → Endpoint → Type 0
Offers is4 network host ip ep =
    (ep.host ≡ host) × IsIn ip ep.bootstrap × (matches_network is4 network ip ≡ true)

append-IsIn : (xs ys : List Text) (ip : Text) → IsIn ip (xs ++ ys) → IsIn ip xs ⊎ IsIn ip ys
append-IsIn [] ys ip h = inr h
append-IsIn (x ∷ xs) ys ip (inl e) = inl (inl e)
append-IsIn (x ∷ xs) ys ip (inr h) = elim (append-IsIn xs ys ip h) [
  | inl left ↦ inl (inr left)
  | inr right ↦ inr right
]

gather-IsIn :
    (is4 : Text → Bool) (network host ip : Text) (eps : List Endpoint)
    → IsIn ip (gather is4 network host eps).1
    → Any (Offers is4 network host ip) eps
unfolding gather
gather-IsIn is4 network host ip [] h = h
gather-IsIn is4 network host ip (ep ∷ rest) h = elim (text_discrete ep.host host) [
  | no other ↦ inr (gather-IsIn is4 network host ip rest (subst (λ l. IsIn ip l) (ground arith) h))
  | yes same ↦
      let boot : (gather is4 network host (ep ∷ rest)).1
          ≡ (addrs is4 network ep).0 ++ (gather is4 network host rest).1 =
        ground arith in
      elim (append-IsIn (addrs is4 network ep).0 (gather is4 network host rest).1 ip
        (subst (λ l. IsIn ip l) boot h)) [
          | inl here ↦
              let (in_list, ok) = addrs-IsIn is4 network ip ep here in inl (same, in_list, ok)
          | inr later ↦ inr (gather-IsIn is4 network host ip rest later)
        ]
]

try_addresses-connected :
    (reach : Text → Bool) (l : List Text) (ip : Text)
    → try_addresses reach l ≡ connected ip
    → IsIn ip l × (reach ip ≡ true)
unfolding try_addresses
try_addresses-connected reach [] ip h = absurd (ground arith)
try_addresses-connected reach (x ∷ l) ip h = ground (arith, try_addresses-connected reach l ip)

try_addresses-ne-plain : (reach : Text → Bool) (l : List Text) → try_addresses reach l ≢ plain
unfolding try_addresses
try_addresses-ne-plain reach [] = ground arith
try_addresses-ne-plain reach (x ∷ l) = ground (arith, try_addresses-ne-plain reach l)

-- What dial does with a host that is declared.
dial-declared :
    (is4 reach : Text → Bool) (network host : Text) (c : DohClient)
    → (gather is4 network host c.endpoints).0 ≡ true
    → ((dial is4 reach network host c).0 ≡ unusable)
      ⊎ ((dial is4 reach network host c).0
          ≡ try_addresses reach (gather is4 network host c.endpoints).1)
unfolding dial
dial-declared is4 reach network host c h = ground arith

not-plain :
    (is4 reach : Text → Bool) (network host : Text) (c : DohClient)
    → (gather is4 network host c.endpoints).0 ≡ true
    → (dial is4 reach network host c).0 ≢ plain
not-plain is4 reach network host c declared = ground (
  arith,
  dial-declared is4 reach network host c declared,
  try_addresses-ne-plain reach (gather is4 network host c.endpoints).1,
)

-- A host that an endpoint gives addresses for is never dialled by name, whatever fails: the system
-- resolver is used exactly for the hosts that no endpoint declares.
pub dial-plain_iff :
    (is4 reach : Text → Bool) (network host : Text) (c : DohClient)
    → ((dial is4 reach network host c).0 ≡ plain) ↔ (¬ Any (Declares host) c.endpoints)
unfolding dial
dial-plain_iff is4 reach network host c =
    elim (Bool-cases (gather is4 network host c.endpoints).0) [
      | inr undeclared ↦
          (λ h. gather-undeclared is4 network host c.endpoints undeclared, λ h. ground arith)
      | inl declared ↦ (
        λ h. absurd (not-plain is4 reach network host c declared h),
        λ h. absurd (h (gather-declared is4 network host c.endpoints declared)),
      )
    ]

-- A connection is made to an address that answers, that an endpoint of this host declares and that
-- the network can use.
pub dial-connected :
    (is4 reach : Text → Bool) (network host ip : Text) (c : DohClient)
    → (dial is4 reach network host c).0 ≡ connected ip
    → (reach ip ≡ true) × Any (Offers is4 network host ip) c.endpoints
unfolding dial
dial-connected is4 reach network host ip c h =
    elim (Bool-cases (gather is4 network host c.endpoints).0) [
      | inr undeclared ↦ absurd (ground arith)
      | inl declared ↦ elim (dial-declared is4 reach network host c declared) [
        | inl none_usable ↦ absurd (ground arith)
        | inr tried ↦
            let boot = (gather is4 network host c.endpoints).1 in
            let (in_list, answers) = try_addresses-connected reach boot ip (sym tried ∙ h) in
            (answers, gather-IsIn is4 network host ip c.endpoints in_list)
      ]
    ]
