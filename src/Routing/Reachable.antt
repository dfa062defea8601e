-- ===== src/Routing/Reachable.antt =====
-- The routes that setup warns about: reachableRoutes lists where a block's queries can go.
use coredns_nextdns.Prelude.{
  ◌≡◌, ◌≢◌, inl, inr, refl, List, [], ◌∷◌, ◌++◌, true, false, ◌||◌, Option, none, some, Any, arith,
  Option-cases, Bool-cases, subst, sym,
}
use coredns_nextdns.Prelude.Text.{Text}
use coredns_nextdns.Addr.{Addr, contains, client_addr}
use coredns_nextdns.Routing.{
  ClientProfile, Routes, Asked, first_match, view_profile, metadata_profile, client_profile,
  profile_for, reachable_routes, has, add_route, add_routes,
}

abbrev pub IsAmong : Text → List Text → Type 0
IsAmong p = Any (λ x. x ≡ p)

-- No route is listed twice.
abbrev pub IsDistinct : List Text → Type 0
IsDistinct [] = Unit
IsDistinct (x ∷ xs) = (has xs x ≡ false) × IsDistinct xs

has-IsAmong : (out : List Text) (p : Text) → has out p ≡ true → IsAmong p out
unfolding has
has-IsAmong [] p h = absurd (ground arith)
has-IsAmong (x ∷ out) p h = ground (arith, has-IsAmong out p)

append-IsAmong : (out : List Text) (p q : Text) → IsAmong p out → IsAmong p (out ++ q ∷ [])
append-IsAmong [] p q h = elim h [ ]
append-IsAmong (x ∷ out) p q (inl e) = inl e
append-IsAmong (x ∷ out) p q (inr h) = inr (append-IsAmong out p q h)

append-IsAmong_last : (out : List Text) (p : Text) → IsAmong p (out ++ p ∷ [])
append-IsAmong_last [] p = inl refl
append-IsAmong_last (x ∷ out) p = inr (append-IsAmong_last out p)

has-append : (out : List Text) (p q : Text) → has (out ++ q ∷ []) p ≡ (has out p || has (q ∷ []) p)
unfolding has
has-append [] p q = refl
has-append (x ∷ out) p q = ground (arith, has-append out p q)

append-IsDistinct :
    (out : List Text) (p : Text) → has out p ≡ false → IsDistinct out → IsDistinct (out ++ p ∷ [])
unfolding has
append-IsDistinct [] p h d = (refl, tt)
append-IsDistinct (x ∷ out) p h d = ground (arith, has-append out x p, append-IsDistinct out p)

add_route-IsDistinct : (out : List Text) (p : Text) → IsDistinct out → IsDistinct (add_route out p)
unfolding add_route
add_route-IsDistinct out p d = ground (arith, append-IsDistinct out p)

add_routes-IsDistinct :
    (out : List Text) (l : List ClientProfile) → IsDistinct out → IsDistinct (add_routes out l)
unfolding add_routes
add_routes-IsDistinct out [] d = d
add_routes-IsDistinct out (cp ∷ l) d =
    add_routes-IsDistinct (add_route out cp.profile) l (add_route-IsDistinct out cp.profile d)

add_route-keeps : (out : List Text) (p q : Text) → IsAmong p out → IsAmong p (add_route out q)
unfolding add_route
add_route-keeps out p q h = ground (arith, append-IsAmong out p q h)

add_routes-keeps :
    (out : List Text) (l : List ClientProfile) (p : Text)
    → IsAmong p out
    → IsAmong p (add_routes out l)
unfolding add_routes
add_routes-keeps out [] p h = h
add_routes-keeps out (cp ∷ l) p h =
    add_routes-keeps (add_route out cp.profile) l p (add_route-keeps out p cp.profile h)

add_route_self : (out : List Text) (p : Text) → p ≢ [] → IsAmong p (add_route out p)
unfolding add_route
add_route_self out [] h = absurd (h refl)
add_route_self out (c ∷ p) h =
    ground (arith, has-IsAmong out (c ∷ p), append-IsAmong_last out (c ∷ p))

first_match-IsAmong :
    (ip : Addr) (out : List Text) (l : List ClientProfile) (cp : ClientProfile)
    → first_match ip l ≡ some cp
    → cp.profile ≢ []
    → IsAmong cp.profile (add_routes out l)
unfolding first_match add_routes
first_match-IsAmong ip out [] cp e ne = absurd (ground arith)
first_match-IsAmong ip out (x ∷ l) cp e ne = elim (Bool-cases (contains x.prefix ip)) [
  | inr no_match ↦ first_match-IsAmong ip (add_route out x.profile) l cp (ground arith) ne
  | inl match ↦
      let same : x ≡ cp = ground arith in
      subst (λ c. IsAmong c.profile (add_routes (add_route out x.profile) l)) same
        (add_routes-keeps (add_route out x.profile) l x.profile
          (add_route_self out x.profile (rw same ne)))
]

-- The choice by client subnet, with the default behind it.
abbrev by_client : (Text → Option Addr) → Routes → Text → Text
by_client parse_addr n ip = elim (client_profile parse_addr n ip) [ some p ↦ p | none ↦ n.profile ]

by_client-IsAmong :
    (parse_addr : Text → Option Addr) (n : Routes) (ip : Text)
    → by_client parse_addr n ip ≢ []
    → IsAmong (by_client parse_addr n ip) (add_routes (add_route [] n.profile) n.client_profiles)
unfolding client_profile
by_client-IsAmong parse_addr n ip ne =
    let routes = add_routes (add_route [] n.profile) n.client_profiles in
    let default = λ (same : by_client parse_addr n ip ≡ n.profile).
      subst (λ p. IsAmong p routes) (sym same)
        (add_routes-keeps (add_route [] n.profile) n.client_profiles n.profile
          (add_route_self [] n.profile (subst (λ p. p ≢ []) same ne))) in
    elim (Option-cases (client_addr parse_addr ip)) [
      | inl e ↦ default (ground arith)
      | inr (a, e) ↦ elim (Option-cases (first_match a n.client_profiles)) [
        | inl m ↦ default (ground arith)
        | inr (cp, m) ↦
            let same : by_client parse_addr n ip ≡ cp.profile = ground arith in
            subst (λ p. IsAmong p routes) (sym same)
              (first_match-IsAmong a (add_route [] n.profile) n.client_profiles cp m
                (subst (λ p. p ≢ []) same ne))
      ]
    ]

-- A query that no metadata overrides is answered by a route that is listed for its view, if it is
-- answered by one at all; and no route is listed twice. So one listed route means one answer.
pub profile_for-reachable :
    (parse_addr : Text → Option Addr) (n : Routes) (q : Asked)
    → metadata_profile q.metadata ≡ none
    → profile_for parse_addr n q ≢ []
    → IsAmong (profile_for parse_addr n q) (reachable_routes n q.view)
      × IsDistinct (reachable_routes n q.view)
unfolding profile_for reachable_routes
profile_for-reachable parse_addr n q h ne = elim (Option-cases (view_profile n q.view)) [
  | inr (p, bound) ↦
      rw (h, bound, profile_for, reachable_routes) (inl refl, unfold has in (refl, tt))
  | inl free ↦
      rw (h, free, profile_for, reachable_routes)
        (
          by_client-IsAmong parse_addr n q.ip (rw (h, free, profile_for) at ne),
          add_routes-IsDistinct (add_route [] n.profile) n.client_profiles
              (add_route-IsDistinct [] n.profile tt),
        )
]
