-- ===== src/Config/Subnets/Lines.antt =====
-- The entry that each property of the block adds to the subnets.
use coredns_nextdns.Prelude.{
  Bool-cases, ℕ_discrete, if◌then◌else◌, ◌≡◌, ◌⊎◌, inl, inr, refl, sym, ap, ◌∙◌, subst, List, [],
  ◌∷◌, ◌++◌, append_assoc, append-nil, true, false, Bool, none, some, All, arith, Option-cases,
}
use coredns_nextdns.Prelude.Text.{Text, codes, text_eq, text_discrete}
use coredns_nextdns.Prelude.Result.{
  check, ok, IsOk, IsOk-ok, any-IsOk, from_option-IsOk, >>=-eq-ok, fold_steps,
}
use coredns_nextdns.Prelude.Dict
use coredns_nextdns.Prelude.Dict.{Dict}
use coredns_nextdns.Routing.{valid_route, ClientProfile, parse_prefix}
use coredns_nextdns.Config.{invalid_profile, invalid_prefix, Parsers, Settings}
use coredns_nextdns.Config.Property.{Outcome, set_client_profile, two_args}
use coredns_nextdns.Config.Parse.{properties, set_property, line_properties, read_line}
use coredns_nextdns.Config.Subnets.Keeps
use coredns_nextdns.Config.Subnets.Keeps.{IsSame, IsKept}

abbrev client_profile_name : Text
client_profile_name = codes "client_profile"

-- The entry that a client_profile line adds.
unfoldable pub subnet_of : Parsers → List Text → List ClientProfile
subnet_of p (s ∷ profile ∷ []) = elim (parse_prefix p.parse_cidr p.parse_addr s) [
  | some q ↦ record { prefix = q; profile = profile } ∷ []
  | none ↦ []
]
subnet_of p _ = []

unfoldable pub flat_map : {A : Type 0} → (A → List ClientProfile) → List A → List ClientProfile
flat_map f [] = []
flat_map f (a ∷ rest) = f a ++ flat_map f rest

abbrev pub subnets_of_property : Parsers → Text × List Text → List ClientProfile
subnets_of_property p a = if text_eq a.0 client_profile_name then subnet_of p a.1 else []

-- The entries of a line, which may hold several properties.
abbrev pub subnets_of_line : Parsers → List Text → List ClientProfile
subnets_of_line p line = flat_map (subnets_of_property p) (line_properties line)

abbrev pub Adds : Settings → List ClientProfile → Settings → Type 0
Adds s l t = t.routes.client_profiles ≡ s.routes.client_profiles ++ l

pub fold_steps-Adds :
    {A : Type 0} (step : Settings → A → Outcome) (f : A → List ClientProfile)
    → ((s : Settings) (a : A) (t : Settings) → step s a ≡ ok t → Adds s (f a) t)
    → (s t : Settings) (l : List A) → fold_steps step s l ≡ ok t
    → Adds s (flat_map f l) t
unfolding fold_steps flat_map
fold_steps-Adds step f adds s t [] e =
    let same : s ≡ t = ground (arith, e) in
    subst (Adds s []) same (sym (append-nil s.routes.client_profiles))
fold_steps-Adds step f adds s t (a ∷ rest) e =
    let (m, one, later) = >>=-eq-ok (step s a) (λ x. fold_steps step x rest) e in
    fold_steps-Adds step f adds m t rest later
    ∙ ap (λ l. l ++ flat_map f rest) (adds s a m one)
    ∙ append_assoc s.routes.client_profiles (f a) (flat_map f rest)

text_eq-true : (s t : Text) → text_eq s t ≡ true → s ≡ t
text_eq-true s t h = elim (text_discrete s t) [ yes e ↦ e | no n ↦ absurd (ground (arith, h, n)) ]

module _ (p : Parsers) where
  set_client_profile-Adds :
      (s : Settings) (args : List Text)
      → IsOk (Adds s (subnet_of p args)) (set_client_profile p s args)
  unfolding set_client_profile subnet_of two_args
  set_client_profile-Adds s [] = tt
  set_client_profile-Adds s (a ∷ []) = tt
  set_client_profile-Adds s (a ∷ b ∷ []) =
      from_option-IsOk (Adds s (subnet_of p (a ∷ b ∷ [])))
        (parse_prefix p.parse_cidr p.parse_addr a) invalid_prefix _
        (λ q good.
          any-IsOk (Adds s (subnet_of p (a ∷ b ∷ []))) (check (valid_route b) invalid_profile) _
            (λ _. rw (good, subnet_of) refl))
  set_client_profile-Adds s (a ∷ b ∷ c ∷ rest) = tt

  -- A case leaves the subnets as they are, or is that of client_profile; none takes a switch back.
  abbrev pub KeepsOr : Text × (Settings → List Text → Outcome) → Type 0
  KeepsOr e =
      ((text_eq e.0 client_profile_name ≡ true)
        × ((s : Settings) (args : List Text) → IsOk (IsKept s) (e.1 s args)))
      ⊎ ((s : Settings) (args : List Text) → IsOk (IsSame s) (e.1 s args))

  pub properties-KeepsOr : All KeepsOr (properties p)
  unfolding properties text_discrete
  properties-KeepsOr = (
    inr (Keeps.set_profile-IsSame p),
    (
      inr (Keeps.set_view_profile-IsSame p),
      (
        inl (refl, Keeps.set_client_profile-IsKept p),
        (
          inr (Keeps.add_endpoints-IsSame p),
          (
            inr (Keeps.add_bootstrap-IsSame p),
            (
              inr (Keeps.set_tls_server_name-IsSame p),
              (
                inr (Keeps.set_timeout-IsSame p),
                (
                  inr (Keeps.set_max_idle_conns-IsSame p),
                  (
                    inr (Keeps.set_max_concurrent-IsSame p),
                    (
                      inr (Keeps.set_cache-IsSame p),
                      (
                        inr (Keeps.set_cache_ttl-IsSame p),
                        (
                          inr (Keeps.set_device_id-IsSame p),
                          (
                            inr (Keeps.set_device_model-IsSame p),
                            (
                              inr (Keeps.set_device_ip-IsSame p),
                              (
                                inr (Keeps.add_device_name-IsSame p),
                                (
                                  inr (Keeps.add_device_names-IsSame p),
                                  (
                                    inr (Keeps.set_discovery-IsSame p),
                                    (
                                      inr (Keeps.set_discovery_ttl-IsSame p),
                                      (
                                        inr (Keeps.set_discovery_retry-IsSame p),
                                        (
                                          inr (Keeps.set_discovery_wait-IsSame p),
                                          (
                                            inr (Keeps.set_discovery_timeout-IsSame p),
                                            (
                                              inr (Keeps.set_discovery_max-IsSame p),
                                              (
                                                inr (Keeps.set_arp-IsSame p),
                                                (inr (Keeps.set_reload-IsSame p), tt),
                                              ),
                                            ),
                                          ),
                                        ),
                                      ),
                                    ),
                                  ),
                                ),
                              ),
                            ),
                          ),
                        ),
                      ),
                    ),
                  ),
                ),
              ),
            ),
          ),
        ),
      ),
    ),
  )

  named-Adds :
      (s : Settings) (args : List Text) (t : Settings)
      → set_property p s (client_profile_name, args) ≡ ok t
      → Adds s (subnets_of_property p (client_profile_name, args)) t
  unfolding set_property properties Dict.get text_discrete ℕ_discrete
  named-Adds s args t e =
      IsOk-ok (Adds s (subnet_of p args)) (set_client_profile p s args) e
        (set_client_profile-Adds s args)

  other-Adds :
      (s t : Settings) (b : Bool) (l : List ClientProfile)
      → b ≡ false
      → t.routes.client_profiles ≡ s.routes.client_profiles
      → Adds s (if b then l else []) t
  other-Adds s t true l n h = absurd (ground (arith, n))
  other-Adds s t false l n h = h ∙ sym (append-nil s.routes.client_profiles)

  set_property-Adds :
      (s : Settings) (a : Text × List Text) (t : Settings)
      → set_property p s a ≡ ok t
      → Adds s (subnets_of_property p a) t
  unfolding set_property
  set_property-Adds s (name, args) t e = elim (Bool-cases (text_eq name client_profile_name)) [
    | inl same ↦
        subst (λ n. set_property p s (n, args) ≡ ok t → Adds s (subnets_of_property p (n, args)) t)
          (sym (text_eq-true name client_profile_name same)) (named-Adds s args t) e
    | inr other ↦ elim (Option-cases (Dict.get text_discrete name (properties p))) [
      | inl missing ↦ absurd (ground (arith, e, missing))
      | inr (set, found) ↦
          elim (Dict.get-All text_discrete KeepsOr name (properties p) properties-KeepsOr found) [
            | inl (named, _) ↦ absurd (ground (arith, named, other))
            | inr keeps ↦
                let ran : set s args ≡ ok t = ground (arith, e, found) in
                other-Adds s t (text_eq name client_profile_name) (subnet_of p args) other
                  (IsOk-ok (IsSame s) (set s args) ran (keeps s args)).0
          ]
    ]
  ]

  pub read_line-Adds :
      (s : Settings) (line : List Text) (t : Settings)
      → read_line p s line ≡ ok t
      → Adds s (subnets_of_line p line) t
  unfolding read_line
  read_line-Adds s line t e =
      fold_steps-Adds (set_property p) (subnets_of_property p) set_property-Adds s t
        (line_properties line) e
