-- ===== src/Config/Switches.antt =====
-- Options of the block that tune a feature, anywhere in it, and the feature: cache_ttl and cache,
-- discovery_* and discovery, reload and something to re-read.
pub mod Brings
use coredns_nextdns.Prelude.{
  ◌&&◌, leb, ℕ_discrete, ◌≡◌, ◌⊎◌, inl, inr, refl, sym, ap, subst, List, [], ◌∷◌, true, false, some,
  All, Any, arith, Option-cases, is_some, ◌∙◌,
}
use coredns_nextdns.Prelude.Text.{Text, codes, text_discrete, is_empty}
use coredns_nextdns.Prelude.Result.{
  check, from_option, Result, ok, IsOk, IsOk-ok, any-IsOk, >>=-eq-ok, fold_steps,
}
use coredns_nextdns.Prelude.Int.{pos, leb_ℤ}
use coredns_nextdns.Prelude.Dict
use coredns_nextdns.Prelude.Dict.{Dict}
use coredns_nextdns.Config.{
  invalid_range, negative_duration, invalid_duration, Parsers, Block, Settings, new_settings,
}
use coredns_nextdns.Config.Property.{
  natural, two_args, parse_positive_int, positive_duration, parse_duration, set_discovery_timeout,
  set_cache_ttl, set_discovery_wait, set_discovery_ttl, set_reload, set_discovery_max,
  set_discovery_retry, Outcome,
}
use coredns_nextdns.Config.Parse.{
  Configured, properties, set_property, line_properties, read_line, read_args, read_block,
  read_blocks, has_source, finish, parse_nextdns, is_tuned,
}
use coredns_nextdns.Config.Subnets.Keeps.{IsKept, IsSame}
use coredns_nextdns.Config.Subnets.Lines.{KeepsOr, properties-KeepsOr}
use coredns_nextdns.Config.Switches.Brings.{
  reload_brings, cache_ttl_brings, discovery_ttl_brings, discovery_retry_brings,
  discovery_timeout_brings, discovery_max_brings, discovery_wait_brings,
}
use coredns_nextdns.Config.Refused.{finish-IsFit}

-- A fold over steps that keep a fact ends with it if one of the steps brings it.
fold_steps-brings :
    {E S A : Type 0} (step : S → A → Result E S) (F : S → Type 0) (N : A → Type 0)
    → ((s : S) (a : A) (t : S) → step s a ≡ ok t → F s → F t)
    → ((s : S) (a : A) (t : S) → N a → step s a ≡ ok t → F t)
    → (s t : S) (l : List A) → fold_steps step s l ≡ ok t
    → F s ⊎ Any N l
    → F t
unfolding fold_steps
fold_steps-brings step F N keeps brings s t [] e (inl h) =
    let same : s ≡ t = ground (arith, e) in subst F same h
fold_steps-brings step F N keeps brings s t [] e (inr h) = absurd h
fold_steps-brings step F N keeps brings s t (a ∷ rest) e h =
    let (m, one, later) = >>=-eq-ok (step s a) (λ x. fold_steps step x rest) e in
    fold_steps-brings step F N keeps brings m t rest later (elim h [
      | inl held ↦ inl (keeps s a m one held)
      | inr (inl here) ↦ inl (brings s a m here one)
      | inr (inr further) ↦ inr further
    ])

-- Some line of the block has a property with one of these names.
abbrev pub HasProperty : List Text → Block → Type 0
HasProperty names b =
    Any (λ line. Any (λ a. Any (λ name. a.0 ≡ name) names) (line_properties line)) b.lines

abbrev pub tuning_names : List Text
tuning_names =
    codes "discovery_ttl"
    ∷ codes "discovery_retry"
    ∷ codes "discovery_timeout"
    ∷ codes "discovery_wait"
    ∷ codes "discovery_max"
    ∷ []

-- No option of the block tunes a feature that is off in the configuration that it makes, and there
-- is a profile.
pub record IsMatched (b : Block) (c : Configured) : Type 0 where
  pub reload : HasProperty (codes "reload" ∷ []) b → has_source c.sources ≡ true
  pub cache_ttl : HasProperty (codes "cache_ttl" ∷ []) b → is_some c.handler.cache ≡ true
  pub discovery : HasProperty tuning_names b → is_some c.handler.devices.discovery ≡ true
  pub profile : is_empty c.handler.routes.profile ≡ false

module _ (p : Parsers) where
  set_property-IsKept :
      (s : Settings) (a : Text × List Text) (t : Settings) → set_property p s a ≡ ok t → IsKept s t
  unfolding set_property
  set_property-IsKept s (name, args) t e =
      elim (Option-cases (Dict.get text_discrete name (properties p))) [
        | inl missing ↦ absurd (ground (arith, e, missing))
        | inr (set, found) ↦
            let ran : set s args ≡ ok t = ground (arith, e, found) in
            elim (Dict.get-All text_discrete (KeepsOr p) name (properties p) (properties-KeepsOr p)
              found) [
                | inl (_, keeps) ↦ IsOk-ok (IsKept s) (set s args) ran (keeps s args)
                | inr keeps ↦ (IsOk-ok (IsSame s) (set s args) ran (keeps s args)).1
              ]
      ]

  module _ (F : Settings → Type 0) (names : List Text)
      (keeps : (s t : Settings) → IsKept s t → F s → F t)
      (brings : (s : Settings) (a : Text × List Text) (t : Settings)
        → Any (λ name. a.0 ≡ name) names
        → set_property p s a ≡ ok t
        → F t) where
    read_line-keeps :
        (s : Settings) (line : List Text) (t : Settings) → read_line p s line ≡ ok t → F s → F t
    unfolding read_line
    read_line-keeps s line t e h =
        fold_steps-brings (set_property p) F (λ a. Any (λ name. a.0 ≡ name) names)
          (λ s a t e. keeps s t (set_property-IsKept s a t e)) brings s t (line_properties line) e
          (inl h)

    read_line-brings :
        (s : Settings) (line : List Text) (t : Settings)
        → Any (λ a. Any (λ name. a.0 ≡ name) names) (line_properties line)
        → read_line p s line ≡ ok t
        → F t
    unfolding read_line
    read_line-brings s line t h e =
        fold_steps-brings (set_property p) F (λ a. Any (λ name. a.0 ≡ name) names)
          (λ s a t e. keeps s t (set_property-IsKept s a t e)) brings s t (line_properties line) e
          (inr h)

    -- A property of the block has had its effect when the block has been read.
    read_block-brings :
        (b : Block) (s t : Settings) → HasProperty names b → read_block p s b ≡ ok t → F t
    unfolding read_block
    read_block-brings b s t h e =
        let (m, _, lines) =
          >>=-eq-ok (read_args p s b.args) (λ x. fold_steps (read_line p) x b.lines) e in
        fold_steps-brings (read_line p) F
          (λ line. Any (λ a. Any (λ name. a.0 ≡ name) names) (line_properties line)) read_line-keeps
          read_line-brings m t b.lines lines (inr h)

  named_brings :
      (F : Settings → Type 0) (name : Text)
      → ((s : Settings) (args : List Text) (t : Settings)
          → set_property p s (name, args) ≡ ok t
          → F t)
      → (s : Settings) (a : Text × List Text) (t : Settings) → a.0 ≡ name
      → set_property p s a ≡ ok t
      → F t
  named_brings F name brings s a t same e =
      brings s a.1 t (subst (λ n. set_property p s (n, a.1) ≡ ok t) same e)

  tuning_brings :
      (s : Settings) (a : Text × List Text) (t : Settings)
      → Any (λ name. a.0 ≡ name) tuning_names
      → set_property p s a ≡ ok t
      → is_tuned t.tuning ≡ true
  tuning_brings s a t h e =
      let F = (λ (x : Settings). is_tuned x.tuning ≡ true) in
      elim h [
        | inl ttl ↦ named_brings F _ (discovery_ttl_brings p) s a t ttl e
        | inr (inl retry) ↦ named_brings F _ (discovery_retry_brings p) s a t retry e
        | inr (inr (inl timeout)) ↦ named_brings F _ (discovery_timeout_brings p) s a t timeout e
        | inr (inr (inr (inl wait))) ↦ named_brings F _ (discovery_wait_brings p) s a t wait e
        | inr (inr (inr (inr (inl max)))) ↦ named_brings F _ (discovery_max_brings p) s a t max e
        | inr (inr (inr (inr (inr none_)))) ↦ absurd none_
      ]

  -- A block that parseNextDNS accepts tunes nothing that is off and leaves no profile out: with a
  -- reload on any of its lines there is a file or the ARP table to read again, with a cache_ttl
  -- there is a cache, with a discovery_ttl, _retry, _timeout, _wait or _max there is a discoverer,
  -- and the profile is not empty.
  pub parse_nextdns-IsMatched :
      (b : Block) (c : Configured) → parse_nextdns p (b ∷ []) ≡ ok c → IsMatched b c
  unfolding parse_nextdns read_blocks
  parse_nextdns-IsMatched b c e =
      let (s, read, finished) = >>=-eq-ok (read_block p new_settings b) (finish p) e in
      let f = finish-IsFit p s c finished in
      record {
        reload = λ h. f.reload (
            read_block-brings (λ x. x.sources.reload_on ≡ true) (codes "reload" ∷ [])
              (λ s t kept. kept.0)
              (λ s a t named.
                named_brings (λ x. x.sources.reload_on ≡ true) (codes "reload") (reload_brings p) s
                  a t (elim named [ inl same ↦ same | inr none_ ↦ absurd none_ ]))
              b new_settings s h read);
        cache_ttl = λ h. f.cache_ttl (
            read_block-brings (λ x. x.cache.ttl_on ≡ true) (codes "cache_ttl" ∷ [])
              (λ s t kept. kept.1)
              (λ s a t named.
                named_brings (λ x. x.cache.ttl_on ≡ true) (codes "cache_ttl") (cache_ttl_brings p) s
                  a t (elim named [ inl same ↦ same | inr none_ ↦ absurd none_ ]))
              b new_settings s h read);
        discovery = λ h. f.discovery (
            read_block-brings (λ x. is_tuned x.tuning ≡ true) tuning_names (λ s t kept. kept.2)
              tuning_brings b new_settings s h read);
        profile = f.profile;
      }
