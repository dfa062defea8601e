-- ===== src/Config/Refused.antt =====
-- What parseNextDNS refuses: properties that it does not know, and, at its end, switches of the
-- settings that have no feature to tune.
use coredns_nextdns.Prelude.{
  sym, subst, Any-weaken, ◌≡◌, refl, inl, inr, List, [], ◌∷◌, true, false, none, Any, arith,
  is_some, Option-cases, Bool-cases,
}
use coredns_nextdns.Prelude.Text.{Text, text_discrete, is_empty}
use coredns_nextdns.Prelude.Result.{>>=-eq-ok, Result, ok, IsOk, IsOk-ok, fold_steps}
use coredns_nextdns.Prelude.Dict
use coredns_nextdns.Config.{Parsers, Block, Settings, new_settings}
use coredns_nextdns.Config.Finish.{finish-eq-ok}
use coredns_nextdns.Config.Parse.{
  Configured, properties, set_property, line_properties, read_line, read_args, read_block,
  read_blocks, tune, has_source, make_cache, finish, parse_nextdns, is_tuned, configured,
}

-- The switches of the settings of which a handler was made, and its features.
pub record IsFit (s : Settings) (c : Configured) : Type 0 where
  pub cache_ttl : s.cache.ttl_on ≡ true → is_some c.handler.cache ≡ true
  pub discovery : is_tuned s.tuning ≡ true → is_some c.handler.devices.discovery ≡ true
  pub reload : s.sources.reload_on ≡ true → has_source c.sources ≡ true
  pub profile : is_empty c.handler.routes.profile ≡ false

tune-IsFit : (s : Settings) → IsOk (λ d. is_tuned s.tuning ≡ true → is_some d ≡ true) (tune s)
unfolding tune
tune-IsFit s = elim (Option-cases s.devices.discovery) [
  | inl off ↦ elim (Bool-cases (is_tuned s.tuning)) [
    | inl tuned ↦ rw (off, tuned, tune) tt
    | inr untuned ↦ rw (off, untuned, tune) (λ e. ground (arith, e, untuned))
  ]
  | inr (d, on) ↦ rw (on, tune) (λ _. refl)
]

-- What is tested when the block has been read.
pub finish-IsFit : (p : Parsers) (s : Settings) (c : Configured) → finish p s ≡ ok c → IsFit s c
unfolding configured make_cache
finish-IsFit p s c e =
    let (d, client, f, same) = finish-eq-ok p s c e in
    let tuned =
      IsOk-ok (λ x. is_tuned s.tuning ≡ true → is_some x ≡ true) (tune s) f.tuned (tune-IsFit s) in
    subst (IsFit s) (sym same) (record {
      cache_ttl = λ on. ground (arith, on, f.cached);
      discovery = tuned;
      reload = λ on. ground (arith, on, f.reloads);
      profile = ground (arith, f.named);
    })

-- A step that is refused in any state makes the fold fail.
fold_steps_refused :
    {E S A : Type 0} (step : S → A → Result E S) (l : List A) (s s' : S)
    → Any (λ a. (x y : S) → ¬ (step x a ≡ ok y)) l
    → ¬ (fold_steps step s l ≡ ok s')
unfolding fold_steps
fold_steps_refused step [] s s' h e = h
fold_steps_refused step (a ∷ l) s s' (inl bad) e =
    let (m, one, later) = >>=-eq-ok (step s a) (λ x. fold_steps step x l) e in bad s m one
fold_steps_refused step (a ∷ l) s s' (inr h) e =
    let (m, one, later) = >>=-eq-ok (step s a) (λ x. fold_steps step x l) e in
    fold_steps_refused step l m s' h later

module _ (p : Parsers) where
  abbrev pub IsUnknown : Text × List Text → Type 0
  IsUnknown a = Dict.get text_discrete a.0 (properties p) ≡ none

  set_property_unknown :
      (a : Text × List Text) → IsUnknown a → (s s' : Settings) → ¬ (set_property p s a ≡ ok s')
  unfolding set_property
  set_property_unknown a h s s' e = absurd (ground (arith, h, e))

  -- A block with a property that is not known, on any line and behind any others, is refused.
  pub parse_nextdns_unknown :
      (b : Block) (c : Configured)
      → Any (λ line. Any IsUnknown (line_properties line)) b.lines
      → ¬ (parse_nextdns p (b ∷ []) ≡ ok c)
  unfolding parse_nextdns read_block read_blocks read_line
  parse_nextdns_unknown b c h e =
      let (s, read, _) = >>=-eq-ok (read_block p new_settings b) (finish p) e in
      let (s', _, lines) =
        >>=-eq-ok (read_args p new_settings b.args) (λ x. fold_steps (read_line p) x b.lines)
          read in
      fold_steps_refused (read_line p) b.lines s' s
        (Any-weaken (λ line. Any IsUnknown (line_properties line))
          (λ line. (x y : Settings) → ¬ (read_line p x line ≡ ok y))
          (λ line bad x y. fold_steps_refused (set_property p) (line_properties line) x y (
            Any-weaken IsUnknown (λ a. (v w : Settings) → ¬ (set_property p v a ≡ ok w))
              set_property_unknown (line_properties line) bad))
          b.lines h)
        lines
