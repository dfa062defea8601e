-- ===== src/Config/Subnets.antt =====
-- The subnets of an accepted configuration: those of its client_profile lines, and which of them
-- decides for a client.
pub mod Keeps
pub mod Lines
use coredns_nextdns.Prelude.{
  Bool-cases, ℕ_discrete, if◌then◌else◌, ◌≡◌, ◌⊎◌, inl, inr, refl, sym, ap, ◌∙◌, subst, List, [],
  ◌∷◌, ◌++◌, append_assoc, append-nil, true, false, Bool, Option, none, some, All, arith,
  Option-cases,
}
use coredns_nextdns.Prelude.Text.{Text, codes, text_eq, text_discrete}
use coredns_nextdns.Prelude.Result.{
  check, Result, ok, err, ◌>>=◌, IsOk, IsOk-ok, any-IsOk, check-IsOk, from_option-IsOk, >>=-eq-ok,
  fold_steps,
}
use coredns_nextdns.Prelude.Dict
use coredns_nextdns.Prelude.Dict.{Dict}
use coredns_nextdns.Addr.{Addr}
use coredns_nextdns.Routing.{valid_route, ClientProfile, parse_prefix, first_match, sort_longest}
use coredns_nextdns.Routing.Longest.{best, first_match-sort}
use coredns_nextdns.Config.{invalid_profile, invalid_prefix, Parsers, Block, Settings, new_settings}
use coredns_nextdns.Config.Property.{Outcome, set_client_profile, two_args}
use coredns_nextdns.Config.Parse.{
  configured, Configured, properties, set_property, line_properties, read_line, read_args,
  read_block, read_blocks, finish, parse_nextdns,
}
use coredns_nextdns.Config.Finish.{IsFinished, finish-eq-ok}
use coredns_nextdns.Config.Subnets.Keeps
use coredns_nextdns.Config.Subnets.Keeps.{IsSame}
use coredns_nextdns.Config.Subnets.Lines.{
  flat_map, subnets_of_line, Adds, fold_steps-Adds, read_line-Adds,
}

module _ (p : Parsers) where
  pub read_args-IsSame : (s : Settings) (args : List Text) → IsOk (IsSame s) (read_args p s args)
  unfolding read_args
  read_args-IsSame s [] = (refl, ((λ h. h), (λ h. h), (λ h. h)))
  read_args-IsSame s (v ∷ []) = Keeps.set_profile-IsSame p s (v ∷ [])
  read_args-IsSame s (v ∷ w ∷ rest) = tt

  -- Which subnet decides for a client under an accepted configuration: of the client_profile lines
  -- whose subnet contains the address the one with the longest prefix, and among equally long ones
  -- the first in the block, whatever properties stand between them.
  pub first_match-parse_nextdns :
      (b : Block) (c : Configured) (ip : Addr)
      → parse_nextdns p (b ∷ []) ≡ ok c
      → first_match ip c.handler.routes.client_profiles
        ≡ best ip (flat_map (subnets_of_line p) b.lines)
  unfolding parse_nextdns read_blocks read_block new_settings configured
  first_match-parse_nextdns b c ip e =
      let (s, read, finished) = >>=-eq-ok (read_block p new_settings b) (finish p) e in
      let (s', args, lines) =
        >>=-eq-ok (read_args p new_settings b.args) (λ x. fold_steps (read_line p) x b.lines)
          read in
      let (d, client, f, same) = finish-eq-ok p s c finished in
      let none_yet =
        IsOk-ok (IsSame new_settings) (read_args p new_settings b.args) args
          (read_args-IsSame new_settings b.args) in
      let added =
        fold_steps-Adds (read_line p) (subnets_of_line p) (read_line-Adds p) s' s b.lines lines in
      let all : s.routes.client_profiles ≡ flat_map (subnets_of_line p) b.lines =
        added ∙ ap (λ l. l ++ flat_map (subnets_of_line p) b.lines) none_yet.0 in
      ap (λ (x : Configured). first_match ip x.handler.routes.client_profiles) same
      ∙ first_match-sort ip s.routes.client_profiles
      ∙ ap (best ip) all
