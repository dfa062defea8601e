-- ===== src/Plugin/Labels.antt =====
-- publish of nextdns.go: what the other plugins read of a query afterwards, in whatever order the
-- labels are set.
use mathlib.Core.List.{Permᴰ}
use coredns_nextdns.Prelude.{
  ◌≡◌, inl, inr, refl, sym, ◌∙◌, List, [], ◌∷◌, true, false, Option, some, All, Any, All-weaken, ap,
  arith, if◌then◌else◌, subst,
}
use coredns_nextdns.Prelude.Text.{Text, codes, is_empty, text_discrete, text_eq}
use coredns_nextdns.Prelude.Dict
use coredns_nextdns.Cache.{hit, absent, collided}
use coredns_nextdns.Device.{ClientInfo}
use coredns_nextdns.Plugin.{
  preceded, serve_found, serve_profile, look_up, text_eq, Libraries, NextDns, Query, published,
  route, serve_dns, identify, override, serve_profile, serve_found, preceded,
}
use coredns_nextdns.Plugin.Limits.{Found-cases, IsProfileQuery, serve_dns-profile}
use coredns_nextdns.Routing.{note_metadata}
use coredns_nextdns.Plugin.Publish
use coredns_nextdns.Plugin.Publish.{Metadata, profile_used, device_labels, set_labels, value_of}

-- The value of a label after it has been set to `v` if `v` is not empty.
unfoldable pub value_or : Text → Option Text → Option Text
value_or v before = if is_empty v then before else some v

-- Every pair for this label has this value.
abbrev Means : Text → Text → Text × Text → Type 0
Means label v x = x.0 ≡ label → x.1 ≡ v

abbrev Names : Text → Text × Text → Type 0
Names label x = x.0 ≡ label

set_labels-other :
    (label : Text) (ls : List (Text × Text)) (m : Metadata)
    → All (λ x. ¬ Names label x) ls
    → Dict.get text_discrete label (set_labels ls m) ≡ Dict.get text_discrete label m
unfolding set_labels
set_labels-other label [] m h = refl
set_labels-other label ((l, v) ∷ rest) m (h, hs) =
    set_labels-other label rest (if is_empty v then m else Dict.put text_discrete l v m) hs
    ∙ ground (arith, h, Dict.get-put text_discrete l label v m)

-- What a pair of this label does to the value of the label.
get-set_label :
    (label v l w : Text) (m : Metadata)
    → Means label v (l, w)
    → l ≡ label
    → Dict.get text_discrete label (if is_empty w then m else Dict.put text_discrete l w m)
      ≡ value_or v (Dict.get text_discrete label m)
unfolding value_or
get-set_label label v l w m h e = ground (arith, h e, e, Dict.get-put text_discrete l label w m)

set_labels_keeps :
    (label v : Text) (before : Option Text) (ls : List (Text × Text)) (m : Metadata)
    → All (Means label v) ls
    → Dict.get text_discrete label m ≡ value_or v before
    → Dict.get text_discrete label (set_labels ls m) ≡ value_or v before
unfolding set_labels value_or
set_labels_keeps label v before [] m h e = e
set_labels_keeps label v before ((l, w) ∷ rest) m (h, hs) e =
    set_labels_keeps label v before rest (if is_empty w then m else Dict.put text_discrete l w m) hs
      (elim (text_discrete l label) [
        | yes p ↦ ground (arith, get-set_label label v l w m h p, e)
        | no p ↦ ground (arith, p, e, Dict.get-put text_discrete l label w m)
      ])

get-set_labels :
    (label v : Text) (ls : List (Text × Text)) (m : Metadata)
    → All (Means label v) ls
    → Any (Names label) ls
    → Dict.get text_discrete label (set_labels ls m) ≡ value_or v (Dict.get text_discrete label m)
unfolding set_labels
get-set_labels label v [] m h n = elim n [ ]
get-set_labels label v ((l, w) ∷ rest) m (h, hs) n =
    let m' : Metadata = if is_empty w then m else Dict.put text_discrete l w m in
    elim (text_discrete l label) [
      | yes p ↦
          set_labels_keeps label v (Dict.get text_discrete label m) rest m' hs
            (get-set_label label v l w m h p)
      | no p ↦
          let later : Any (Names label) rest = elim n [ inl e ↦ absurd (p e) | inr r ↦ r ] in
          let same : Dict.get text_discrete label m' ≡ Dict.get text_discrete label m =
            ground (arith, p, Dict.get-put text_discrete l label w m) in
          get-set_labels label v rest m' hs later ∙ ap (value_or v) same
    ]

module _ {A : Type 0} (P : A → Type 0) where
  All-perm : {xs ys : List A} → Permᴰ xs ys → All P xs → All P ys
  All-perm Permᴰ.nil h = tt
  All-perm (Permᴰ.cons e p) (h, hs) = (subst P e h, All-perm p hs)
  All-perm (Permᴰ.swap e f) (h, (k, hs)) = (subst P f k, (subst P e h, hs))
  All-perm (Permᴰ.trans p q) h = All-perm q (All-perm p h)

  Any-perm : {xs ys : List A} → Permᴰ xs ys → Any P xs → Any P ys
  Any-perm Permᴰ.nil h = h
  Any-perm (Permᴰ.cons e p) (inl h) = inl (subst P e h)
  Any-perm (Permᴰ.cons e p) (inr h) = inr (Any-perm p h)
  Any-perm (Permᴰ.swap e f) (inl h) = inr (inl (subst P e h))
  Any-perm (Permᴰ.swap e f) (inr (inl h)) = inl (subst P f h)
  Any-perm (Permᴰ.swap e f) (inr (inr h)) = inr (inr h)
  Any-perm (Permᴰ.trans p q) h = Any-perm q (Any-perm p h)

differ : (a b : Text) → text_eq a b ≡ false → ¬ (a ≡ b)
differ a b h e = ground (arith, e, h)

-- Means, as a test on the pair's label decides it.
abbrev Meant : Text → Text → Text × Text → Type 0
Meant label v x = elim (text_discrete x.0 label) [ yes _ ↦ x.1 ≡ v | no _ ↦ Unit ]

Meant-Means : (label v : Text) (x : Text × Text) → Meant label v x → Means label v x
Meant-Means label v x h e = ground (arith, h, e)

-- What other plugins read of a query: its profile, and each known field of its device.
pub record IsPublished (before : Option Metadata) (profile : Text) (ci : ClientInfo)
    (after : Option Metadata) : Type 0 where
  pub profile_used : value_of Publish.profile_used after ≡ some profile
  pub device_id :
      value_of (codes "nextdns/device-id") after
      ≡ value_or ci.id (value_of (codes "nextdns/device-id") before)
  pub device_name :
      value_of (codes "nextdns/device-name") after
      ≡ value_or ci.name (value_of (codes "nextdns/device-name") before)
  pub device_model :
      value_of (codes "nextdns/device-model") after
      ≡ value_or ci.model (value_of (codes "nextdns/device-model") before)
  pub device_ip :
      value_of (codes "nextdns/device-ip") after
      ≡ value_or ci.ip (value_of (codes "nextdns/device-ip") before)

module _ (order : List (Text × Text) → List (Text × Text))
    (permutes : (l : List (Text × Text)) → Permᴰ l (order l)) where
  get-publish :
      (profile : Text) (ci : ClientInfo) (m : Metadata) (label v : Text)
      → All (Meant label v) (device_labels ci)
      → Any (Names label) (device_labels ci)
      → text_eq Publish.profile_used label ≡ false
      → value_of label (Publish.publish order profile ci (some m))
        ≡ value_or v (value_of label (some m))
  unfolding Publish.publish value_of
  get-publish profile ci m label v meant names other =
      let ls = device_labels ci in
      let m' = Dict.put text_discrete Publish.profile_used profile m in
      let means = All-weaken (Meant label v) (Means label v) (Meant-Means label v) ls meant in
      get-set_labels label v (order ls) m' (All-perm (Means label v) (permutes ls) means)
        (Any-perm (Names label) (permutes ls) names)
      ∙ ap (value_or v)
          (ground (arith, other, Dict.get-put text_discrete Publish.profile_used label profile m))

  publish-IsPublished :
      (profile : Text) (ci : ClientInfo) (m : Metadata)
      → IsPublished (some m) profile ci (Publish.publish order profile ci (some m))
  unfolding Publish.publish value_of device_labels text_discrete
  publish-IsPublished profile ci m = record {
    profile_used =
        let ls = device_labels ci in
        let other : Text × Text → Type 0 = λ x. text_eq x.0 Publish.profile_used ≡ false in
        let unnamed =
          All-weaken other (λ x. ¬ Names Publish.profile_used x)
            (λ x. differ x.0 Publish.profile_used) ls (refl, (refl, (refl, (refl, tt)))) in
        set_labels-other Publish.profile_used (order ls)
          (Dict.put text_discrete Publish.profile_used profile m)
          (All-perm (λ x. ¬ Names Publish.profile_used x) (permutes ls) unnamed)
        ∙ ground
            (arith, Dict.get-put text_discrete Publish.profile_used Publish.profile_used profile m);
    device_id =
        get-publish profile ci m (codes "nextdns/device-id") ci.id (refl, (tt, (tt, (tt, tt))))
          (inl refl) refl;
    device_name =
        get-publish profile ci m (codes "nextdns/device-name") ci.name (tt, (refl, (tt, (tt, tt))))
          (inr (inl refl)) refl;
    device_model =
        get-publish profile ci m (codes "nextdns/device-model") ci.model
          (tt, (tt, (refl, (tt, tt)))) (inr (inr (inl refl))) refl;
    device_ip =
        get-publish profile ci m (codes "nextdns/device-ip") ci.ip (tt, (tt, (tt, (refl, tt))))
          (inr (inr (inr (inl refl)))) refl;
  }

module _ (lib : Libraries) where
  -- The device that a profile query is put down to: the one that the lookup of its branch gives, held
  -- for a query that goes upstream and not held for one that the cache answers.
  unfoldable pub device_of : NextDns → Query → Text → ClientInfo
  device_of n q profile = elim (look_up lib n q profile) [
    | hit m ↦ (identify lib false n q profile).0
    | absent ↦ (identify lib true n q profile).0
    | collided ↦ (identify lib true n q profile).0
  ]

  serve_profile-metadata :
      (n : NextDns) (q : Query) (profile : Text)
      → (serve_profile lib n q profile).1.metadata ≡ published lib q profile (device_of n q profile)
  unfolding serve_profile serve_found device_of preceded
  serve_profile-metadata n q profile = elim (Found-cases (look_up lib n q profile)) [
    | inl (inl e) ↦ rw (serve_profile, device_of, e) refl
    | inl (inr e) ↦ rw (serve_profile, device_of, e) refl
    | inr (m, e) ↦ rw (serve_profile, device_of, e) refl
  ]

  -- After a query for a profile, answered from the cache or upstream, refused or failed, other
  -- plugins read its profile and each field that is known of its device, and the device labels that
  -- are not known are as they were; where the metadata plugin is on and `range` walks the labels
  -- in any order.
  pub serve_dns-IsPublished :
      (n : NextDns) (q : Query) (m : Metadata)
      → ((l : List (Text × Text)) → Permᴰ l (lib.label_order l))
      → IsProfileQuery lib n q
      → q.metadata ≡ some m
      → IsPublished
          (some m)
          (route lib n q)
          (device_of n q (route lib n q))
          (serve_dns lib n q).1.metadata
  unfolding published device_of look_up identify
  serve_dns-IsPublished n q m permutes p e =
      let profile = route lib n q in
      let ci = device_of n q profile in
      let written =
        ap (λ r. r.1.metadata) (serve_dns-profile lib n q p)
        ∙ serve_profile-metadata (record n { bad = note_metadata n.bad (override q) }) q profile
        ∙ ap (Publish.publish lib.label_order profile ci) e in
      subst (IsPublished (some m) profile ci) (sym written)
        (publish-IsPublished lib.label_order permutes profile ci m)
