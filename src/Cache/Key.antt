-- ===== src/Cache/Key.antt =====
-- What the hashed bytes of a cache key determine.
use coredns_nextdns.Prelude.{
  ℕ, ◌<◌, ◌≡◌, ◌≢◌, refl, ap, [], ◌∷◌, ◌++◌, Bool, arith, All, length, length-append,
}
use coredns_nextdns.Prelude.Text.{Text}
use coredns_nextdns.Dns.{Request}
use coredns_nextdns.Cache.{big_endian16, flag_bits, key_bytes}

-- No NUL byte: so is every profile ID, and the passthrough "-".
abbrev pub LacksNul : Text → Type 0
LacksNul = All (λ c. c ≢ 0)

-- A NUL ends the profile: two such texts split at the same place.
split_at_nul :
    (p q r s : Text) → LacksNul p → LacksNul q → p ++ 0 ∷ r ≡ q ++ 0 ∷ s → (p ≡ q) × (r ≡ s)
split_at_nul [] [] r s hp hq e = (refl, cc)
split_at_nul [] (y ∷ q) r s hp hq e = absurd (hq.0 (cc))
split_at_nul (x ∷ p) [] r s hp hq e = absurd (hp.0 (cc))
split_at_nul (x ∷ p) (y ∷ q) r s hp hq e =
    let (e₁, e₂) = split_at_nul p q r s hp.1 hq.1 (cc) in (cc, e₂)

-- Two texts of one length at the end split at the same place.
split_at_length : (p q r s : Text) → length r ≡ length s → p ++ r ≡ q ++ s → (p ≡ q) × (r ≡ s)
split_at_length [] [] r s h e = (refl, e)
split_at_length [] (y ∷ q) r s h e =
    absurd (omega (arith, ap length e, length-append {0} (y ∷ q) s))
split_at_length (x ∷ p) [] r s h e =
    absurd (omega (arith, ap length e, length-append {0} (x ∷ p) r))
split_at_length (x ∷ p) (y ∷ q) r s h e = let (e₁, e₂) = split_at_length p q r s h (cc) in (cc, e₂)

flag_bits-injective : (a b c d : Bool) → flag_bits a b ≡ flag_bits c d → (a ≡ c) × (b ≡ d)
unfolding flag_bits
flag_bits-injective a b c d h = ground arith

-- The four bytes of type and class, and the flags.
tail-injective :
    (x y z w f g : ℕ)
    → x < 65536
    → y < 65536
    → z < 65536
    → w < 65536
    → big_endian16 x ++ (big_endian16 y ++ f ∷ []) ≡ big_endian16 z ++ (big_endian16 w ++ g ∷ [])
    → (x ≡ z) × (y ≡ w) × (f ≡ g)
unfolding big_endian16
tail-injective x y z w f g h₁ h₂ h₃ h₄ e = ground arith

-- The hashed bytes tell two questions apart: if they agree for two profiles without a NUL byte and
-- 16-bit types and classes, then so do the profile, the name, the type, the class and both flags.
pub key_bytes-injective :
    (p q : Text) (a b : Request)
    → LacksNul p
    → LacksNul q
    → a.qtype < 65536
    → a.qclass < 65536
    → b.qtype < 65536
    → b.qclass < 65536
    → key_bytes p a ≡ key_bytes q b
    → (p ≡ q)
      × (a.name ≡ b.name)
      × (a.qtype ≡ b.qtype)
      × (a.qclass ≡ b.qclass)
      × (a.dnssec_ok ≡ b.dnssec_ok)
      × (a.req.checking_disabled ≡ b.req.checking_disabled)
unfolding key_bytes big_endian16
key_bytes-injective p q a b hp hq h₁ h₂ h₃ h₄ e =
    let (ep, er) = split_at_nul p q _ _ hp hq e in
    let (en, et) = split_at_length a.name b.name _ _ refl er in
    let (ex, ey, ef) = tail-injective a.qtype a.qclass b.qtype b.qclass _ _ h₁ h₂ h₃ h₄ et in
    let (eo, ec) = flag_bits-injective _ _ _ _ ef in (ep, en, ex, ey, eo, ec)
