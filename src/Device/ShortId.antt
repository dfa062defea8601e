-- ===== src/Device/ShortId.antt =====
-- shortID: the five characters of X-Device-Id. The hash (xxhash.Sum64) is a parameter.
use Prim.Native.Nat.{bit_xor}
use native.Mathlib.Nat.{pow-suc}
use coredns_nextdns.Prelude.{
  ℕ_discrete, ℕ, zero, suc, ◌+◌, ◌-◌, ◌*◌, ◌/◌, ◌%◌, ◌^◌, ◌≤◌, ◌<◌, ◌≡◌, ◌≢◌, ◌⊎◌, inl, inr, refl,
  ap, ◌∙◌, [], ◌∷◌, ◌++◌, map, Bool, true, ◌&&◌, length, length-append, length-replicate, take,
  replicate, All, All-append, All-replicate, subst, arith, Bool-cases, ltb→lt, leb, ltb, ◌==◌,
  if◌then◌else◌,
}
use coredns_nextdns.Prelude.Text.{Text}

-- The digit of strconv: 0-9, then a-z.
unfoldable pub digit : ℕ → ℕ
digit d = if ltb d 10 then b'0' + d else b'a' + (d - 10)

-- strconv.AppendUint in base 32, most significant digit first, with fuel for the digits.
unfoldable pub append_uint32 : ℕ → ℕ → Text
append_uint32 zero n = []
append_uint32 (suc fuel) n =
    let rest = append_uint32 fuel (n / 32) in
    if ltb n 32 then digit n ∷ [] else rest ++ digit (n % 32) ∷ []

-- buf[i] ^= 1 << 5, where buf[i] >= 'a'
unfoldable pub to_upper : ℕ → ℕ
to_upper c = if leb b'a' c then bit_xor c 32 else c

-- Zeros in front up to five characters, or the first five.
unfoldable pub five : Text → Text
five buf = if ltb (length buf) 5 then replicate (5 - length buf) b'0' ++ buf else take 5 buf

-- A 64-bit hash has at most 13 digits in base 32.
abbrev pub digit_fuel : ℕ
digit_fuel = 13

unfoldable pub short_id : (Text → ℕ) → Text → Text → Text
short_id sum64 profile [] = []
short_id sum64 profile (k ∷ key) =
    map to_upper (five (append_uint32 digit_fuel (sum64 (profile ++ k ∷ key))))

-- The number that a text of digits stands for.
pub digit_value : ℕ → ℕ
digit_value c = if ltb c b'a' then c - b'0' else c - b'a' + 10

pub value_from : ℕ → Text → ℕ
unfolding digit_value
value_from acc [] = acc
value_from acc (c ∷ t) = value_from (acc * 32 + digit_value c) t

value_from-append :
    (acc : ℕ) (t : Text) (c : ℕ)
    → value_from acc (t ++ c ∷ []) ≡ value_from acc t * 32 + digit_value c
unfolding value_from
value_from-append acc [] c = refl
value_from-append acc (x ∷ t) c = value_from-append (acc * 32 + digit_value x) t c

digit_value-digit : (d : ℕ) → d < 32 → digit_value (digit d) ≡ d
unfolding digit_value digit
digit_value-digit d h = ground arith

-- With fuel for its digits a number is written out whole: they read back as the number.
pub value-append_uint32 : (fuel n : ℕ) → n < 32 ^ fuel → value_from 0 (append_uint32 fuel n) ≡ n
unfolding append_uint32 value_from
value-append_uint32 zero n h = omega (arith, h)
value-append_uint32 (suc fuel) n h = elim (Bool-cases (ltb n 32)) [
  | inl small ↦ rw small (omega (arith, digit_value-digit n (ltb→lt n 32 small)))
  | inr large ↦
      rw (large, value_from-append)
        (omega (
          arith,
          digit_value-digit (n % 32),
          value-append_uint32 fuel (n / 32) (omega (arith, h, pow-suc 32 fuel)),
        ))
]

-- Upper-case base 32: 0-9 and A-V.
abbrev pub IsIdChar : ℕ → Type 0
IsIdChar c = ((b'0' ≤ c) × (c ≤ b'9')) ⊎ ((b'A' ≤ c) × (c ≤ b'V'))

-- The digits of strconv in base 32: 0-9 and a-v.
abbrev IsDigit : ℕ → Type 0
IsDigit c = ((b'0' ≤ c) × (c ≤ b'9')) ⊎ ((b'a' ≤ c) × (c ≤ b'v'))

digit-IsDigit : (d : ℕ) → d < 32 → IsDigit (digit d)
unfolding digit
digit-IsDigit d h = ground arith

append_uint32-IsDigit : (fuel n : ℕ) → All IsDigit (append_uint32 fuel n)
unfolding append_uint32
append_uint32-IsDigit zero n = tt
append_uint32-IsDigit (suc fuel) n =
    let last = digit-IsDigit (n % 32) (omega arith) in
    let rest =
      All-append IsDigit (append_uint32 fuel (n / 32)) (digit (n % 32) ∷ [])
        (append_uint32-IsDigit fuel (n / 32)) (last, tt) in
    ground (arith, rest, digit-IsDigit n)

take-IsDigit : (n : ℕ) (t : Text) → All IsDigit t → All IsDigit (take n t)
take-IsDigit zero t h = tt
take-IsDigit (suc n) [] h = tt
take-IsDigit (suc n) (c ∷ t) h = (h.0, take-IsDigit n t h.1)

length-take_long : (n : ℕ) (t : Text) → n ≤ length t → length (take n t) ≡ n
length-take_long zero t h = refl
length-take_long (suc n) [] h = absurd (omega arith)
length-take_long (suc n) (c ∷ t) h = ap suc (length-take_long n t (omega arith))

five_lem : (t : Text) → All IsDigit t → (length (five t) ≡ 5) × All IsDigit (five t)
unfolding five
five_lem t h = elim (Bool-cases (ltb (length t) 5)) [
  | inl short ↦ rw short (
    omega (
      arith,
      ltb→lt (length t) 5 short,
      length-append (replicate (5 - length t) b'0') t,
      length-replicate {A = ℕ} (5 - length t) b'0',
    ),
    All-append IsDigit (replicate (5 - length t) b'0') t
        (All-replicate IsDigit (5 - length t) b'0' (inl (omega arith, omega arith))) h,
  )
  | inr long ↦ rw long (length-take_long 5 t (ground arith), take-IsDigit 5 t h)
]

-- Whether flipping the bit takes 32 from each of the `n` letters from `c` on.
loses_bit : ℕ → ℕ → Bool
loses_bit zero c = true
loses_bit (suc n) c = (bit_xor c 32 + 32 == c) && loses_bit n (c + 1)

flip_letter : (n c x : ℕ) → loses_bit n c ≡ true → c ≤ x → x < c + n → bit_xor x 32 + 32 ≡ x
unfolding loses_bit
flip_letter zero c x h le lt = absurd (omega arith)
flip_letter (suc n) c x h le lt = elim (ℕ_discrete c x) [
  | yes p ↦ subst (λ y. bit_xor y 32 + 32 ≡ y) p (ground arith)
  | no q ↦ flip_letter n (c + 1) x (ground arith) (omega (arith, q)) (omega arith)
]

-- The digits behind 9 are the letters from a to v.
letters_lose_bit : loses_bit 22 b'a' ≡ true
unfolding loses_bit
letters_lose_bit = refl

to_upper-IsIdChar : (c : ℕ) → IsDigit c → IsIdChar (to_upper c)
unfolding to_upper
to_upper-IsIdChar c (inl h) = ground arith
to_upper-IsIdChar c (inr h) =
    let flipped = flip_letter 22 b'a' c letters_lose_bit (omega arith) (omega arith) in
    ground (arith, flipped)

map-IsIdChar : (t : Text) → All IsDigit t → All IsIdChar (map to_upper t)
map-IsIdChar [] h = tt
map-IsIdChar (c ∷ t) h = (to_upper-IsIdChar c h.0, map-IsIdChar t h.1)

length-map_upper : (t : Text) → length (map to_upper t) ≡ length t
length-map_upper [] = refl
length-map_upper (c ∷ t) = ap suc (length-map_upper t)

-- An ID is empty exactly for an empty key, and is otherwise five characters out of 0-9 and A-V,
-- whatever the hash.
pub short_id_lem :
    (sum64 : Text → ℕ) (profile key : Text)
    → ((key ≡ []) × (short_id sum64 profile key ≡ []))
      ⊎ ((key ≢ [])
          × (length (short_id sum64 profile key) ≡ 5)
          × All IsIdChar (short_id sum64 profile key))
unfolding short_id
short_id_lem sum64 profile [] = inl (refl, refl)
short_id_lem sum64 profile (k ∷ key) =
    let buf = append_uint32 digit_fuel (sum64 (profile ++ k ∷ key)) in
    let (five_long, digits) =
      five_lem buf (append_uint32-IsDigit digit_fuel (sum64 (profile ++ k ∷ key))) in
    inr (λ e. cc, length-map_upper (five buf) ∙ five_long, map-IsIdChar (five buf) digits)
