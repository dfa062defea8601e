-- ===== src/Device/Utf8.antt =====
-- The runes of a Go string, as `range` walks them: an invalid byte is one U+FFFD.
use coredns_nextdns.Prelude.{
  ℕ, zero, suc, ◌+◌, ◌-◌, ◌*◌, ◌%◌, ◌<◌, ◌≡◌, refl, List, [], ◌∷◌, Bool, ◌&&◌, arith, All, leb, ltb,
  if◌then◌else◌,
}
use coredns_nextdns.Prelude.Text.{Text}

in_range : ℕ → ℕ → ℕ → Bool
in_range lo hi b = leb lo b && leb b hi

-- utf8.RuneError, of one byte
abbrev rune_error : ℕ × ℕ
rune_error = (0xFFFD, 1)

decode2 : ℕ → Text → ℕ × ℕ
unfolding in_range
decode2 a (b ∷ t) = if in_range 0x80 0xBF b then (a % 32 * 64 + b % 64, 2) else rune_error
decode2 a [] = rune_error

decode3 : ℕ → Text → ℕ × ℕ
unfolding in_range
decode3 a (b ∷ c ∷ t) =
    let lo = if leb a 0xE0 then 0xA0 else 0x80 in
    let hi = if in_range 0xED 0xED a then 0x9F else 0xBF in
    if in_range lo hi b && in_range 0x80 0xBF c
    then (a % 16 * 4096 + b % 64 * 64 + c % 64, 3)
    else rune_error
decode3 a _ = rune_error

decode4 : ℕ → Text → ℕ × ℕ
unfolding in_range
decode4 a (b ∷ c ∷ d ∷ t) =
    let lo = if leb a 0xF0 then 0x90 else 0x80 in
    let hi = if leb 0xF4 a then 0x8F else 0xBF in
    if in_range lo hi b && (in_range 0x80 0xBF c && in_range 0x80 0xBF d)
    then (a % 8 * 262144 + b % 64 * 4096 + c % 64 * 64 + d % 64, 4)
    else rune_error
decode4 a _ = rune_error

-- The rune at the front of a text that begins with `a`, and how many bytes it takes.
decode_rune : ℕ → Text → ℕ × ℕ
unfolding decode2 decode3 decode4
decode_rune a t =
    if ltb a 0x80
    then (a, 1)
    else if ltb a 0xC2
    then rune_error
    else if ltb a 0xE0
    then decode2 a t
    else if ltb a 0xF0
    then decode3 a t
    else if ltb a 0xF5
    then decode4 a t
    else rune_error

-- `skip` counts the bytes that belong to the rune before.
runes_from : ℕ → Text → List ℕ
unfolding decode_rune
runes_from skip [] = []
runes_from (suc k) (a ∷ t) = runes_from k t
runes_from zero (a ∷ t) = let (r, size) = decode_rune a t in r ∷ runes_from (size - 1) t

unfoldable pub runes : Text → List ℕ
unfolding runes_from
runes t = runes_from 0 t

-- The runes of an ASCII text are its bytes.
pub runes_of_ascii : (t : Text) → All (λ c. c < 0x80) t → runes t ≡ t
unfolding runes decode_rune
runes_of_ascii [] h = refl
runes_of_ascii (a ∷ t) h = ground (arith, h.0, runes_of_ascii t h.1)

e_acute : runes (0x63 ∷ 0xC3 ∷ 0xA9 ∷ 0xC3 ∷ []) ≡ 0x63 ∷ 0xE9 ∷ 0xFFFD ∷ []
unfolding runes
e_acute = refl
