-- ===== src/Device/Name.antt =====
-- normalizeName: a discovered hostname reduced to what may stand in the X-Device-Name header.
pub mod Shape
use coredns_nextdns.Prelude.{
  ℕ, zero, suc, ◌+◌, List, [], ◌∷◌, ◌++◌, Bool, true, false, not, ◌&&◌, ◌||◌, Option, none, some,
  length, take, leb, ltb, ◌==◌, if◌then◌else◌,
}
use coredns_nextdns.Prelude.Text.{Text, index_byte, trim_right}
use coredns_nextdns.Device.Utf8.{runes}

abbrev pub max_name_len : ℕ
max_name_len = 63

-- a-z, A-Z or 0-9
unfoldable pub is_alnum : ℕ → Bool
is_alnum r =
    (leb b'a' r && leb r b'z') || ((leb b'A' r && leb r b'Z') || (leb b'0' r && leb r b'9'))

-- One round of the loop: what is written, and `dash`.
unfoldable pub write_rune : Text → Bool → ℕ → Text × Bool
write_rune b dash r =
    if is_alnum r
    then (b ++ r ∷ [], false)
    else if not dash && ltb 0 (length b)
    then (b ++ b'-' ∷ [], true)
    else (b, dash)

-- The loop over the runes, which breaks when the name is long enough.
unfoldable pub write_runes : Text → Bool → List ℕ → Text
write_runes b dash [] = b
write_runes b dash (r ∷ rs) =
    let (b', dash') = write_rune b dash r in
    let rest = write_runes b' dash' rs in if leb max_name_len (length b') then b' else rest

-- "laptop.lan" is reported as "laptop".
unfoldable pub drop_domain : Text → Text
drop_domain name = elim (index_byte name b'.') [
  | none ↦ name
  | some i ↦ if ltb 0 i then take i name else name
]

unfoldable pub normalize_name : Text → Text
normalize_name [] = []
normalize_name (c ∷ t) = trim_right b'-' (write_runes [] false (runes (drop_domain (c ∷ t))))
