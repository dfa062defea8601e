-- ===== src/Prelude/Fields.antt =====
-- What the program takes of Go's strings and bufio packages: white space, fields, prefixes and
-- suffixes of strings, splitting and joining, and the lines of a scanner.
pub mod Join
use coredns_nextdns.Prelude.Text.{Text, codes, text_eq, is_empty}
use coredns_nextdns.Prelude.Lists.{length}
use coredns_nextdns.Prelude.Tests.{◌==◌, if◌then◌else◌, leb, ltb}
use Prim.Native.Nat.{ℕ, zero, suc, ◌+◌, ◌-◌}
use mathlib.Core.Bool.{Bool, true, false, ◌&&◌, ◌||◌}
use mathlib.Core.List.{List, [], ◌∷◌, ◌++◌}
use mathlib.Core.Option.{Option, none, some}
use mathlib.Core.Path.{◌≡◌, refl}

wide_space : ℕ → Text → ℕ
wide_space a [] = 0
wide_space a (b ∷ []) = if a == 0xC2 && (b == 0x85 || b == 0xA0) then 2 else 0
wide_space a (b ∷ c ∷ t) =
    if a == 0xC2 && (b == 0x85 || b == 0xA0)
    then 2
    else if (a == 0xE1 && b == 0x9A && c == 0x80)
        || (a == 0xE2
            && b == 0x80
            && (leb 0x80 c && leb c 0x8A || c == 0xA8 || c == 0xA9 || c == 0xAF))
        || (a == 0xE2 && b == 0x81 && c == 0x9F)
        || (a == 0xE3 && b == 0x80 && c == 0x80)
    then 3
    else 0

-- How many bytes the white space at the front of a string takes, 0 if there is none there: tab to
-- carriage return and the space, and U+0085, U+00A0, U+1680, U+2000 to U+200A, U+2028, U+2029,
-- U+202F, U+205F, U+3000 in UTF-8.
unfoldable pub space_size : Text → ℕ
unfolding wide_space
space_size [] = 0
space_size (a ∷ t) = if (leb 9 a && leb a 13) || a == 32 then 1 else wide_space a t

-- The loop of Fields: `skip` counts the bytes that belong to the white space before, and `word` is
-- the field so far.
fields_from : ℕ → Text → Text → List Text
unfolding space_size
fields_from skip word [] = if is_empty word then [] else word ∷ []
fields_from (suc k) word (c ∷ t) = fields_from k word t
fields_from zero word (c ∷ t) = elim (space_size (c ∷ t)) [
  | zero ↦ fields_from zero (word ++ c ∷ []) t
  | suc k ↦ let rest = fields_from k [] t in if is_empty word then rest else word ∷ rest
]

-- strings.Fields
unfoldable pub fields : Text → List Text
unfolding fields_from
fields t = fields_from zero [] t

trim_from : ℕ → Text → Text
unfolding space_size
trim_from skip [] = []
trim_from (suc k) (c ∷ t) = trim_from k t
trim_from zero (c ∷ t) = elim (space_size (c ∷ t)) [ zero ↦ c ∷ t | suc k ↦ trim_from k t ]

-- Leading white space removed.
unfoldable pub trim_left : Text → Text
unfolding trim_from
trim_left t = trim_from zero t

-- Trailing white space removed: what is only white space from some byte on.
unfoldable pub trim_end : Text → Text
unfolding trim_left
trim_end [] = []
trim_end (c ∷ t) = let rest = c ∷ trim_end t in if is_empty (trim_left (c ∷ t)) then [] else rest

-- strings.TrimSpace
unfoldable pub trim_space : Text → Text
unfolding trim_end
trim_space t = trim_end (trim_left t)

-- strings.HasPrefix, the prefix first
unfoldable pub has_prefix : Text → Text → Bool
has_prefix [] t = true
has_prefix (c ∷ p) [] = false
has_prefix (c ∷ p) (d ∷ t) = c == d && has_prefix p t

-- strings.HasSuffix, the suffix first
unfoldable pub has_suffix : Text → Text → Bool
has_suffix s [] = is_empty s
has_suffix s (c ∷ t) = text_eq s (c ∷ t) || has_suffix s t

drop_bytes : ℕ → Text → Text
drop_bytes zero t = t
drop_bytes (suc n) [] = []
drop_bytes (suc n) (c ∷ t) = drop_bytes n t

take_bytes : ℕ → Text → Text
take_bytes zero t = []
take_bytes (suc n) [] = []
take_bytes (suc n) (c ∷ t) = c ∷ take_bytes n t

-- strings.TrimPrefix
unfoldable pub trim_prefix : Text → Text → Text
unfolding has_prefix drop_bytes
trim_prefix p t = if has_prefix p t then drop_bytes (length p) t else t

-- strings.TrimSuffix
unfoldable pub trim_suffix : Text → Text → Text
unfolding has_suffix take_bytes
trim_suffix s t = if has_suffix s t then take_bytes (length t - length s) t else t

-- The part before the first byte `c`, or all.
unfoldable pub before_byte : ℕ → Text → Text
before_byte c [] = []
before_byte c (x ∷ t) = let rest = x ∷ before_byte c t in if x == c then [] else rest

-- The part behind the first byte `c`, or nothing.
unfoldable pub after_byte : ℕ → Text → Text
after_byte c [] = []
after_byte c (x ∷ t) = let rest = after_byte c t in if x == c then t else rest

-- strings.Contains and strings.IndexByte(...) >= 0, for one byte
unfoldable pub has_byte : ℕ → Text → Bool
has_byte c [] = false
has_byte c (x ∷ t) = x == c || has_byte c t

unfoldable pub split_from : ℕ → Text → Text → List Text
split_from c word [] = word ∷ []
split_from c word (x ∷ t) = elim (x == c) [
  | true ↦ word ∷ split_from c [] t
  | false ↦ split_from c (word ++ x ∷ []) t
]

-- strings.Split at one byte
unfoldable pub split : ℕ → Text → List Text
unfolding split_from
split c t = split_from c [] t

-- strings.Join with one byte
unfoldable pub join : ℕ → List Text → Text
join c [] = []
join c (w ∷ []) = w
join c (w ∷ v ∷ words) = w ++ c ∷ join c (v ∷ words)

-- bufio.MaxScanTokenSize
abbrev pub max_scan_token_size : ℕ
max_scan_token_size = 65536

-- A line without its end: a carriage return before the newline goes too.
unfoldable pub drop_cr : Text → Text
drop_cr [] = []
drop_cr (c ∷ []) = if c == 13 then [] else c ∷ []
drop_cr (c ∷ d ∷ t) = c ∷ drop_cr (d ∷ t)

-- The loop of a scanner: `line` is the line so far and `size` its length. The flag says that a line
-- was too long for the scanner's buffer, which ends the scan.
scan_from : Text → ℕ → Text → List Text × Bool
unfolding drop_cr
scan_from line size [] = if is_empty line then ([], false) else (drop_cr line ∷ [], false)
scan_from line size (c ∷ t) = elim (c == 10) [
  | true ↦ let (rest, long) = scan_from [] 0 t in (drop_cr line ∷ rest, long)
  | false ↦
      let more = scan_from (line ++ c ∷ []) (size + 1) t in
      if leb max_scan_token_size (size + 1) then ([], true) else more
]

-- The lines that a bufio.Scanner gives before it stops, and whether a line was too long.
unfoldable pub scan_lines : Text → List Text × Bool
unfolding scan_from
scan_lines t = scan_from [] 0 t
