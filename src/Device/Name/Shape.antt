-- ===== src/Device/Name/Shape.antt =====
-- What normalizeName returns: the accepted alphabet, single inner dashes, at most 63 bytes.
use coredns_nextdns.Prelude.{
  ℕ, ◌+◌, ◌≤◌, ◌<◌, ◌≡◌, ◌⊎◌, inl, inr, refl, ◌∙◌, List, [], ◌∷◌, ◌++◌, Bool, true, false, not,
  ◌&&◌, ◌||◌, Option, none, some, length, length-append, All, leb, ◌==◌, if◌then◌else◌, arith,
  append_assoc, Bool-cases, append-nil,
}
use coredns_nextdns.Prelude.Text.{Text, index_byte, trim_right}
use coredns_nextdns.Device.Utf8.{runes, runes_of_ascii}
use coredns_nextdns.Device.Name.{
  max_name_len, is_alnum, write_rune, write_runes, drop_domain, normalize_name,
}

-- A reader of names: letters and digits may stand anywhere, a dash only where `stop` is false, and
-- `stop` is true at the front and behind a dash.
unfoldable pub scan : Bool → Text → Option Bool
unfolding is_alnum
scan stop [] = some stop
scan stop (c ∷ t) =
    let after = scan (not (is_alnum c)) t in
    if is_alnum c || (c == b'-' && not stop) then after else none

-- The empty name, or letters and digits with single dashes between them; at most 63 bytes.
pub record IsDeviceName (t : Text) : Type 0 where
  pub short : length t ≤ max_name_len
  pub accepted : (t ≡ []) ⊎ (scan true t ≡ some false)

scan-append :
    (stop : Bool) (t : Text) (c : ℕ)
    → scan stop (t ++ c ∷ []) ≡ (elim (scan stop t) [ none ↦ none | some s ↦ scan s (c ∷ []) ])
unfolding scan
scan-append stop [] c = refl
scan-append stop (x ∷ t) c = ground (arith, scan-append (not (is_alnum x)) t c)

-- What the loop keeps: the text so far is read, and `stop` is its `dash` or the front.
record IsWritten (b : Text) (dash : Bool) : Type 0 where
  read : scan true b ≡ some (dash || length b == 0)
  short : length b < max_name_len

write_rune-scan :
    (b : Text) (dash : Bool) (r : ℕ)
    → IsWritten b dash
    → (scan true (write_rune b dash r).0
        ≡ some ((write_rune b dash r).1 || length (write_rune b dash r).0 == 0))
      × (length (write_rune b dash r).0 ≤ max_name_len)
unfolding write_rune scan
write_rune-scan b dash r h = ground (
  arith,
  scan-append true b r,
  scan-append true b b'-',
  length-append b (r ∷ []),
  length-append b (b'-' ∷ []),
)

write_runes-scan :
    (b : Text) (dash : Bool) (rs : List ℕ)
    → IsWritten b dash
    → (s : Bool) × (scan true (write_runes b dash rs) ≡ some s)
      × (length (write_runes b dash rs) ≤ max_name_len)
unfolding write_runes
write_runes-scan b dash [] h = (dash || length b == 0, h.read, omega (arith, h.short))
write_runes-scan b dash (r ∷ rs) h =
    let (read, short) = write_rune-scan b dash r h in
    let (b', dash') = write_rune b dash r in
    elim (Bool-cases (leb max_name_len (length b'))) [
      | inl full ↦ rw full (dash' || length b' == 0, read, short)
      | inr room ↦
          rw room (write_runes-scan b' dash' rs (record { read = read; short = ground arith }))
    ]

trim_right-scan :
    (stop s : Bool) (t : Text)
    → scan stop t ≡ some s
    → (trim_right b'-' t ≡ []) ⊎ (scan stop (trim_right b'-' t) ≡ some false)
unfolding scan trim_right
trim_right-scan stop s [] h = inl refl
trim_right-scan stop s (c ∷ t) h = ground (arith, trim_right-scan (not (is_alnum c)) s t)

length-trim_right : (c : ℕ) (t : Text) → length (trim_right c t) ≤ length t
unfolding trim_right
length-trim_right c [] = omega arith
length-trim_right c (x ∷ t) = ground (arith, length-trim_right c t)

-- Every name, whatever its bytes, is reduced to one that a header can carry.
pub normalize_name-IsDeviceName : (name : Text) → IsDeviceName (normalize_name name)
unfolding normalize_name
normalize_name-IsDeviceName [] = record { short = omega arith; accepted = inl refl }
normalize_name-IsDeviceName (c ∷ t) =
    let start : IsWritten [] false = record { read = unfold scan in refl; short = omega arith } in
    let rs = runes (drop_domain (c ∷ t)) in
    let (s, read, short) = write_runes-scan [] false rs start in
    record {
      short = omega (arith, short, length-trim_right b'-' (write_runes [] false rs));
      accepted = trim_right-scan true s (write_runes [] false rs) read;
    }

scan-ascii :
    (stop s : Bool) (t : Text)
    → scan stop t ≡ some s
    → All (λ c. c < 0x80) t × (index_byte t b'.' ≡ none)
unfolding scan index_byte
scan-ascii stop s [] h = (tt, refl)
scan-ascii stop s (c ∷ t) h = ground (arith, scan-ascii (not (is_alnum c)) s t)

nil_of_length : (t : Text) → length t ≡ 0 → t ≡ []
nil_of_length [] h = refl
nil_of_length (c ∷ t) h = absurd (omega arith)

-- A character that the reader accepts is written as it is.
write_rune-scan_self :
    (b : Text) (dash s : Bool) (c : ℕ) (t : Text)
    → scan (dash || length b == 0) (c ∷ t) ≡ some s
    → (write_rune b dash c ≡ (b ++ c ∷ [], not (is_alnum c))) × (scan (not (is_alnum c)) t ≡ some s)
unfolding write_rune scan
write_rune-scan_self b dash s c t h = (ground arith, ground arith)

scan_inside :
    (n : ℕ) (stop : Bool) (t : Text) {s : Bool}
    → 0 < n
    → scan stop t ≡ some s
    → scan (stop || n == 0) t ≡ some s
scan_inside n stop t pos h = ground arith

-- So a text that the reader accepts is copied.
write_runes-scan_self :
    (b : Text) (dash s : Bool) (t : Text)
    → scan (dash || length b == 0) t ≡ some s
    → length b + length t ≤ max_name_len
    → write_runes b dash t ≡ b ++ t
unfolding write_runes scan
write_runes-scan_self b dash s [] h short = rw append-nil
write_runes-scan_self b dash s (c ∷ t) h short =
    let (written, read) = write_rune-scan_self b dash s c t h in
    let grown = length-append b (c ∷ []) in
    elim (Bool-cases (leb max_name_len (length (b ++ c ∷ [])))) [
      | inl full ↦ rw (written, full, nil_of_length t (ground arith))
      | inr room ↦
          rw (written, room)
            (write_runes-scan_self (b ++ c ∷ []) (not (is_alnum c)) s t
                (scan_inside (length (b ++ c ∷ [])) (not (is_alnum c)) t (omega arith) read)
                (omega arith)
              ∙ append_assoc b (c ∷ []) t)
    ]

trim_right-scan_self : (stop : Bool) (t : Text) → scan stop t ≡ some false → trim_right b'-' t ≡ t
unfolding scan trim_right
trim_right-scan_self stop [] h = refl
trim_right-scan_self stop (c ∷ t) h = ground (arith, trim_right-scan_self (not (is_alnum c)) t)

undotted : (t : Text) → index_byte t b'.' ≡ none → drop_domain t ≡ t
unfolding drop_domain
undotted t h = ground arith

IsDeviceName-normalized : (t : Text) → IsDeviceName t → normalize_name t ≡ t
unfolding normalize_name
IsDeviceName-normalized [] h = refl
IsDeviceName-normalized (c ∷ t) h = elim h.accepted [
  | inl e ↦ cc
  | inr read ↦
      let (ascii, no_dot) = scan-ascii true false (c ∷ t) read in
      rw
        (
          undotted (c ∷ t) no_dot,
          runes_of_ascii (c ∷ t) ascii,
          write_runes-scan_self [] false false (c ∷ t) read (omega (arith, h.short)),
        )
        (trim_right-scan_self true (c ∷ t) read)
]

-- Normalising twice changes nothing more.
pub normalize_name_idem : (name : Text) → normalize_name (normalize_name name) ≡ normalize_name name
normalize_name_idem name =
    IsDeviceName-normalized (normalize_name name) (normalize_name-IsDeviceName name)
