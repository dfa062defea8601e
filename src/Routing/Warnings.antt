-- ===== src/Routing/Warnings.antt =====
-- The counter of invalid metadata values and the warning of badProfile, over many queries.
use coredns_nextdns.Prelude.{
  ℕ, ◌+◌, ◌≡◌, refl, List, [], ◌∷◌, false, Option, arith, ltb, if◌then◌else◌,
}
use coredns_nextdns.Prelude.Text.{Text}
use coredns_nextdns.Routing.{BadProfiles, is_rejected, note_metadata}

-- A new instance.
abbrev pub unwarned : BadProfiles
unwarned = record { count = 0; warned = false; warnings = 0 }

-- The metadata values of the queries in turn.
unfoldable pub notes : BadProfiles → List (Option Text) → BadProfiles
notes b [] = b
notes b (v ∷ values) = notes (note_metadata b v) values

-- How many of the values are neither missing, nor empty, nor valid routes.
unfoldable pub rejected : List (Option Text) → ℕ
rejected [] = 0
rejected (v ∷ values) = let rest = rejected values in if is_rejected v then rest + 1 else rest

-- What holds between queries.
record IsConsistent (b : BadProfiles) : Type 0 where
  warned : b.warned ≡ ltb 0 b.count
  once : b.warnings ≡ (if b.warned then 1 else 0)

note_metadata-IsConsistent :
    (b : BadProfiles) (v : Option Text) → IsConsistent b → IsConsistent (note_metadata b v)
unfolding note_metadata
note_metadata-IsConsistent b v h = record {
  warned = ground (arith, h.warned);
  once = ground (arith, h.warned, h.once);
}

notes-IsConsistent :
    (b : BadProfiles) (values : List (Option Text)) → IsConsistent b → IsConsistent (notes b values)
unfolding notes
notes-IsConsistent b [] h = h
notes-IsConsistent b (v ∷ values) h =
    notes-IsConsistent (note_metadata b v) values (note_metadata-IsConsistent b v h)

count-notes :
    (b : BadProfiles) (values : List (Option Text))
    → (notes b values).count ≡ b.count + rejected values
unfolding notes rejected note_metadata
count-notes b [] = ground arith
count-notes b (v ∷ values) = ground (arith, count-notes (note_metadata b v) values)

-- Over any queries to a new instance every invalid metadata value is counted, and the warning is
-- logged exactly once if there was one and not at all if there was none.
pub warnings-notes :
    (values : List (Option Text))
    → ((notes unwarned values).count ≡ rejected values)
      × ((notes unwarned values).warnings ≡ (if ltb 0 (rejected values) then 1 else 0))
warnings-notes values =
    let h = notes-IsConsistent unwarned values (record { warned = refl; once = refl }) in
    ground (arith, count-notes unwarned values, h.warned, h.once)
