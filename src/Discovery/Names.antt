-- ===== src/Discovery/Names.antt =====
-- Where the names of discovery come from.
pub mod Table
use coredns_nextdns.Prelude.{
  ite, ◌+◌, ◌≡◌, ◌⊎◌, List, [], ◌∷◌, some, All, get_elem?, ◌&&◌, not, leb, length, is_some, ite,
  set,
}
use coredns_nextdns.Prelude.Text.{Text}
use coredns_nextdns.Prelude.Dict
use coredns_nextdns.Prelude.Dict.{Dict}
use coredns_nextdns.Addr.{Addr}
use coredns_nextdns.Discovery.{
  is_some, set, not, Discoverer, Lookup, Stage, resolving, storing, cleaning, recovering, releasing,
  finishing, found, Event, asks, advances, closes, Answer, reply, hold_on, step,
}

-- The name that a query gets at once; one that is held has none yet.
abbrev pub said : Answer → Text
said (reply name) = name
said (hold_on done) = []

module _ (P : Addr → Text → Type 0) where
  -- No name, or one that is the address's.
  abbrev pub IsFrom : Addr → Text → Type 0
  IsFrom addr name = (name ≡ []) ⊎ P addr name

  -- What the resolver says to a lookup that asks it is a name of the lookup's address.
  abbrev pub IsHonest : Discoverer → List Event → Type 0
  IsHonest d [] = Unit
  IsHonest d (asks may_hold now addr ∷ rest) = IsHonest (step d (asks may_hold now addr)) rest
  IsHonest d (advances r now choice i ∷ rest) =
      ((g : Lookup) (name : Text)
        → get_elem? d.running i ≡ some g
        → g.stage ≡ resolving
        → r ≡ found name
        → IsFrom g.addr name)
      × IsHonest (step d (advances r now choice i)) rest
  IsHonest d (closes ∷ rest) = IsHonest (step d closes) rest

  abbrev IsFromStage : Lookup → Stage → Type 0
  IsFromStage g (storing name ttl) = IsFrom g.addr name
  IsFromStage g resolving = Unit
  IsFromStage g (cleaning panic) = Unit
  IsFromStage g recovering = Unit
  IsFromStage g releasing = Unit
  IsFromStage g finishing = Unit

  -- Every name on record, and every name on its way there, is one of its address.
  record IsNamed (d : Discoverer) : Type 0 where
    entries : All (λ e. IsFrom e.0 e.1.name) d.entries
    running : All (λ g. IsFromStage g g.stage) d.running
