-- ===== src/Prelude/Result.antt =====
-- Fallible code: a value, or an error of the component's own type.
use mathlib.Core.Path.{subst, ◌≡◌, refl}
use mathlib.Core.List.{List, [], ◌∷◌}
use mathlib.Core.Bool.{Bool, true, false}
use mathlib.Core.Option.{Option, none, some}
use native.Mathlib.Omega.{arith}

pub data Result (E A : Type 0) : Type 0 where
  err : E → Result E A
  ok : A → Result E A

infixl 5 ◌>>=◌
abbrev pub ◌>>=◌ : {E A B : Type 0} → Result E A → (A → Result E B) → Result E B
err why >>= next = err why
ok x >>= next = next x

abbrev pub map_err : {E F A : Type 0} → (E → F) → Result E A → Result F A
map_err f (ok a) = ok a
map_err f (err e) = err (f e)

-- An error unless a test holds, and for what is missing.
abbrev pub check : {E : Type 0} → Bool → E → Result E Bool
check true e = ok true
check false e = err e

abbrev pub from_option : {E A : Type 0} → Option A → E → Result E A
from_option (some a) e = ok a
from_option none e = err e

-- The value, if there is one, satisfies a predicate.
abbrev pub IsOk : {E A : Type 0} → (A → Type 0) → Result E A → Type 0
IsOk P (ok a) = P a
IsOk P (err e) = Unit

pub >>=-IsOk :
    {E A B : Type 0} (Q : A → Type 0) (P : B → Type 0) (m : Result E A) (f : A → Result E B)
    → IsOk Q m
    → ((a : A) → Q a → IsOk P (f a))
    → IsOk P (m >>= f)
>>=-IsOk Q P (ok a) f h k = k a h
>>=-IsOk Q P (err e) f h k = tt

-- A part whose value the rest need not know.
pub any-IsOk :
    {E A B : Type 0} (P : B → Type 0) (m : Result E A) (f : A → Result E B)
    → ((a : A) → IsOk P (f a))
    → IsOk P (m >>= f)
any-IsOk P (ok a) f k = k a
any-IsOk P (err e) f k = tt

pub eq-IsOk :
    {E A B : Type 0} (P : B → Type 0) (m : Result E A) (f : A → Result E B)
    → ((a : A) → m ≡ ok a → IsOk P (f a))
    → IsOk P (m >>= f)
eq-IsOk P (ok a) f k = k a refl
eq-IsOk P (err e) f k = tt

pub check-IsOk :
    {E B : Type 0} (P : B → Type 0) (c : Bool) (e : E) (f : Bool → Result E B)
    → (c ≡ true → IsOk P (f true))
    → IsOk P (check c e >>= f)
check-IsOk P true e f k = k refl
check-IsOk P false e f k = tt

pub from_option-IsOk :
    {E A B : Type 0} (P : B → Type 0) (o : Option A) (e : E) (f : A → Result E B)
    → ((a : A) → o ≡ some a → IsOk P (f a))
    → IsOk P (from_option o e >>= f)
from_option-IsOk P (some a) e f k = k a refl
from_option-IsOk P none e f k = tt

pub from_option_last :
    {E A : Type 0} (P : A → Type 0) (o : Option A) (e : E)
    → ((a : A) → o ≡ some a → P a)
    → IsOk P (from_option o e)
from_option_last P (some a) e k = k a refl
from_option_last P none e k = tt

pub map_err-IsOk :
    {E F A : Type 0} (P : A → Type 0) (f : E → F) (m : Result E A) → IsOk P m → IsOk P (map_err f m)
map_err-IsOk P f (ok a) h = h
map_err-IsOk P f (err e) h = tt

pub IsOk-ok : {E A : Type 0} (P : A → Type 0) (m : Result E A) {a : A} → m ≡ ok a → IsOk P m → P a
IsOk-ok P m e h = subst (IsOk P) e h

-- Inversion of a successful chain.
pub >>=-eq-ok :
    {E A B : Type 0} {made : B} (first : Result E A) (next : A → Result E B)
    → first >>= next ≡ ok made
    → (x : A) × (first ≡ ok x) × (next x ≡ ok made)
>>=-eq-ok (err why) next done = cc
>>=-eq-ok (ok x) next done = (x, refl, done)

-- What a fold over fallible steps keeps.
unfoldable pub fold_steps : {E S A : Type 0} → (S → A → Result E S) → S → List A → Result E S
fold_steps step s [] = ok s
fold_steps step s (a ∷ rest) = step s a >>= λ s'. fold_steps step s' rest

pub fold_steps-keeps :
    {E S A : Type 0} (P : S → Type 0) (step : S → A → Result E S)
    → ((s s' : S) (a : A) → P s → step s a ≡ ok s' → P s')
    → (s s' : S) (l : List A) → P s
    → fold_steps step s l ≡ ok s'
    → P s'
unfolding fold_steps
fold_steps-keeps P step keep s s' [] h e = subst P (ground (arith, e)) h
fold_steps-keeps P step keep s s' (a ∷ rest) h e =
    let (m, one, later) = >>=-eq-ok (step s a) (λ x. fold_steps step x rest) e in
    fold_steps-keeps P step keep m s' rest (keep s m a h one) later

pub fold_steps-IsOk :
    {E S A : Type 0} (P : S → Type 0) (step : S → A → Result E S)
    → ((s : S) (a : A) → P s → IsOk P (step s a))
    → (s : S) (l : List A) → P s
    → IsOk P (fold_steps step s l)
unfolding fold_steps
fold_steps-IsOk P step keep s [] h = h
fold_steps-IsOk P step keep s (a ∷ rest) h =
    >>=-IsOk P P (step s a) (λ x. fold_steps step x rest) (keep s a h)
      (λ x k. fold_steps-IsOk P step keep x rest k)
