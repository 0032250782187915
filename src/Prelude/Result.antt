-- ===== src/Prelude/Result.antt =====
-- Go's `(value, error)` results. `panic` is a run-time panic; `stuck` is no Go value: a loop
-- that the model bounds by fuel ran out of it.
use Prim.Native.Nat.{ℕ, ◌-◌}
use mathlib.Core.Path.{◌≡◌, refl, subst}
use mathlib.Core.Bool.{◌&&◌}
use mathlib.Core.Option.{Option, none, some}
use mathlib.Core.List.{List}
use life_stream_go_mqtt_brok.Prelude.Tests.{leb, if◌then◌else◌}
use life_stream_go_mqtt_brok.Prelude.Lists.{length, get_elem?, take, drop}

pub data Result {ℓ} (E : Type ℓ) (A : Type ℓ) : Type ℓ where
  ok : A → Result E A
  err : E → Result E A
  panic : Result E A
  stuck : Result E A

infixl 5 ◌>>=◌ ◌>>◌
abbrev pub ◌>>=◌ {ℓ} : {E A B : Type ℓ} → Result E A → (A → Result E B) → Result E B
ok a >>= f = f a
err e >>= f = err e
panic >>= f = panic
stuck >>= f = stuck

abbrev pub ◌>>◌ {ℓ} : {E A B : Type ℓ} → Result E A → Result E B → Result E B
m >> k = m >>= λ _. k

-- `fmt.Errorf` round the error of a call.
abbrev pub map_err {ℓ} : {E F : Type ℓ} {A : Type ℓ} → (E → F) → Result E A → Result F A
map_err f (ok a) = ok a
map_err f (err e) = err (f e)
map_err f panic = panic
map_err f stuck = stuck

-- An index or slice expression of Go panics out of range.
abbrev or_panic {ℓ} : {E A : Type ℓ} → Option A → Result E A
or_panic none = panic
or_panic (some a) = ok a

abbrev pub index : {E : Type 0} → List ℕ → ℕ → Result E ℕ
index xs i = or_panic (get_elem? xs i)

-- `xs[i:j]` of a slice whose capacity is its length
abbrev pub slice : {E : Type 0} → List ℕ → ℕ → ℕ → Result E (List ℕ)
slice xs i j = if leb i j && leb j (length xs) then ok (take (j - i) (drop i xs)) else panic

-- The run returned a value with `P`, or an error: it neither panicked nor ran out of fuel.
abbrev pub Yields {ℓ} : {E A : Type ℓ} → (A → Type 0) → Result E A → Type 0
Yields P (ok a) = P a
Yields P (err e) = Unit
Yields P panic = ⊥
Yields P stuck = ⊥

pub Yields-ok {ℓ} :
    {E A : Type ℓ} (P : A → Type 0) (r : Result E A) (a : A) → Yields P r → r ≡ ok a → P a
Yields-ok P r a h e = subst (λ x. Yields P x) e h

pub Yields-bind {ℓ} :
    {E A B : Type ℓ} (P : A → Type 0) (Q : B → Type 0) (r : Result E A) (f : A → Result E B)
    → Yields P r
    → ((a : A) → P a → Yields Q (f a))
    → Yields Q (r >>= f)
Yields-bind P Q (ok a) f h k = k a h
Yields-bind P Q (err e) f h k = tt
Yields-bind P Q panic f h k = absurd h
Yields-bind P Q stuck f h k = absurd h

pub Yields-map_err {ℓ} :
    {E F A : Type ℓ} (P : A → Type 0) (g : E → F) (r : Result E A)
    → Yields P r
    → Yields P (map_err g r)
Yields-map_err P g (ok a) h = h
Yields-map_err P g (err e) h = tt
Yields-map_err P g panic h = absurd h
Yields-map_err P g stuck h = absurd h

pub Yields-weaken {ℓ} :
    {E A : Type ℓ} (P Q : A → Type 0) (r : Result E A)
    → Yields P r
    → ((a : A) → P a → Q a)
    → Yields Q r
Yields-weaken P Q (ok a) h k = k a h
Yields-weaken P Q (err e) h k = tt
Yields-weaken P Q panic h k = absurd h
Yields-weaken P Q stuck h k = absurd h

pub bind_assoc {ℓ} :
    {E A B C : Type ℓ} (r : Result E A) (f : A → Result E B) (g : B → Result E C)
    → ((r >>= f) >>= g) ≡ (r >>= λ a. f a >>= g)
bind_assoc (ok a) f g = refl
bind_assoc (err e) f g = refl
bind_assoc panic f g = refl
bind_assoc stuck f g = refl

-- The run returned a value with `P`, an error or a panic: it did not run out of fuel.
abbrev pub Concludes {ℓ} : {E A : Type ℓ} → (A → Type 0) → Result E A → Type 0
Concludes P (ok a) = P a
Concludes P (err e) = Unit
Concludes P panic = Unit
Concludes P stuck = ⊥

pub Concludes-bind {ℓ} :
    {E A B : Type ℓ} (P : A → Type 0) (Q : B → Type 0) (m : Result E A) (next : A → Result E B)
    → Concludes P m
    → ((value : A) → P value → Concludes Q (next value))
    → Concludes Q (m >>= next)
Concludes-bind P Q (ok value) next first onward = onward value first
Concludes-bind P Q (err e) next first onward = tt
Concludes-bind P Q panic next first onward = tt
Concludes-bind P Q stuck next first onward = absurd first

-- The run returned a value with `P`, or a panic, and no error.
abbrev pub Returns {ℓ} : {E A : Type ℓ} → (A → Type 0) → Result E A → Type 0
Returns P (ok a) = P a
Returns P (err e) = ⊥
Returns P panic = Unit
Returns P stuck = ⊥

pub Returns-bind {ℓ} :
    {E A B : Type ℓ} (P : A → Type 0) (Q : B → Type 0) (r : Result E A) (f : A → Result E B)
    → Returns P r
    → ((a : A) → P a → Returns Q (f a))
    → Returns Q (r >>= f)
Returns-bind P Q (ok a) f h k = k a h
Returns-bind P Q (err e) f h k = absurd h
Returns-bind P Q panic f h k = tt
Returns-bind P Q stuck f h k = absurd h

pub Returns-weaken {ℓ} :
    {E A : Type ℓ} (P Q : A → Type 0) (r : Result E A)
    → Returns P r
    → ((a : A) → P a → Q a)
    → Returns Q r
Returns-weaken P Q (ok a) h k = k a h
Returns-weaken P Q (err e) h k = h
Returns-weaken P Q panic h k = tt
Returns-weaken P Q stuck h k = h

-- A value, where there is one, has `P`.
abbrev pub Holds {ℓ} : {A : Type ℓ} → (A → Type 0) → Option A → Type 0
Holds P none = Unit
Holds P (some a) = P a
