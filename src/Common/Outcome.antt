-- ===== src/Common/Outcome.antt =====
-- The outcome of a call: a value, a failed assertion, or a call that ran out of the model's fuel.
-- The last assertions are the model's own: the process exits, a NULL is read, freed memory is used,
-- a number is divided by 0, an array is written past its end, or a configuration's option is a
-- negative number, which the model's fields do not hold.
use mathlib.Core.Path.{◌≡◌, subst}
use mathlib.Core.Logic.{◌≢◌}

pub data Assertion : Type 0 where
  layer_inactive : Assertion
  chord_queue_full : Assertion
  timeouts_full : Assertion
  no_free_chord : Assertion
  pending_queue_full : Assertion
  truncated_utf8 : Assertion
  too_many_arguments : Assertion
  missing_layer : Assertion
  too_many_ids : Assertion
  too_many_sections : Assertion
  too_many_entries : Assertion
  too_many_devices : Assertion
  exited : Assertion
  null_pointer : Assertion
  device_closed : Assertion
  use_after_free : Assertion
  division_by_zero : Assertion
  out_of_bounds : Assertion
  negative_option : Assertion

pub data Result {ℓ} (A : Type ℓ) : Type ℓ where
  ok : A → Result A
  aborted : Assertion → Result A
  out_of_fuel : Result A

infixl 5 ◌>>=◌
unfoldable pub ◌>>=◌ {ℓ κ} : {A : Type ℓ} {B : Type κ} → Result A → (A → Result B) → Result B
ok a >>= f = f a
aborted e >>= f = aborted e
out_of_fuel >>= f = out_of_fuel

-- A postcondition of the value, where there is one.
pub data Ensures {ℓ κ} {A : Type ℓ} (P : A → Type κ) : Result A → Type (ℓ ⊔ κ) where
  done : {a : A} → P a → Ensures P (ok a)
  aborts : {e : Assertion} → Ensures P (aborted e)
  starves : Ensures P out_of_fuel

pub Ensures-bind {ℓ κ μ ν} :
    {A : Type ℓ} {B : Type κ} {P : A → Type μ} {Q : B → Type ν} {m : Result A} (f : A → Result B)
    → Ensures P m
    → ((a : A) → P a → Ensures Q (f a))
    → Ensures Q (m >>= f)
unfolding ◌>>=◌
Ensures-bind f (done h) k = k _ h
Ensures-bind f aborts k = aborts
Ensures-bind f starves k = starves

pub Ensures-ok {ℓ κ} :
    {A : Type ℓ} {P : A → Type κ} {r : Result A} {a : A} → Ensures P r → r ≡ ok a → P a
Ensures-ok {P} (done h) e = subst P (cc) h
Ensures-ok aborts e = cc
Ensures-ok starves e = cc

-- A call that returns is continued.
pub bind-ok {ℓ κ} :
    {A : Type ℓ} {B : Type κ} {m : Result A} {a : A} (f : A → Result B) {r : Result B}
    → m ≡ ok a
    → f a ≡ r
    → (m >>= f) ≡ r
unfolding ◌>>=◌
bind-ok f e run = rw e run

-- A call that did not run out of fuel.
pub data IsFueled {ℓ} {A : Type ℓ} : Result A → Type ℓ where
  returned : (a : A) → IsFueled (ok a)
  failed : (e : Assertion) → IsFueled (aborted e)

pub IsFueled-bind {ℓ κ} :
    {A : Type ℓ} {B : Type κ} {m : Result A} (f : A → Result B)
    → IsFueled m
    → ((a : A) → IsFueled (f a))
    → IsFueled (m >>= f)
unfolding ◌>>=◌
IsFueled-bind f (returned a) k = k a
IsFueled-bind f (failed e) k = failed e

-- The same where the rest of the call needs the postcondition.
pub IsFueled-bind_Ensures {ℓ κ μ} :
    {A : Type ℓ} {B : Type κ} {P : A → Type μ} {m : Result A} (f : A → Result B)
    → Ensures P m
    → IsFueled m
    → ((a : A) → P a → IsFueled (f a))
    → IsFueled (m >>= f)
unfolding ◌>>=◌
IsFueled-bind_Ensures f (done p) (returned a) k = k a p
IsFueled-bind_Ensures f aborts (failed e) k = failed e
IsFueled-bind_Ensures f starves h k = elim h [ ]

pub IsFueled-ne {ℓ} : {A : Type ℓ} {m : Result A} → IsFueled m → m ≢ out_of_fuel
IsFueled-ne (returned a) e = cc
IsFueled-ne (failed a) e = cc

-- What follows from a return of the rest follows from a return of the whole.
pub bind-return {ℓ κ μ} :
    {A : Type ℓ} {B : Type κ} {C : Type μ} {b : B} (rest : A → Result B) (first : Result A)
    → ((a : A) → rest a ≡ ok b → C)
    → (first >>= rest) ≡ ok b
    → C
unfolding ◌>>=◌
bind-return rest (ok a) k run = k a run
bind-return rest (aborted _) k run = cc
bind-return rest out_of_fuel k run = cc

-- A postcondition that follows from another.
pub Ensures-map {ℓ κ μ} :
    {A : Type ℓ} {P : A → Type κ} {Q : A → Type μ} (r : Result A)
    → Ensures P r
    → ((a : A) → P a → Q a)
    → Ensures Q r
Ensures-map (ok a) (done h) k = done (k a h)
Ensures-map (aborted e) h k = aborts
Ensures-map out_of_fuel h k = starves
