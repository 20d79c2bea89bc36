-- ===== src/Common/Control.antt =====
-- The control flow of a TypeScript function: `next a` goes on with `a`, `stop r` is an early
-- `return r`, and `thrown m` an exception whose message is `m`.
use Prim.Native.String.{String}
use mathlib.Core.Path.{◌≡◌, refl}
use mathlib.Core.Bool.{Bool, true, false}
use mathlib.Core.Option.{Option, none, some}

pub data Flow (R A : Type 0) : Type 0 where
  next : A → Flow R A
  stop : R → Flow R A
  thrown : String → Flow R A

infixl 5 ◌>>=◌ ◌>>◌
abbrev pub ◌>>=◌ : {R A B : Type 0} → Flow R A → (A → Flow R B) → Flow R B
next a >>= f = f a
stop r >>= f = stop r
thrown m >>= f = thrown m

abbrev pub ◌>>◌ : {R B : Type 0} → Flow R (Unit {0}) → Flow R B → Flow R B
m >> k = m >>= λ _. k

-- `if (b) return r;`
abbrev pub stop_if : {R : Type 0} → Bool → R → Flow R (Unit {0})
stop_if true r = stop r
stop_if false r = next tt

-- `if (b) throw new Error(m);`
abbrev pub throw_if : {R : Type 0} → Bool → String → Flow R (Unit {0})
throw_if true m = thrown m
throw_if false m = next tt

-- `if (!o) return r;`, and the value of `o` from there on.
abbrev pub need : {R A : Type 0} → Option A → R → Flow R A
need none r = stop r
need (some a) r = next a

-- A call that throws `m` where it has no value.
abbrev pub or_throw : {R A : Type 0} → Option A → String → Flow R A
or_throw none m = thrown m
or_throw (some a) m = next a

-- Inversion of a bind that went on.
pub >>=-eq-next :
    {R A B : Type 0} (m : Flow R A) (f : A → Flow R B) {b : B}
    → (m >>= f) ≡ next b
    → (a : A) × (m ≡ next a) × (f a ≡ next b)
>>=-eq-next (next a) f h = (a, refl, h)
>>=-eq-next (stop r) f h = cc
>>=-eq-next (thrown m) f h = cc

pub next-injective : {R A : Type 0} {a b : A} → ◌≡◌ {A = Flow R A} (next a) (next b) → a ≡ b
next-injective h = cc

pub stop_if-next : {R : Type 0} (b : Bool) (r : R) {u : Unit} → stop_if b r ≡ next u → b ≡ false
stop_if-next true r h = cc
stop_if-next false r h = refl

pub throw_if-next :
    {R : Type 0} (b : Bool) (m : String) {u : Unit} → throw_if {R = R} b m ≡ next u → b ≡ false
throw_if-next true m h = cc
throw_if-next false m h = refl

pub need-next : {R A : Type 0} (o : Option A) (r : R) {a : A} → need o r ≡ next a → o ≡ some a
need-next none r h = cc
need-next (some a) r h = cc

-- Inversion of a block that went on after a test, a `need` or a call.
pub stop_if-bind :
    {R A : Type 0} (b : Bool) (r : R) (f : Unit → Flow R A) {c : A}
    → (stop_if b r >>= f) ≡ next c
    → (b ≡ false) × (f tt ≡ next c)
stop_if-bind true r f h = cc
stop_if-bind false r f h = (refl, h)

pub need-bind :
    {R A B : Type 0} (o : Option A) (r : R) (f : A → Flow R B) {c : B}
    → (need o r >>= f) ≡ next c
    → (a : A) × (o ≡ some a) × (f a ≡ next c)
need-bind none r f h = cc
need-bind (some a) r f h = (a, refl, h)

pub call-bind :
    {R A B : Type 0} (o : Option A) (m : String) (f : A → Flow R B) {c : B}
    → (or_throw o m >>= f) ≡ next c
    → (a : A) × (o ≡ some a) × (f a ≡ next c)
call-bind none m f h = cc
call-bind (some a) m f h = (a, refl, h)

pub call-next :
    {R A : Type 0} (o : Option A) (m : String) {a : A} → or_throw {R = R} o m ≡ next a → o ≡ some a
call-next none m h = cc
call-next (some a) m h = cc
