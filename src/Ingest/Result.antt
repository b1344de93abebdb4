-- ===== src/Ingest/Result.antt =====
-- `anyhow::Result`: an error is its chain of messages, outermost first. `?` is the bind.
use cockpitctl.Base.{String, subst, sym, ◌≡◌, refl, List, ◌∷◌}

pub data Result (A : Type 0) : Type 0 where
  ok : A → Result A
  err : List String → Result A

infixl 5 ◌>>=◌
abbrev pub ◌>>=◌ : {A B : Type 0} → Result A → (A → Result B) → Result B
ok a >>= f = f a
err e >>= f = err e

-- `anyhow::Context::context`
abbrev pub context : {A : Type 0} → String → Result A → Result A
context message (ok a) = ok a
context message (err e) = err (message ∷ e)

-- If there is a value, it has the property.
abbrev pub Always : {A : Type 0} → (A → Type 0) → Result A → Type 0
Always P (ok a) = P a
Always P (err e) = Unit

pub Always->>= :
    {A B : Type 0} (P : B → Type 0) (m : Result A) (f : A → Result B)
    → ((a : A) → Always P (f a))
    → Always P (m >>= f)
Always->>= P (ok a) f h = h a
Always->>= P (err e) f h = tt

pub Always-eq : {A : Type 0} (P : A → Type 0) (m : Result A) {a : A} → Always P m → m ≡ ok a → P a
Always-eq P (ok b) h e = subst P (cc) h
Always-eq P (err x) h e = cc

-- The same where what the first step promises is used.
pub Always-bind :
    {A B : Type 0} (P : A → Type 0) (Q : B → Type 0) (m : Result A) (f : A → Result B)
    → Always P m
    → ((a : A) → P a → Always Q (f a))
    → Always Q (m >>= f)
Always-bind P Q (ok a) f h k = k a h
Always-bind P Q (err e) f h k = tt

pub Always-mono :
    {A : Type 0} (P Q : A → Type 0) (m : Result A) → ((a : A) → P a → Q a) → Always P m → Always Q m
Always-mono P Q (ok a) f h = f a h
Always-mono P Q (err e) f h = tt

pub Always-context :
    {A : Type 0} (P : A → Type 0) (message : String) (m : Result A)
    → Always P m
    → Always P (context message m)
Always-context P message (ok a) h = h
Always-context P message (err e) h = tt

pub Always-ok :
    {A B : Type 0} (P : B → Type 0) (message : String) (m : Result A) (f : A → Result B) {a : A}
    → m ≡ ok a
    → Always P (f a)
    → Always P (context message m >>= f)
Always-ok P message m f e h = subst (λ x. Always P (context message x >>= f)) (sym e) h

pub Always-self : {A : Type 0} (m : Result A) → Always (λ a. m ≡ ok a) m
Always-self (ok a) = refl
Always-self (err e) = tt

pub Always-and :
    {A : Type 0} (P Q : A → Type 0) (m : Result A)
    → Always P m
    → Always Q m
    → Always (λ a. P a × Q a) m
Always-and P Q (ok a) h k = (h, k)
Always-and P Q (err e) h k = tt

pub Always-IsProp :
    {A : Type 0} (P : A → Type 0) → ((a : A) → IsProp (P a)) → (m : Result A) → IsProp (Always P m)
Always-IsProp P h (ok a) = h a
Always-IsProp P h (err e) = hlevel

-- If a message is added to the errors of a result, it is still the same success.
pub context-ok :
    {A : Type 0} (message : String) (m : Result A) {a : A} → context message m ≡ ok a → m ≡ ok a
context-ok message (ok a) h = h
context-ok message (err e) h = absurd (cc)

-- What a chain that succeeds has gone through.
pub bind-ok :
    {A B : Type 0} (first : Result A) (rest : A → Result B) {end : B}
    → (first >>= rest) ≡ ok end
    → (middle : A) × (first ≡ ok middle) × (rest middle ≡ ok end)
bind-ok (err e) rest succeeded = absurd (cc)
bind-ok (ok middle) rest succeeded = (middle, refl, succeeded)
