-- ===== src/Prelude/Outcome.antt =====
-- The outcome of C++ code: a value, undefined behaviour, an exception that nobody catches, or a
-- loop that is still running.
use mathlib.Core.Path.{◌≡◌, refl, sym, ap, ◌∙◌, fun_ext}
use mathlib.Core.Option.{Option, none, some}
use mathlib.Core.Bool.{Bool, true, false}
use console_master_rtpvoice.Prelude.Tests.{if◌then◌else◌}
use mathlib.Core.List.{List, [], ◌∷◌, ◌++◌}

pub data Run {ℓ} (A : Type ℓ) : Type ℓ where
  ok : A → Run A
  undefined : Run A
  thrown : Run A
  running : Run A

infixl 5 ◌>>=◌
abbrev pub ◌>>=◌ {ℓ κ} : {A : Type ℓ} {B : Type κ} → Run A → (A → Run B) → Run B
ok a >>= f = f a
undefined >>= f = undefined
thrown >>= f = thrown
running >>= f = running

pub ok-same {ℓ} : {A : Type ℓ} (a b : A) → ok a ≡ ok b → a ≡ b
ok-same a b e = ap (λ m. elim m [ ok x ↦ x | undefined ↦ a | thrown ↦ a | running ↦ a ]) e

pub bind-ok {ℓ κ} :
    {A : Type ℓ} {B : Type κ} (m : Run A) (f : A → Run B) (b : B)
    → (m >>= f) ≡ ok b
    → (a : A) × (m ≡ ok a) × (f a ≡ ok b)
bind-ok (ok a) f b e = (a, refl, e)
bind-ok undefined f b e = absurd (cc)
bind-ok thrown f b e = absurd (cc)
bind-ok running f b e = absurd (cc)

abbrev pub map_run {ℓ κ} : {A : Type ℓ} {B : Type κ} → (A → B) → Run A → Run B
map_run f m = m >>= λ a. ok (f a)

pub >>=_assoc {ℓ κ μ} :
    {A : Type ℓ} {B : Type κ} {C : Type μ} (m : Run A) (f : A → Run B) (g : B → Run C)
    → (m >>= f >>= g) ≡ (m >>= λ a. f a >>= g)
>>=_assoc (ok a) f g = refl
>>=_assoc undefined f g = refl
>>=_assoc thrown f g = refl
>>=_assoc running f g = refl

-- Do the steps of a list in order, each from the state that the step before it left.
abbrev pub each {ℓ κ} : {S : Type ℓ} {A : Type κ} → (S → A → Run S) → S → List A → Run S
each f s [] = ok s
each f s (x ∷ xs) = f s x >>= λ t. each f t xs

pub each-append {ℓ κ} :
    {S : Type ℓ} {A : Type κ} (f : S → A → Run S) (s : S) (xs ys : List A)
    → each f s (xs ++ ys) ≡ (each f s xs >>= λ t. each f t ys)
each-append f s [] ys = refl
each-append f s (x ∷ xs) ys =
    ap (λ k. f s x >>= k) (fun_ext λ t. each-append f t xs ys)
    ∙ sym (>>=_assoc (f s x) (λ t. each f t xs) (λ t. each f t ys))

abbrev pub or_throw {ℓ} : {A : Type ℓ} → Option A → Run A
or_throw (some a) = ok a
or_throw none = thrown

-- It ends: not with a loop that is still running.
abbrev pub IsDone {ℓ} : {A : Type ℓ} → Run A → Type 0
IsDone (ok a) = Unit {0}
IsDone undefined = Unit {0}
IsDone thrown = Unit {0}
IsDone running = ⊥

pub bind-IsDone {ℓ κ} :
    {A : Type ℓ} {B : Type κ} (m : Run A) (f : A → Run B)
    → IsDone m
    → ((a : A) → IsDone (f a))
    → IsDone (m >>= f)
bind-IsDone (ok a) f h k = k a
bind-IsDone undefined f h k = tt
bind-IsDone thrown f h k = tt
bind-IsDone running f h k = h

pub if-IsDone {ℓ} :
    {A : Type ℓ} (b : Bool) (x y : Run A)
    → (b ≡ true → IsDone x)
    → (b ≡ false → IsDone y)
    → IsDone (if b then x else y)
if-IsDone true x y h k = h refl
if-IsDone false x y h k = k refl
