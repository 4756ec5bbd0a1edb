-- ===== src/Prelude/Results.antt =====
-- Go's `(T, error)` results, and methods that change an object and may return an error.
use Prim.Native.String.{String}
use mathlib.Core.Path.{◌≡◌, refl}
use mathlib.Core.Bool.{Bool, true, false}
use mathlib.Core.Logic.{◌⊎◌, ◌↔◌, inl, inr}
use mathlib.Core.List.{List, [], ◌∷◌}
use shock_absorber.Prelude.Lists.{All}

-- `errorf` is an error with its format and arguments, `wrapf` one that wraps a cause by `%w`.
pub data Error : Type 0 where
  errorf : String → List String → Error
  wrapf : String → List String → Error → Error

pub data Result {ℓ} (A : Type ℓ) : Type ℓ where
  ok : A → Result A
  err : Error → Result A

abbrev pub Done : Type 0
Done = Result (Unit {0})

abbrev pub done : Done
done = ok tt

-- `if err := m; err != nil { return m }`
abbrev pub and_then {ℓ κ} : {A : Type ℓ} {B : Type κ} → Result A → (A → Result B) → Result B
and_then (ok a) f = f a
and_then (err e) f = err e

-- `return fmt.Errorf(context, %w)`
abbrev pub wrap {ℓ} : {A : Type ℓ} → String → List String → Result A → Result A
wrap c xs (ok a) = ok a
wrap c xs (err e) = err (wrapf c xs e)

-- `if bad { return e }`
abbrev pub reject {ℓ} : {A : Type ℓ} → Bool → Error → Result A → Result A
reject true e rest = err e
reject false e rest = rest

-- A row of `if bad { return e }`: the first test that fails gives the error.
abbrev pub first_error : List (Bool × Error) → Done
first_error [] = done
first_error ((bad, e) ∷ rest) = reject bad e (first_error rest)

pub first_error_iff :
    (cs : List (Bool × Error)) → (first_error cs ≡ done) ↔ All (λ c. c.0 ≡ false) cs
first_error_iff [] = (λ h. tt, λ h. refl)
first_error_iff ((true, e) ∷ rest) = (λ h. cc, λ h. cc (h.0))
first_error_iff ((false, e) ∷ rest) =
    (λ h. (refl, (first_error_iff rest).0 h), λ h. (first_error_iff rest).1 h.1)

abbrev pub is_ok {ℓ} : {A : Type ℓ} → Result A → Bool
is_ok (ok a) = true
is_ok (err e) = false

pub Result-cases {ℓ} :
    {A : Type ℓ} (r : Result A) → ((a : A) × (r ≡ ok a)) ⊎ ((e : Error) × (r ≡ err e))
Result-cases (ok a) = inl (a, refl)
Result-cases (err e) = inr (e, refl)

-- What was written before an error stays written, so the state comes back beside the error too.
abbrev pub Exec {ℓ} : Type ℓ → Type ℓ → Type ℓ
Exec S A = S → Result A × S

abbrev pub continue {ℓ} : {S A B : Type ℓ} → Result A × S → (A → Exec S B) → Result B × S
continue (ok a, s) f = f a s
continue (err e, s) f = (err e, s)

infixl 5 ◌>>=◌ ◌>>◌
abbrev pub ◌>>=◌ {ℓ} : {S A B : Type ℓ} → Exec S A → (A → Exec S B) → Exec S B
◌>>=◌ m f s = continue (m s) f

abbrev pub ◌>>◌ {ℓ} : {S A B : Type ℓ} → Exec S A → Exec S B → Exec S B
m >> k = m >>= λ _. k

abbrev pub pure {ℓ} : {S A : Type ℓ} → A → Exec S A
pure a s = (ok a, s)

abbrev pub fail {ℓ} : {S A : Type ℓ} → Error → Exec S A
fail e s = (err e, s)

-- An error-carrying value inside a method.
abbrev pub lift {ℓ} : {S A : Type ℓ} → Result A → Exec S A
lift r s = (r, s)

-- The error of a call, wrapped by its caller.
abbrev pub wrapped {ℓ} : {S A : Type ℓ} → String → List String → Exec S A → Exec S A
wrapped c xs m s = let (r, s') = m s in (wrap c xs r, s')

-- `m; (k; l)` is `(m; k); l`.
pub continue_assoc {ℓ} :
    {S A B C : Type ℓ} (m : Result A × S) (f : A → Exec S B) (g : B → Exec S C)
    → continue (continue m f) g ≡ continue m (λ a s. continue (f a s) g)
continue_assoc (ok a, s) f g = refl
continue_assoc (err e, s) f g = refl

-- What a success went through.
pub and_then-eq_ok {ℓ κ} :
    {A : Type ℓ} {B : Type κ} (r : Result A) (f : A → Result B) (b : B)
    → and_then r f ≡ ok b
    → (a : A) × (r ≡ ok a) × (f a ≡ ok b)
and_then-eq_ok (ok a) f b h = (a, refl, h)
and_then-eq_ok (err e) f b h = cc

pub wrap-eq_ok {ℓ} :
    {A : Type ℓ} (c : String) (xs : List String) (r : Result A) (a : A)
    → wrap c xs r ≡ ok a
    → r ≡ ok a
wrap-eq_ok c xs (ok b) a h = h
wrap-eq_ok c xs (err e) a h = cc

pub ok_injective {ℓ} : {A : Type ℓ} (a b : A) → ◌≡◌ {A = Result A} (ok a) (ok b) → a ≡ b
ok_injective a b h = cc

pub continue-eq_ok {ℓ} :
    {S A B : Type ℓ} (m : Result A × S) (f : A → Exec S B) (b : B)
    → (continue m f).0 ≡ ok b
    → (a : A) × (m.0 ≡ ok a) × ((f a m.1).0 ≡ ok b)
continue-eq_ok (ok a, s) f b h = (a, refl, h)
continue-eq_ok (err e, s) f b h = cc
