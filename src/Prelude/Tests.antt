-- ===== src/Prelude/Tests.antt =====
-- Boolean tests on numbers and texts, and the conditional.
use Prim.Native.Nat.{ℕ, suc, compare, Ordering}
use Prim.Native.String.{String}
use mathlib.Core.Path.{◌≡◌, refl}
use mathlib.Core.Logic.{◌⊎◌, inl, inr, ◌↔◌}
use mathlib.Core.Bool.{Bool, true, false}
use mathlib.Core.Option.{Option, none, some}
use text.Mathlib.Text.{◌==◌ as str_eq}
use text.Mathlib.TextEquality.{eq_iff}
use native.Mathlib.Omega.{arith}

abbrev pub ltb : ℕ → ℕ → Bool
ltb a b = elim (compare a b) [ Ordering.lt ↦ true | _ ↦ false ]

abbrev pub leb : ℕ → ℕ → Bool
leb a b = elim (compare a b) [ Ordering.gt ↦ false | _ ↦ true ]

infix 50 ◌==◌
abbrev pub ◌==◌ : ℕ → ℕ → Bool
a == b = elim (compare a b) [ Ordering.eq ↦ true | _ ↦ false ]

infix 1 if◌then◌else◌
abbrev pub if◌then◌else◌ {ℓ} : {A : Type ℓ} → Bool → A → A → A
if true then x else y = x
if false then x else y = y

pub Bool-cases : (b : Bool) → (b ≡ true) ⊎ (b ≡ false)
Bool-cases true = inl refl
Bool-cases false = inr refl

pub Option-cases {ℓ} : {A : Type ℓ} (o : Option A) → (o ≡ none) ⊎ ((a : A) × (o ≡ some a))
Option-cases none = inl refl
Option-cases (some a) = inr (a, refl)

abbrev pub is_some {ℓ} : {A : Type ℓ} → Option A → Bool
is_some none = false
is_some (some a) = true

-- What is done without a value, and with one.
abbrev pub case_option {ℓ κ} : {A : Type ℓ} {B : Type κ} → Option A → B → (A → B) → B
case_option none absent present = absent
case_option (some a) absent present = present a

pub case_option-elim {ℓ κ ι} :
    {A : Type ℓ} {B : Type κ} (P : B → Type ι) (o : Option A) (absent : B) (present : A → B)
    → (o ≡ none → P absent)
    → ((a : A) → o ≡ some a → P (present a))
    → P (case_option o absent present)
case_option-elim P none absent present p q = p refl
case_option-elim P (some a) absent present p q = q a refl

pub if-elim {ℓ ι} :
    {B : Type ℓ} (P : B → Type ι) (test : Bool) (a b : B)
    → (test ≡ true → P a)
    → (test ≡ false → P b)
    → P (if test then a else b)
if-elim P true a b p q = p refl
if-elim P false a b p q = q refl

-- `std::string` equality decides the identity of texts.
decide_by : {a b : String} (t : Bool) → ((t ≡ true) ↔ (a ≡ b)) → Dec (a ≡ b)
decide_by true e = yes (e.0 refl)
decide_by false e = no (λ p. differ (e.1 p))
  where
    differ : false ≡ true → ⊥
    differ h = ground arith

unfoldable pub String_discrete : Discrete String
unfolding decide_by
String_discrete a b = decide_by (str_eq a b) (eq_iff a b)

pub ltb-zero : (n : ℕ) → ltb 0 (suc n) ≡ true
ltb-zero n = ground arith

pub ltb-suc : (m n : ℕ) → ltb (suc m) (suc n) ≡ ltb m n
ltb-suc m n = ground arith

pub ltb-none : (n : ℕ) → ltb n 0 ≡ false
ltb-none n = ground arith
