-- ===== src/Prelude/Splits.antt =====
-- Splits of a goal on the test, or the option, that it computes by.
use recat_qbo.Prelude.Shared.{◌≡◌, refl, Bool, true, false, Option, none, some, if◌then◌else◌}

-- A property of every branch of a test, of an option.
pub by_if {ℓ κ} :
    {B : Type ℓ} (P : B → Type κ) {x y : B} (b : Bool)
    → (b ≡ true → P x)
    → (b ≡ false → P y)
    → P (if b then x else y)
by_if P true f g = f refl
by_if P false f g = g refl

pub by_option {ℓ κ μ} :
    {A : Type μ} {B : Type ℓ} (P : B → Type κ) {x : B} {f : A → B} (o : Option A)
    → (o ≡ none → P x)
    → ((a : A) → o ≡ some a → P (f a))
    → P (elim o [ none ↦ x | some a ↦ f a ])
by_option P none f g = f refl
by_option P (some a) f g = g a refl
