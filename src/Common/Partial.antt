-- ===== src/Common/Partial.antt =====
-- What holds of the result of a computation that may fail.
use mathlib.Core.Path.{◌≡◌, refl, ap, subst}
use mathlib.Core.Bool.{Bool, true, false}
use mathlib.Core.Option.{Option, none, some}
use native.Mathlib.Omega.{arith}
use asio_rtc.Common.Tests.{if◌then◌else◌, ◌>>=◌}

pub record IfSome {ℓ κ} {A : Type ℓ} (P : A → Type κ) (o : Option A) : Type (ℓ ⊔ κ) where
  pub holds : (a : A) → o ≡ some a → P a

module _ {ℓ κ} {A : Type ℓ} {P : A → Type κ} where
  pub IfSome-some : {a : A} → P a → IfSome P (some a)
  IfSome-some {a = a} h = record {
    holds = λ b e. subst P (ap (λ o. elim o [ none ↦ a | some c ↦ c ]) e) h;
  }

  pub or_else :
      (b : Bool) (x y : Option A) → IfSome P x → IfSome P y → IfSome P (if b then x else y)
  or_else true x y h k = h
  or_else false x y h k = k

  pub on_result :
      {B : Type ℓ} (o : Option B) (f : B → Option A)
      → ((b : B) → IfSome P (f b))
      → IfSome P (o >>= f)
  on_result none f h = record { holds = λ a e. absurd (ground (arith, e)) }
  on_result (some b) f h = h b

  pub nothing : IfSome P none
  nothing = record { holds = λ a e. absurd (ground (arith, e)) }

module _ {ℓ κ} {A B : Type ℓ} {P : A → Type κ} {Q : B → Type κ} where
  pub on_kept :
      (o : Option B) (f : B → Option A)
      → IfSome Q o
      → ((b : B) → Q b → IfSome P (f b))
      → IfSome P (o >>= f)
  on_kept none f h k = nothing
  on_kept (some b) f h k = k b (h.holds b refl)

pub itself {ℓ} : {A : Type ℓ} (o : Option A) → IfSome (λ a. o ≡ some a) o
itself o = record { holds = λ a e. e }
