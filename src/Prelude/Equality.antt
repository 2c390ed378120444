-- ===== src/Prelude/Equality.antt =====
-- Types whose values the program compares by `==`: texts, and keys made of them.
use Prim.Native.Nat.{ℕ}
use mathlib.Core.Path.{◌≡◌, refl}
use mathlib.Core.Logic.{◌↔◌, ◌≢◌}
use mathlib.Core.Bool.{Bool, true, false, ◌||◌, ◌&&◌}
use mathlib.Core.Option.{Option, none, some}
use mathlib.Core.List.{List, [], ◌∷◌}
use native.Mathlib.Omega.{arith}
use langhuan.Prelude.Tests.{◌==◌, ==_iff}

pub record Eq {ℓ} (A : Type ℓ) : Type ℓ where
  pub agree : A → A → Bool
  pub agree_iff : (x y : A) → (agree x y ≡ true) ↔ (x ≡ y)

module _ {ℓ} {A : Type ℓ} ⦃e : Eq A⦄ where
  abbrev pub same : A → A → Bool
  same = e.agree

  pub same_iff : (a b : A) → (same a b ≡ true) ↔ (a ≡ b)
  same_iff = e.agree_iff

  pub same_refl : (a : A) → same a a ≡ true
  same_refl a = (same_iff a a).1 refl

  pub same-eq_false : (a b : A) → a ≢ b → same a b ≡ false
  same-eq_false a b h = ground (arith, same_iff a b)

  unfoldable pub contains : List A → A → Bool
  contains [] a = false
  contains (x ∷ xs) a = same x a || contains xs a

  -- What has been seen after some more.
  abbrev pub seen_after : List A → List A → List A
  seen_after seen [] = seen
  seen_after seen (a ∷ rest) = seen_after (a ∷ seen) rest

  -- None of some values has been seen before it.
  abbrev pub AreNew : List A → List A → Type 0
  AreNew seen [] = Unit
  AreNew seen (a ∷ rest) = (contains seen a ≡ false) × AreNew (a ∷ seen) rest

-- A text is the list of its UTF-8 bytes.
abbrev pub Text : Type 0
Text = List ℕ

unfoldable pub text_beq : Text → Text → Bool
text_beq [] [] = true
text_beq (a ∷ s) (b ∷ t) = a == b && text_beq s t
text_beq _ _ = false

pub text_beq_iff : (s t : Text) → (text_beq s t ≡ true) ↔ (s ≡ t)
unfolding text_beq
text_beq_iff [] [] = (λ _. refl, λ _. refl)
text_beq_iff [] (b ∷ t) = (λ e. absurd (cc), λ e. absurd (cc))
text_beq_iff (a ∷ s) [] = (λ e. absurd (cc), λ e. absurd (cc))
text_beq_iff (a ∷ s) (b ∷ t) = ground (arith, ==_iff a b, text_beq_iff s t)

instance abbrev pub text_eq : Eq Text
text_eq = record { agree = text_beq; agree_iff = text_beq_iff }

-- `IS` of SQL and `==` of Rust on optional values.
module _ {ℓ} {A : Type ℓ} ⦃e : Eq A⦄ where
  unfoldable pub same_option : Option A → Option A → Bool
  same_option none none = true
  same_option (some a) (some b) = same a b
  same_option none (some b) = false
  same_option (some a) none = false

  pub same_option_iff : (a b : Option A) → (same_option a b ≡ true) ↔ (a ≡ b)
  unfolding same_option
  same_option_iff none none = (λ _. refl, λ _. refl)
  same_option_iff (some a) (some b) = ground (arith, same_iff a b)
  same_option_iff none (some b) = (λ p. absurd (cc), λ p. absurd (cc))
  same_option_iff (some a) none = (λ p. absurd (cc), λ p. absurd (cc))
