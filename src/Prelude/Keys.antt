-- ===== src/Prelude/Keys.antt =====
-- Equality tests of keys as an instance argument, with the two kinds of text of the development:
-- byte lists, where the program walks a text, and native strings, where it only compares.
use Prim.Native.String.{String}
use text.Mathlib.Text.{◌==◌ as str_beq}
use text.Mathlib.TextEquality.{eq_iff}
use Prim.Native.Nat.{ℕ}
use mathlib.Core.Path.{◌≡◌, refl}
use mathlib.Core.Logic.{◌↔◌}
use mathlib.Core.Bool.{Bool, true, false, ◌&&◌}
use mathlib.Core.List.{List, [], ◌∷◌}
use native.Mathlib.Omega.{arith}
use cloudlab_k8s.Prelude.Tests.{nat_beq, nat_beq_iff}

infix 50 ◌==◌
-- A text as its bytes.
abbrev pub Text : Type 0
Text = List ℕ

-- A type of keys with its test of equality.
pub record Eq {ℓ} (Key : Type ℓ) : Type ℓ where
  pub beq : Key → Key → Bool
  pub beq_iff : (k j : Key) → (beq k j ≡ true) ↔ (k ≡ j)

abbrev pub ◌==◌ {ℓ} : {Key : Type ℓ} ⦃key : Eq Key⦄ → Key → Key → Bool
◌==◌ ⦃key⦄ = key.beq

abbrev pub text_beq : Text → Text → Bool
text_beq [] [] = true
text_beq (a ∷ s) (b ∷ t) = nat_beq a b && text_beq s t
text_beq _ _ = false

pub text_beq_iff : (s t : Text) → (text_beq s t ≡ true) ↔ (s ≡ t)
text_beq_iff [] [] = ((λ _. refl), (λ _. refl))
text_beq_iff [] (b ∷ t) = ((λ h. cc), (λ h. cc))
text_beq_iff (a ∷ s) [] = ((λ h. cc), (λ h. cc))
text_beq_iff (a ∷ s) (b ∷ t) = ground (arith, nat_beq_iff a b, text_beq_iff s t)

instance abbrev pub text_key : Eq Text
text_key = record { beq = text_beq; beq_iff = text_beq_iff }

instance abbrev pub string_key : Eq String
string_key = record { beq = str_beq; beq_iff = eq_iff }

pub beq_refl {ℓ} : {A : Type ℓ} ⦃e : Eq A⦄ → (a : A) → (a == a) ≡ true
beq_refl ⦃e⦄ a = (e.beq_iff a a).1 refl
