-- ===== src/Base/Classes.antt =====
-- Rust's `Eq`: a Boolean test that decides equality, with its instances.
use Prim.Native.Nat.{ℕ}
use Prim.Native.String.{String}
use text.Mathlib.Text.{◌==◌ as str_eq}
use text.Mathlib.TextEquality.{eq_iff}
use mathlib.Core.Path.{◌≡◌, refl, subst}
use mathlib.Core.Logic.{◌↔◌}
use mathlib.Core.Bool.{Bool, true, false, ◌&&◌}
use mathlib.Core.Option.{Option, none, some}
use mathlib.Core.List.{List, [], ◌∷◌}
use native.Mathlib.Omega.{arith}
use acp_hub.Base.Tests.{eqb, eqb_iff}

-- The test, that it holds of equal values only, and of each value and itself.
pub record Eq {ℓ} (A : Type ℓ) : Type ℓ where
  pub same : A → A → Bool
  pub same_sound : (a b : A) → same a b ≡ true → a ≡ b
  pub same_refl : (a : A) → same a a ≡ true

module _ {ℓ} {A : Type ℓ} ⦃e : Eq A⦄ where
  infix 50 ◌==◌
  abbrev pub ◌==◌ : A → A → Bool
  a == b = e.same a b

  pub ==_refl : (a : A) → (a == a) ≡ true
  ==_refl = e.same_refl

  pub ==_iff : (a b : A) → ((a == b) ≡ true) ↔ (a ≡ b)
  ==_iff a b = (e.same_sound a b, λ h. subst (λ c. (a == c) ≡ true) h (==_refl a))

instance abbrev pub string_eq : Eq String
string_eq = record {
  same = str_eq;
  same_sound = λ a b. (eq_iff a b).0;
  same_refl = λ a. (eq_iff a a).1 refl;
}

instance abbrev pub nat_eq : Eq ℕ
nat_eq = record {
  same = eqb;
  same_sound = λ a b. (eqb_iff a b).0;
  same_refl = λ a. (eqb_iff a a).1 refl;
}

module _ {ℓ κ} {A : Type ℓ} {B : Type κ} ⦃e : Eq A⦄ ⦃f : Eq B⦄ where
  abbrev same_pair : A × B → A × B → Bool
  same_pair (a, b) (c, d) = e.same a c && f.same b d

  pub same_pair_sound : (p q : A × B) → same_pair p q ≡ true → p ≡ q
  same_pair_sound (a, b) (c, d) h = ground (arith, h, e.same_sound a c, f.same_sound b d)

  pub same_pair_refl : (p : A × B) → same_pair p p ≡ true
  same_pair_refl (a, b) = ground (arith, e.same_refl a, f.same_refl b)

  instance abbrev pub pair_eq : Eq (A × B)
  pair_eq = record { same = same_pair; same_sound = same_pair_sound; same_refl = same_pair_refl }

module _ {ℓ} {A : Type ℓ} ⦃e : Eq A⦄ where
  abbrev same_list : List A → List A → Bool
  same_list [] [] = true
  same_list [] (y ∷ ys) = false
  same_list (x ∷ xs) [] = false
  same_list (x ∷ xs) (y ∷ ys) = e.same x y && same_list xs ys

  pub same_list_sound : (xs ys : List A) → same_list xs ys ≡ true → xs ≡ ys
  same_list_sound [] [] h = refl
  same_list_sound [] (y ∷ ys) h = cc
  same_list_sound (x ∷ xs) [] h = cc
  same_list_sound (x ∷ xs) (y ∷ ys) h = ground (arith, h, e.same_sound x y, same_list_sound xs ys)

  pub same_list_refl : (xs : List A) → same_list xs xs ≡ true
  same_list_refl [] = refl
  same_list_refl (x ∷ xs) = ground (arith, e.same_refl x, same_list_refl xs)

  instance abbrev pub list_eq : Eq (List A)
  list_eq = record { same = same_list; same_sound = same_list_sound; same_refl = same_list_refl }

module _ {ℓ} {A : Type ℓ} ⦃e : Eq A⦄ where
  abbrev same_option : Option A → Option A → Bool
  same_option none none = true
  same_option none (some b) = false
  same_option (some a) none = false
  same_option (some a) (some b) = e.same a b

  pub same_option_sound : (a b : Option A) → same_option a b ≡ true → a ≡ b
  same_option_sound none none h = refl
  same_option_sound none (some b) h = cc
  same_option_sound (some a) none h = cc
  same_option_sound (some a) (some b) h = ground (arith, h, e.same_sound a b)

  pub same_option_refl : (a : Option A) → same_option a a ≡ true
  same_option_refl none = refl
  same_option_refl (some a) = e.same_refl a

  instance abbrev pub option_eq : Eq (Option A)
  option_eq = record {
    same = same_option;
    same_sound = same_option_sound;
    same_refl = same_option_refl;
  }

abbrev same_bool : Bool → Bool → Bool
same_bool true true = true
same_bool false false = true
same_bool _ _ = false

pub same_bool_sound : (a b : Bool) → same_bool a b ≡ true → a ≡ b
same_bool_sound true true h = refl
same_bool_sound true false h = cc
same_bool_sound false true h = cc
same_bool_sound false false h = refl

pub same_bool_refl : (a : Bool) → same_bool a a ≡ true
same_bool_refl true = refl
same_bool_refl false = refl

instance abbrev pub bool_eq : Eq Bool
bool_eq = record { same = same_bool; same_sound = same_bool_sound; same_refl = same_bool_refl }
