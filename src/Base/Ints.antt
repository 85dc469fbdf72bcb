-- ===== src/Base/Ints.antt =====
-- `i64`, as far as it is compared: an integer over the native numbers.
use Prim.Native.Nat.{ℕ}
use mathlib.Core.Path.{◌≡◌, refl, ap}
use mathlib.Core.Bool.{Bool, true, false}
use native.Mathlib.Omega.{arith}
use acp_hub.Base.Tests.{eqb, eqb_iff, leb, if◌then◌else◌}
use acp_hub.Base.Classes.{Eq}

pub data ℤ : Type 0 where
  pos negsuc : ℕ → ℤ

abbrev pub le_int : ℤ → ℤ → Bool
le_int (pos a) (pos b) = leb a b
le_int (pos a) (negsuc b) = false
le_int (negsuc a) (pos b) = true
le_int (negsuc a) (negsuc b) = leb b a

abbrev same_int : ℤ → ℤ → Bool
same_int (pos a) (pos b) = eqb a b
same_int (negsuc a) (negsuc b) = eqb a b
same_int _ _ = false

pub same_int_sound : (a b : ℤ) → same_int a b ≡ true → a ≡ b
same_int_sound (pos a) (pos b) h = ap pos ((eqb_iff a b).0 h)
same_int_sound (pos a) (negsuc b) h = cc
same_int_sound (negsuc a) (pos b) h = cc
same_int_sound (negsuc a) (negsuc b) h = ap negsuc ((eqb_iff a b).0 h)

pub same_int_refl : (a : ℤ) → same_int a a ≡ true
same_int_refl (pos a) = (eqb_iff a a).1 refl
same_int_refl (negsuc a) = (eqb_iff a a).1 refl

instance abbrev pub int_eq : Eq ℤ
int_eq = record { same = same_int; same_sound = same_int_sound; same_refl = same_int_refl }

abbrev pub is_negative : ℤ → Bool
is_negative (pos a) = false
is_negative (negsuc a) = true

-- Comparison is transitive.
pub le_int_trans : (a b c : ℤ) → le_int a b ≡ true → le_int b c ≡ true → le_int a c ≡ true
le_int_trans (pos a) (pos b) (pos c) h k = ground (arith, h, k)
le_int_trans (pos a) (pos b) (negsuc c) h k = cc
le_int_trans (pos a) (negsuc b) c h k = cc
le_int_trans (negsuc a) (pos b) (pos c) h k = refl
le_int_trans (negsuc a) (pos b) (negsuc c) h k = cc
le_int_trans (negsuc a) (negsuc b) (pos c) h k = refl
le_int_trans (negsuc a) (negsuc b) (negsuc c) h k = ground (arith, h, k)

pub le_int_refl : (a : ℤ) → le_int a a ≡ true
le_int_refl (pos a) = ground arith
le_int_refl (negsuc a) = ground arith

-- `i64::max`.
abbrev pub max_int : ℤ → ℤ → ℤ
max_int a b = if le_int a b then b else a

pub le-max_int : (a b : ℤ) → le_int a (max_int a b) ≡ true
le-max_int a b = let r = le_int_refl a in ground (arith, r)

le_int_total : (a b : ℤ) → le_int a b ≡ false → le_int b a ≡ true
le_int_total (pos a) (pos b) h = ground (arith, h)
le_int_total (pos a) (negsuc b) h = refl
le_int_total (negsuc a) (pos b) h = cc
le_int_total (negsuc a) (negsuc b) h = ground (arith, h)

pub le-max_int_right : (a b : ℤ) → le_int b (max_int a b) ≡ true
le-max_int_right a b = let r = le_int_refl b in let t = le_int_total a b in ground (arith, r, t)
