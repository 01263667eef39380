-- ===== src/Prelude/Equality.antt =====
-- Equality tests as an interface.
use Prim.Native.String.{String}
use mathlib.Core.Path.{◌≡◌, refl}
use mathlib.Core.Logic.{◌↔◌, ◌≢◌}
use mathlib.Core.Bool.{Bool, true, false}
use text.Mathlib.Text.{◌==◌ as str_eq}
use text.Mathlib.TextEquality.{eq_iff}
use Prim.Native.Nat.{ℕ}
use janus_server.Prelude.Tests.{◌==◌, ==_iff}

pub record Eq {ℓ} (A : Type ℓ) : Type ℓ where
  pub same : A → A → Bool
  pub same_iff : (a b : A) → (same a b ≡ true) ↔ (a ≡ b)

abbrev pub nat_eq : Eq ℕ
nat_eq = record { same = ◌==◌; same_iff = ==_iff }

abbrev pub string_eq : Eq String
string_eq = record { same = str_eq; same_iff = eq_iff }

pub same_iff_of {ℓ} :
    {A : Type ℓ} {a b : A} (d : Dec (a ≡ b))
    → (elim d [ yes _ ↦ true | no _ ↦ false ] ≡ true) ↔ (a ≡ b)
same_iff_of (yes e) = (λ h. e, λ h. refl)
same_iff_of (no ne) = (λ h. absurd cc, λ h. absurd (ne h))

-- The test that a decision procedure makes.
abbrev pub discrete_eq {ℓ} : {A : Type ℓ} → Discrete A → Eq A
discrete_eq d = record {
  same = λ a b. elim (d a b) [ yes _ ↦ true | no _ ↦ false ];
  same_iff = λ a b. same_iff_of (d a b);
}

-- And the procedure that a test makes.
abbrev pub dec_of {ℓ} : {A : Type ℓ} (e : Eq A) (a b : A) (t : Bool) → e.same a b ≡ t → Dec (a ≡ b)
dec_of e a b true h = yes ((e.same_iff a b).0 h)
dec_of e a b false h = no (λ eq. absurd (cc ((e.same_iff a b).1 eq, h)))

abbrev pub eq_discrete {ℓ} : {A : Type ℓ} → Eq A → Discrete A
eq_discrete e a b = dec_of e a b (e.same a b) refl

pub ne_of_apart {ℓ} : {A : Type ℓ} (e : Eq A) (a b : A) → e.same a b ≡ false → a ≢ b
ne_of_apart e a b h q = cc (h, (e.same_iff a b).1 q)
