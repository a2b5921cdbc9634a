-- ===== src/Common/Text.antt =====
-- Go strings are byte sequences.
use Prim.Native.Nat.{ℕ}
use Prim.Native.Char.{code}
use Prim.Native.String.{String}
use mathlib.Core.Path.{◌∙◌, sym, ap, ◌≡◌, refl, ap₂}
use mathlib.Core.Logic.{◌↔◌, ◌⊎◌, ◌≢◌, inl, inr}
use mathlib.Core.Bool.{Bool, true, false, ◌&&◌}
use mathlib.Core.List.{List, [], ◌∷◌}
use native.Mathlib.Omega.{arith}
use hateblog_backend.Common.Tests.{◌==◌, ==_iff, &&-true}

abbrev pub Bytes : Type 0
Bytes = List ℕ

-- The bytes of an ASCII literal.
abbrev pub codes : String → Bytes
codes String.[] = []
codes (String.◌∷◌ c s) = code c ∷ codes s

abbrev pub bytes_eq : Bytes → Bytes → Bool
bytes_eq [] [] = true
bytes_eq (a ∷ s) (b ∷ t) = a == b && bytes_eq s t
bytes_eq [] (b ∷ t) = false
bytes_eq (a ∷ s) [] = false

pub bytes_eq_sound : (s t : Bytes) → bytes_eq s t ≡ true → s ≡ t
bytes_eq_sound [] [] h = refl
bytes_eq_sound (a ∷ s) (b ∷ t) h =
    let (p, q) = &&-true (a == b) (bytes_eq s t) h in
    ap₂ ◌∷◌ ((==_iff a b).0 p) (bytes_eq_sound s t q)
bytes_eq_sound [] (b ∷ t) h = cc
bytes_eq_sound (a ∷ s) [] h = cc

pub bytes_eq_refl : (s : Bytes) → bytes_eq s s ≡ true
bytes_eq_refl [] = refl
bytes_eq_refl (a ∷ s) = ground (arith, bytes_eq_refl s)

pub bytes_eq_sym : (s t : Bytes) → bytes_eq s t ≡ bytes_eq t s
bytes_eq_sym [] [] = refl
bytes_eq_sym [] (b ∷ t) = refl
bytes_eq_sym (a ∷ s) [] = refl
bytes_eq_sym (a ∷ s) (b ∷ t) = ground (arith, bytes_eq_sym s t)

-- Two texts that are not the same are not both the same as a third.
pub bytes_eq_other :
    (s t u : Bytes) → bytes_eq s t ≡ false → bytes_eq s u ≡ true → bytes_eq t u ≡ false
bytes_eq_other s t u other same =
    ap (λ w. bytes_eq t w) (sym (bytes_eq_sound s u same)) ∙ bytes_eq_sym t s ∙ other

pub bytes_eq_iff : (s t : Bytes) → (bytes_eq s t ≡ true) ↔ (s ≡ t)
bytes_eq_iff s t = (bytes_eq_sound s t, λ e. rw e (bytes_eq_refl t))

-- `s == ""`
abbrev pub is_empty {ℓ} : {A : Type ℓ} → List A → Bool
is_empty [] = true
is_empty (a ∷ s) = false

-- To split on an emptiness test and keep both facts.
pub is_empty_cases {ℓ} :
    {A : Type ℓ} (s : List A) → ((s ≡ []) × (is_empty s ≡ true)) ⊎ ((s ≢ []) × (is_empty s ≡ false))
is_empty_cases [] = inl (refl, refl)
is_empty_cases (a ∷ s) = inr ((λ e. cc), refl)
