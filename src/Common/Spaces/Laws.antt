-- ===== src/Common/Spaces/Laws.antt =====
-- What trim_space leaves: a text with no white space at either end, which it leaves alone.
use Prim.Native.Nat.{ℕ, zero, suc, ◌≤◌}
use mathlib.Core.Path.{◌≡◌, refl, sym, ap, ◌∙◌}
use mathlib.Core.Logic.{inl, inr}
use mathlib.Core.List.{[], ◌∷◌, ◌++◌, reverse, reverse-reverse, reverse-append, append_assoc}
use native.Mathlib.Omega.{arith}
use hateblog_backend.Common.Tests.{Bool-cases, ==_iff, ◌==◌}
use hateblog_backend.Common.Lists.{
  length, length-drop, length-reverse, length-append, take, drop, take-append-drop,
}
use hateblog_backend.Common.Text.{Bytes}
use hateblog_backend.Common.Spaces.{
  lead_width, last_width, trim_with, trim_left, trim_right, trim_space,
}

-- No white space at either end.
abbrev pub Trimmed : Bytes → Type 0
Trimmed s = (lead_width s ≡ 0) × (last_width (reverse s) ≡ 0)

lead_width-le : (s : Bytes) → lead_width s ≤ length s
unfolding lead_width
lead_width-le [] = omega arith
lead_width-le (a ∷ []) = ground arith
lead_width-le (a ∷ b ∷ []) = ground arith
lead_width-le (a ∷ b ∷ c ∷ s) = ground arith

last_width-le : (s : Bytes) → last_width s ≤ length s
unfolding last_width
last_width-le [] = omega arith
last_width-le (a ∷ []) = ground arith
last_width-le (a ∷ b ∷ []) = ground arith
last_width-le (a ∷ b ∷ c ∷ s) = ground arith

-- Cutting a text at its end brings up no white space at its start.
lead_width_prefix : (p q : Bytes) → lead_width (p ++ q) ≡ 0 → lead_width p ≡ 0
unfolding lead_width
lead_width_prefix [] q h = refl
lead_width_prefix (a ∷ []) [] h = h
lead_width_prefix (a ∷ []) (x ∷ []) h = ground arith
lead_width_prefix (a ∷ []) (x ∷ y ∷ q) h = ground arith
lead_width_prefix (a ∷ b ∷ []) [] h = h
lead_width_prefix (a ∷ b ∷ []) (x ∷ q) h = ground arith
lead_width_prefix (a ∷ b ∷ c ∷ p) q h = h

module _ (width : Bytes → ℕ) where
  trim_with-zero : (f : ℕ) (s : Bytes) → width s ≡ 0 → trim_with width f s ≡ s
  unfolding trim_with
  trim_with-zero zero s h = refl
  trim_with-zero (suc f) s h = ground arith

  trim_with-suffix : (f : ℕ) (s : Bytes) → (p : Bytes) × (s ≡ p ++ trim_with width f s)
  unfolding trim_with
  trim_with-suffix zero s = ([], refl)
  trim_with-suffix (suc f) s = elim (Bool-cases (width s == 0)) [
    | inl stop ↦ ([], rw stop)
    | inr more ↦
        let (p, e) = trim_with-suffix f (drop (width s) s) in
        (
          take (width s) s ++ p,
          rw more (
              sym (take-append-drop (width s) s)
              ∙ ap (◌++◌ (take (width s) s)) e
              ∙ sym (append_assoc (take (width s) s) p _)),
        )
  ]

  trim_with-done :
      ((s : Bytes) → width s ≤ length s)
      → (f : ℕ) (s : Bytes) → length s ≤ f
      → width (trim_with width f s) ≡ 0
  unfolding trim_with
  trim_with-done bound zero s h = omega (arith, bound s)
  trim_with-done bound (suc f) s h = elim (Bool-cases (width s == 0)) [
    | inl stop ↦ rw stop ((==_iff (width s) 0).0 stop)
    | inr more ↦ rw more (
        trim_with-done bound f (drop (width s) s)
          (ground (arith, length-drop (width s) s, bound s)))
  ]

trim_left-lead : (s : Bytes) → lead_width (trim_left s) ≡ 0
unfolding trim_left
trim_left-lead s = trim_with-done lead_width lead_width-le (length s) s (omega arith)

trim_right-last : (s : Bytes) → last_width (reverse (trim_right s)) ≡ 0
unfolding trim_right
trim_right-last s = rw reverse-reverse (
    trim_with-done last_width last_width-le (length s) (reverse s)
      (omega (arith, length-reverse s)))

trim_right-prefix : (s : Bytes) → (q : Bytes) × (s ≡ trim_right s ++ q)
unfolding trim_right
trim_right-prefix s =
    let (p, e) = trim_with-suffix last_width (length s) (reverse s) in
    (
      reverse p,
      sym (reverse-reverse s)
          ∙ ap reverse e
          ∙ reverse-append p (trim_with last_width (length s) (reverse s)),
    )

pub trim_space-Trimmed : (s : Bytes) → Trimmed (trim_space s)
unfolding trim_space
trim_space-Trimmed s =
    let (q, e) = trim_right-prefix (trim_left s) in
    (
      lead_width_prefix (trim_right (trim_left s)) q (rw (← e) (trim_left-lead s)),
      trim_right-last (trim_left s),
    )

pub trim_space_of_Trimmed : (s : Bytes) → Trimmed s → trim_space s ≡ s
unfolding trim_space trim_left trim_right
trim_space_of_Trimmed s (h, k) =
    rw
      (trim_with-zero lead_width (length s) s h, trim_with-zero last_width (length s) (reverse s) k)
      (reverse-reverse s)

pub trim_space_idem : (s : Bytes) → trim_space (trim_space s) ≡ trim_space s
trim_space_idem s = trim_space_of_Trimmed (trim_space s) (trim_space-Trimmed s)

pub trim_space-nil : trim_space [] ≡ []
unfolding trim_space
trim_space-nil = refl

last_blank : (s : Bytes) → last_width (32 ∷ s) ≡ 1
unfolding last_width
last_blank [] = refl
last_blank (a ∷ []) = refl
last_blank (a ∷ b ∷ s) = refl

trim_with-last_blank :
    (f g : ℕ) (s : Bytes) → f ≡ suc g → last_width s ≡ 0 → trim_with last_width f (32 ∷ s) ≡ s
unfolding trim_with
trim_with-last_blank f g s e h = rw (e, last_blank s) (trim_with-zero last_width g s h)

-- One blank behind a trimmed text is what trim_space takes away.
pub trim_space-blank :
    (s : Bytes) → Trimmed s → lead_width (s ++ 32 ∷ []) ≡ 0 → trim_space (s ++ 32 ∷ []) ≡ s
unfolding trim_space trim_left trim_right
trim_space-blank s (h, k) lead =
    rw
      (
        trim_with-zero lead_width (length (s ++ 32 ∷ [])) (s ++ 32 ∷ []) lead,
        reverse-append s (32 ∷ []),
      )
      (ap reverse (
          trim_with-last_blank (length (s ++ 32 ∷ [])) (length s) (reverse s)
            (omega (arith, length-append s (32 ∷ []))) k)
        ∙ reverse-reverse s)
