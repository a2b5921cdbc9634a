-- ===== src/Infra/Decimal/Printed.antt =====
-- When the texts of two numbers are equal, and which bytes they have.
use hateblog_backend.Common.{
  ℕ, zero, suc, ◌+◌, ◌-◌, ◌*◌, ◌/◌, ◌%◌, ◌<◌, ◌≡◌, refl, sym, ap, ap₂, ◌∙◌, inl, inr, Bool, true,
  not, ◌&&◌, ◌||◌, [], ◌∷◌, ◌++◌, arith, ltb, leb, ◌==◌, ltb→lt, &&-true, Bool-cases, drop, all, ℤ,
  pos, negsuc, Bytes,
}
use hateblog_backend.Infra.Decimal.{decimal_from, decimal, itoa}

-- What the digits say, read from the left.
abbrev value : ℕ → Bytes → ℕ
value n [] = n
value n (c ∷ s) = value (n * 10 + (c - 48)) s

value-append : (n : ℕ) (s t : Bytes) → value n (s ++ t) ≡ value (value n s) t
value-append n [] t = refl
value-append n (c ∷ s) t = value-append (n * 10 + (c - 48)) s t

value-decimal_from : (fuel n : ℕ) → n < fuel → value 0 (decimal_from fuel n) ≡ n
unfolding decimal_from
value-decimal_from zero n h = omega arith
value-decimal_from (suc fuel) n h = elim (Bool-cases (ltb n 10)) [
  | inl few ↦ let small = ltb→lt n 10 few in rw few (omega arith)
  | inr many ↦
      rw
        (
          many,
          value-append 0 (decimal_from fuel (n / 10)) ((48 + n % 10) ∷ []),
          value-decimal_from fuel (n / 10) (ground arith),
        )
        (omega arith)
]

abbrev is_figure : ℕ → Bool
is_figure c = leb 48 c && leb c 57

all-append : (p : ℕ → Bool) (s t : Bytes) → all p s ≡ true → all p t ≡ true → all p (s ++ t) ≡ true
all-append p [] t h k = k
all-append p (c ∷ s) t h k =
    let (a, b) = &&-true (p c) (all p s) h in rw (a, all-append p s t b k) refl

decimal_from-figures : (fuel n : ℕ) → all is_figure (decimal_from fuel n) ≡ true
unfolding decimal_from
decimal_from-figures zero n = refl
decimal_from-figures (suc fuel) n = elim (Bool-cases (ltb n 10)) [
  | inl few ↦ rw few (last n)
  | inr many ↦ rw many (
      all-append is_figure (decimal_from fuel (n / 10)) ((48 + n % 10) ∷ [])
        (decimal_from-figures fuel (n / 10)) (last n))
]
  where
    last : (n : ℕ) → all is_figure ((48 + n % 10) ∷ []) ≡ true
    last n = ground arith

pub decimal_injective : (m n : ℕ) → decimal m ≡ decimal n → m ≡ n
unfolding decimal
decimal_injective m n h =
    sym (value-decimal_from (suc m) m (omega arith))
    ∙ ap (value 0) h
    ∙ value-decimal_from (suc n) n (omega arith)

signed_apart : (s t : Bytes) → all is_figure s ≡ true → s ≡ b'-' ∷ t → ⊥
signed_apart s t h e = cc (h, ap (all is_figure) e)

pub itoa_injective : (a b : ℤ) → itoa a ≡ itoa b → a ≡ b
unfolding itoa decimal
itoa_injective (pos m) (pos n) h = ap pos (decimal_injective m n h)
itoa_injective (pos m) (negsuc n) h =
    elim (signed_apart (decimal m) (decimal (suc n)) (decimal_from-figures (suc m) m) h) [ ]
itoa_injective (negsuc m) (pos n) h =
    elim (signed_apart (decimal n) (decimal (suc m)) (decimal_from-figures (suc n) n) (sym h)) [ ]
itoa_injective (negsuc m) (negsuc n) h =
    let same : suc m ≡ suc n = decimal_injective (suc m) (suc n) (ap (drop 1) h) in
    ap negsuc (omega arith)

abbrev pub colon_free : Bytes → Bool
colon_free = all (λ c. not (c == b':'))

-- A printed number has figures and a minus sign only.
abbrev pub is_numeral : Bytes → Bool
is_numeral = all (λ c. is_figure c || c == b'-')

figures-is_numeral : (s : Bytes) → all is_figure s ≡ true → is_numeral s ≡ true
figures-is_numeral [] h = refl
figures-is_numeral (c ∷ s) h =
    let (a, b) = &&-true (is_figure c) (all is_figure s) h in rw (a, figures-is_numeral s b) refl

pub itoa-is_numeral : (a : ℤ) → is_numeral (itoa a) ≡ true
unfolding itoa decimal
itoa-is_numeral (pos n) = figures-is_numeral (decimal n) (decimal_from-figures (suc n) n)
itoa-is_numeral (negsuc n) =
    figures-is_numeral (decimal (suc n)) (decimal_from-figures (suc (suc n)) (suc n))

numeral-colon_free : (s : Bytes) → is_numeral s ≡ true → colon_free s ≡ true
numeral-colon_free [] h = refl
numeral-colon_free (c ∷ s) h =
    let (a, b) = &&-true (is_figure c || c == b'-') (is_numeral s) h in
    let here : not (c == b':') ≡ true = ground arith in rw (here, numeral-colon_free s b) refl

pub itoa-colon_free : (a : ℤ) → colon_free (itoa a) ≡ true
itoa-colon_free a = numeral-colon_free (itoa a) (itoa-is_numeral a)

colon_refused : (c : ℕ) → b':' ≡ c → not (c == b':') ≡ true → ⊥
colon_refused c same h = cc (h, same)

-- The first colon splits a text in one way.
pub first_colon :
    (s t u v : Bytes)
    → colon_free s ≡ true
    → colon_free t ≡ true
    → s ++ b':' ∷ u ≡ t ++ b':' ∷ v
    → (s ≡ t) × (u ≡ v)
first_colon [] [] u v h k e = (refl, cc e)
first_colon [] (c ∷ t) u v h k e =
    let (here, _) = &&-true (not (c == b':')) (colon_free t) k in
    let same : b':' ≡ c = cc e in elim (colon_refused c same here) [ ]
first_colon (c ∷ s) [] u v h k e =
    let (here, _) = &&-true (not (c == b':')) (colon_free s) h in
    let same : b':' ≡ c = cc e in elim (colon_refused c same here) [ ]
first_colon (c ∷ s) (d ∷ t) u v h k e =
    let (_, left) = &&-true (not (c == b':')) (colon_free s) h in
    let (_, right) = &&-true (not (d == b':')) (colon_free t) k in
    let same : c ≡ d = cc e in
    let (a, b) = first_colon s t u v left right (ap (drop 1) e) in (ap₂ (λ x y. x ∷ y) same a, b)
