-- ===== src/Domain/Tag/Truncation.antt =====
-- truncateUTF8 keeps whole runes: over a text given as its runes it keeps the longest run of
-- leading runes that fits.
use hateblog_backend.Common.{
  take-append, leb→le, ℕ, zero, suc, ◌+◌, ◌-◌, ◌≤◌, ◌<◌, ◌≡◌, refl, ap, ◌∙◌, true, false, Bytes,
  List, [], ◌∷◌, ◌++◌, arith, length, length-append, take, All, leb, if◌then◌else◌, Bool-cases, inl,
  inr,
}
use hateblog_backend.Domain.Tag.{is_continuation, starts_rune, cut_back, truncate_utf8}

-- The bytes of one rune: a byte that is no continuation byte, and continuation bytes behind it.
abbrev pub IsRune : Bytes → Type 0
IsRune [] = ⊥
IsRune (b ∷ tail) = (is_continuation b ≡ false) × All (λ c. is_continuation c ≡ true) tail

abbrev pub concat : List Bytes → Bytes
concat [] = []
concat (r ∷ rs) = r ++ concat rs

-- The longest run of leading runes within `n` bytes.
abbrev pub fit : ℕ → List Bytes → List Bytes
fit n [] = []
fit n (r ∷ rs) = if leb (length r) n then r ∷ fit (n - length r) rs else []

starts_rune-append : (s t : Bytes) (i : ℕ) → starts_rune (s ++ t) (length s + i) ≡ starts_rune t i
unfolding starts_rune
starts_rune-append [] t i = let e : 0 + i ≡ i = omega arith in rw e refl
starts_rune-append (a ∷ s) t i =
    let e : suc (length s) + i ≡ suc (length s + i) = omega arith in rw e (starts_rune-append s t i)

take_beyond : (s t : Bytes) (i : ℕ) → take (length s + i) (s ++ t) ≡ s ++ take i t
take_beyond [] t i = let e : 0 + i ≡ i = omega arith in rw e refl
take_beyond (a ∷ s) t i =
    let e : suc (length s) + i ≡ suc (length s + i) = omega arith in
    rw e (ap (◌∷◌ a) (take_beyond s t i))

-- Among continuation bytes there is no place to cut.
tail-starts :
    (tail t : Bytes) (i : ℕ)
    → All (λ c. is_continuation c ≡ true) tail
    → i < length tail
    → starts_rune (tail ++ t) i ≡ false
unfolding starts_rune
tail-starts [] t i h lt = absurd (omega arith)
tail-starts (c ∷ tail) t zero h lt = rw (h.0)
tail-starts (c ∷ tail) t (suc i) h lt = tail-starts tail t i h.1 (omega arith)

cut_back-within :
    (b : ℕ) (tail t : Bytes) (i : ℕ)
    → All (λ c. is_continuation c ≡ true) tail
    → i ≤ length tail
    → cut_back ((b ∷ tail) ++ t) i ≡ []
unfolding cut_back
cut_back-within b tail t zero h le = refl
cut_back-within b tail t (suc i) h le =
    let e : starts_rune ((b ∷ tail) ++ t) (suc i) ≡ false =
      unfold starts_rune in tail-starts tail t i h (omega arith) in
    rw e (cut_back-within b tail t i h (omega arith))

cut_back_at :
    (s : Bytes) (n m : ℕ)
    → n ≡ suc m
    → cut_back s n ≡ (if starts_rune s n then take n s else cut_back s m)
unfolding cut_back
cut_back_at s n m e = rw e refl

-- Beyond a rune the loop cuts the rest.
cut_back-beyond :
    (b : ℕ) (tail t : Bytes) (i : ℕ)
    → starts_rune t 0 ≡ true
    → cut_back ((b ∷ tail) ++ t) (length (b ∷ tail) + i) ≡ (b ∷ tail) ++ cut_back t i
cut_back-beyond b tail t zero h =
    rw
      (
        cut_back_at ((b ∷ tail) ++ t) (length (b ∷ tail) + 0) (length tail) (omega arith),
        starts_rune-append (b ∷ tail) t 0,
        h,
        take_beyond (b ∷ tail) t 0,
      )
      (unfold cut_back in refl)
cut_back-beyond b tail t (suc i) h =
    rw
      (
        cut_back_at ((b ∷ tail) ++ t) (length (b ∷ tail) + suc i) (length (b ∷ tail) + i)
            (omega arith),
        starts_rune-append (b ∷ tail) t (suc i),
        take_beyond (b ∷ tail) t (suc i),
        cut_back-beyond b tail t i h,
        cut_back_at t (suc i) i refl,
      )
      (elim (starts_rune t (suc i))
        as (λ c.
          (if c then (b ∷ tail) ++ take (suc i) t else (b ∷ tail) ++ cut_back t i)
          ≡ (b ∷ tail) ++ (if c then take (suc i) t else cut_back t i)) [
            | true ↦ refl
            | false ↦ refl
          ])

-- A text of whole runes that is not empty begins with a rune.
starts_rune-concat :
    (rs : List Bytes) → All IsRune rs → 0 < length (concat rs) → starts_rune (concat rs) 0 ≡ true
unfolding starts_rune
starts_rune-concat [] h lt = absurd (omega arith)
starts_rune-concat ([] ∷ rs) h lt = absurd (h.0)
starts_rune-concat ((b ∷ tail) ∷ rs) h lt = rw (h.0.0)

cut_back-fit :
    (rs : List Bytes) (i : ℕ)
    → All IsRune rs
    → i < length (concat rs)
    → cut_back (concat rs) i ≡ concat (fit i rs)
cut_back-fit [] i h lt = absurd (omega arith)
cut_back-fit ([] ∷ rs) i h lt = absurd (h.0)
cut_back-fit ((b ∷ tail) ∷ rs) i h lt = elim (Bool-cases (leb (length (b ∷ tail)) i)) [
  | inl fits ↦
      let k : i ≡ length (b ∷ tail) + (i - length (b ∷ tail)) = omega (arith, leb→le _ _ fits) in
      let rest : i - length (b ∷ tail) < length (concat rs) =
        omega (arith, leb→le _ _ fits, length-append (b ∷ tail) (concat rs)) in
      rw fits (
        ap (cut_back ((b ∷ tail) ++ concat rs)) k
        ∙ cut_back-beyond b tail (concat rs) (i - length (b ∷ tail))
            (starts_rune-concat rs h.1 (omega arith))
        ∙ ap (◌++◌ (b ∷ tail)) (cut_back-fit rs (i - length (b ∷ tail)) h.1 rest))
  | inr short ↦ rw short (cut_back-within b tail (concat rs) i h.0.1 (ground arith))
]

fit_all : (rs : List Bytes) (n : ℕ) → length (concat rs) ≤ n → fit n rs ≡ rs
fit_all [] n h = refl
fit_all (r ∷ rs) n h = ground (arith, length-append r (concat rs), fit_all rs (n - length r))

-- The truncation of a text of whole runes is the longest run of its leading runes that fits.
pub truncate_utf8-fit :
    (rs : List Bytes) (n : ℕ) → All IsRune rs → truncate_utf8 (concat rs) n ≡ concat (fit n rs)
unfolding truncate_utf8
truncate_utf8-fit rs n h = elim (Bool-cases (leb (length (concat rs)) n)) [
  | inl short ↦ rw (short, fit_all rs n (leb→le _ _ short))
  | inr long ↦ rw long (cut_back-fit rs n h (ground arith))
]

-- A rune has at most `w` bytes.
abbrev pub Narrow : ℕ → Bytes → Type 0
Narrow w r = length r ≤ w

length-fit-le : (rs : List Bytes) (n : ℕ) → length (concat (fit n rs)) ≤ n
length-fit-le [] n = omega arith
length-fit-le (r ∷ rs) n = elim (Bool-cases (leb (length r) n)) [
  | inl fits ↦ rw fits (
      omega (
        arith,
        leb→le _ _ fits,
        length-append r (concat (fit (n - length r) rs)),
        length-fit-le rs (n - length r),
      ))
  | inr short ↦ rw short (omega arith)
]

pub length-fit-ge :
    (w : ℕ) (rs : List Bytes) (n : ℕ)
    → All (Narrow w) rs
    → n < length (concat rs)
    → n < length (concat (fit n rs)) + w
length-fit-ge w [] n h lt = absurd (omega arith)
length-fit-ge w (r ∷ rs) n h lt = elim (Bool-cases (leb (length r) n)) [
  | inl fits ↦ rw fits (
      omega (
        arith,
        leb→le _ _ fits,
        length-append r (concat rs),
        length-append r (concat (fit (n - length r) rs)),
        length-fit-ge w rs (n - length r) h.1
            (omega (arith, leb→le _ _ fits, length-append r (concat rs))),
      ))
  | inr short ↦ rw short (ground (arith, h.0))
]

-- Cutting at a lead byte keeps what stands before it.
pub truncate_utf8-at :
    (p q : Bytes) (d n m : ℕ)
    → n ≡ suc m
    → length p ≡ n
    → is_continuation d ≡ false
    → truncate_utf8 (p ++ d ∷ q) n ≡ p
unfolding truncate_utf8
truncate_utf8-at p q d n m e len lead =
    let long : leb (length (p ++ d ∷ q)) (length p) ≡ false =
      ground (arith, length-append p (d ∷ q)) in
    let at : starts_rune (p ++ d ∷ q) (length p) ≡ true =
      ap (starts_rune (p ++ d ∷ q)) (omega arith)
      ∙ starts_rune-append p (d ∷ q) 0
      ∙ unfold starts_rune in (rw lead) in
    rw (← len, long, cut_back_at (p ++ d ∷ q) (length p) m (omega arith), at)
      (take-append p (d ∷ q))
