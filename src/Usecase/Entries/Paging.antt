-- ===== src/Usecase/Entries/Paging.antt =====
-- Filtering by users and cutting out a page.
use hateblog_backend.Common.{
  ℕ, zero, suc, ◌+◌, ◌-◌, ◌≤◌, ◌<◌, ◌≡◌, refl, sym, ap, ◌∙◌, inl, inr, true, false, none, some,
  List, [], ◌∷◌, arith, leb, Bool-cases, length, take, drop, keep, length-drop, drop_all, All, ℤ,
  pos, ◌+ℤ◌, ◌≤ℤ◌, ltb_ℤ, leb_ℤ, eqb_ℤ, wrap64, wrap64_of_IsInt64, half64,
}
use Prim.Native.Nat.{min}
use hateblog_backend.Domain.Entry.{Entry}
use hateblog_backend.Usecase.Entries.{
  filter_by_min_users, page_from, page_count, page_end, cut_page, paginate,
}

abbrev pub HasUsers : ℤ → Entry → Type 0
HasUsers least e = least ≤ℤ e.bookmark_count

keep-HasUsers :
    (least : ℤ) (es : List Entry)
    → All (HasUsers least) (keep (λ e. leb_ℤ least e.bookmark_count) es)
keep-HasUsers least [] = tt
keep-HasUsers least (e ∷ es) = ground (arith, keep-HasUsers least es)

-- A positive bound lets through entries with at least so many users only.
pub filter_by_min_users-HasUsers :
    (es : List Entry) (least : ℕ)
    → All (HasUsers (pos (suc least))) (filter_by_min_users es (pos (suc least)))
unfolding filter_by_min_users
filter_by_min_users-HasUsers es least =
    let plain : ltb_ℤ (pos (suc least)) (pos 0) ≡ false = ground arith in
    let bounded : eqb_ℤ (pos (suc least)) (pos 0) ≡ false = ground arith in
    rw (plain, bounded) (keep-HasUsers (pos (suc least)) es)

page_from-pos : (n : ℕ) → page_from (pos n) ≡ pos n
unfolding page_from
page_from-pos n = ground arith

page_count-pos : (n : ℕ) → page_count (pos (suc n)) ≡ pos (suc n)
unfolding page_count
page_count-pos n = ground arith

page_end_fits :
    (len a b : ℕ) → a + b < half64 → page_end len (pos a) (pos b) ≡ pos (min len (a + b))
unfolding page_end
page_end_fits len a b h =
    let sum : pos a +ℤ pos b ≡ pos (a + b) = ground arith in
    let same : wrap64 (pos (a + b)) ≡ pos (a + b) = wrap64_of_IsInt64 (pos (a + b)) (omega arith) in
    rw (sum, same) (ground arith)

page_end_wraps :
    (len a b : ℕ)
    → a < half64
    → b < half64
    → half64 ≤ a + b
    → ltb_ℤ (page_end len (pos a) (pos b)) (pos a) ≡ true
unfolding page_end
page_end_wraps len a b p q h =
    let sum : pos a +ℤ pos b ≡ pos (a + b) = ground arith in rw sum (ground arith)

take-min {ℓ} : {A : Type ℓ} (n : ℕ) (es : List A) → take (min (length es) n) es ≡ take n es
take-min zero es = let e : min (length es) 0 ≡ 0 = omega arith in rw e refl
take-min (suc n) [] = let e : min 0 (suc n) ≡ 0 = omega arith in rw e refl
take-min (suc n) (x ∷ es) =
    let e : min (suc (length es)) (suc n) ≡ suc (min (length es) n) = omega arith in
    rw e (ap (◌∷◌ x) (take-min n es))

min_sub : (len a b : ℕ) → a < len → min len (a + b) - a ≡ min (len - a) b
min_sub len a b h = omega arith

-- The page is `limit` entries from `offset` on, as long as the sum of both fits 64 bits.
pub paginate_page {ℓ} :
    {A : Type ℓ} (es : List A) (offset limit : ℕ)
    → offset + suc limit < half64
    → paginate es (pos offset) (pos (suc limit)) ≡ some (take (suc limit) (drop offset es))
unfolding paginate cut_page
paginate_page es offset limit h =
    rw (page_from-pos offset, page_count-pos limit, page_end_fits (length es) offset (suc limit) h)
      (elim (Bool-cases (leb_ℤ (pos (length es)) (pos offset))) [
        | inl beyond ↦ rw (beyond, drop_all offset es (ground arith)) refl
        | inr within ↦
            let inside : offset < length es = ground arith in
            let room : ltb_ℤ (pos (min (length es) (offset + suc limit))) (pos offset) ≡ false =
              ground arith in
            rw (within, room)
              (ap some (
                ap (λ n. take n (drop offset es))
                  (min_sub (length es) offset (suc limit) inside
                    ∙ ap (λ n. min n (suc limit)) (sym (length-drop offset es)))
                ∙ take-min (suc limit) (drop offset es)))
      ])

paginate_beyond {ℓ} :
    {A : Type ℓ} (es : List A) (offset limit : ℕ)
    → length es ≤ offset
    → paginate es (pos offset) (pos (suc limit)) ≡ some []
unfolding paginate cut_page
paginate_beyond es offset limit h =
    let beyond : leb_ℤ (pos (length es)) (pos offset) ≡ true = ground arith in
    rw (page_from-pos offset, beyond) refl

-- For a list and a limit that fit 64 bits together, there is a page at each offset.
pub paginate_total {ℓ} :
    {A : Type ℓ} (es : List A) (offset limit : ℕ)
    → length es + suc limit < half64
    → paginate es (pos offset) (pos (suc limit)) ≡ some (take (suc limit) (drop offset es))
paginate_total es offset limit h = elim (Bool-cases (leb (length es) offset)) [
  | inl beyond ↦
      let le : length es ≤ offset = ground arith in
      rw (drop_all offset es le) (paginate_beyond es offset limit le)
  | inr within ↦ paginate_page es offset limit (ground arith)
]

-- Where the sum does not fit, the end of the page wraps around and the slice panics, for each offset
-- within the list.
pub paginate_overflow {ℓ} :
    {A : Type ℓ} (es : List A) (offset limit : ℕ)
    → offset < length es
    → length es < half64
    → suc limit < half64
    → half64 ≤ offset + suc limit
    → paginate es (pos offset) (pos (suc limit)) ≡ none
unfolding paginate cut_page
paginate_overflow es offset limit inside short small big =
    let within : leb_ℤ (pos (length es)) (pos offset) ≡ false = ground arith in
    rw
      (
        page_from-pos offset,
        page_count-pos limit,
        within,
        page_end_wraps (length es) offset (suc limit) (omega arith) small big,
      )
      refl
