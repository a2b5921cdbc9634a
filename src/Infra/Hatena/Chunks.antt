-- ===== src/Infra/Hatena/Chunks.antt =====
-- The counts of all URLs come together from chunks that the service accepts.
use hateblog_backend.Common.{
  ℕ, zero, suc, ◌+◌, ◌-◌, ◌≤◌, ◌<◌, ◌≡◌, refl, sym, ap, ap₂, ◌∙◌, subst, inl, inr, Bool, true,
  false, not, ◌&&◌, ◌||◌, Option, none, some, List, [], ◌∷◌, ◌++◌, map, arith, ltb, if◌then◌else◌,
  ltb→lt, Bool-cases, length, take, drop, take-append-drop, length-take, length-drop, take_all,
  take_split, ℤ, Result, ok, Bytes, bytes_eq, bytes_eq_sound, is_empty, is_empty_cases, trim_space,
  trim_space_idem, has_text, has_text-append, find_text, or_else, find_text-append,
}
use hateblog_backend.Usecase.Ports.{Fault}
use hateblog_backend.Infra.Hatena.{
  Counts, max_urls, dedupe_from, dedupe_urls, chunk_at, count_chunks, fetch_bookmark_counts,
}

-- A client never asks for less than one URL, or for more than 50, at a time.
pub max_urls_bounds : (configured : ℤ) → (0 < max_urls configured) × (max_urls configured ≤ 50)
unfolding max_urls
max_urls_bounds configured = ground arith

-- What is asked for: trimmed, not empty.
abbrev pub IsClean : Bytes → Type 0
IsClean u = (is_empty u ≡ false) × (trim_space u ≡ u)

abbrev pub IsAsked : List Bytes → List Bytes → Type 0
IsAsked seen [] = Unit
IsAsked seen (u ∷ urls) = IsClean u × (has_text u seen ≡ false) × IsAsked (u ∷ seen) urls

dedupe_from-IsAsked : (seen urls : List Bytes) → IsAsked seen (dedupe_from seen urls)
unfolding dedupe_from
dedupe_from-IsAsked seen [] = tt
dedupe_from-IsAsked seen (u ∷ urls) = elim (Bool-cases (is_empty (trim_space u))) [
  | inl blank ↦ rw blank (dedupe_from-IsAsked seen urls)
  | inr some_text ↦ elim (Bool-cases (has_text (trim_space u) seen)) [
    | inl known ↦ rw (some_text, known) (dedupe_from-IsAsked seen urls)
    | inr fresh ↦
        rw (some_text, fresh)
          ((some_text, trim_space_idem u), fresh, dedupe_from-IsAsked (trim_space u ∷ seen) urls)
  ]
]

or_false : (b : Bool) → (b || false) ≡ b
or_false true = refl
or_false false = refl

members_step :
    (blank known same empty seen skipped kept rest : Bool)
    → (same ≡ true → (blank ≡ empty) × (known ≡ seen))
    → (skipped || seen) ≡ (seen || (not empty && rest))
    → (kept || (same || seen)) ≡ ((same || seen) || (not empty && rest))
    → ((if blank then skipped else if known then skipped else (same || kept)) || seen)
      ≡ (seen || (not empty && (same || rest)))
members_step blank known same empty seen skipped kept rest alike old new = ground arith

has_text-if :
    (u : Bytes) (b : Bool) (xs ys : List Bytes)
    → has_text u (if b then xs else ys) ≡ (if b then has_text u xs else has_text u ys)
has_text-if u true xs ys = refl
has_text-if u false xs ys = refl

-- A text is asked for, or known before, when it is known before or is a trimmed text that is not empty.
has_text-dedupe_from :
    (u : Bytes) (seen urls : List Bytes)
    → (has_text u (dedupe_from seen urls) || has_text u seen)
      ≡ (has_text u seen || (not (is_empty u) && has_text u (map trim_space urls)))
unfolding dedupe_from
has_text-dedupe_from u seen [] = ground arith
has_text-dedupe_from u seen (x ∷ xs) =
    let t = trim_space x in
    let alike : bytes_eq t u ≡ true
        → (is_empty t ≡ is_empty u) × (has_text t seen ≡ has_text u seen) =
      λ same. (
        ap is_empty (bytes_eq_sound t u same),
        ap (λ v. has_text v seen) (bytes_eq_sound t u same),
      ) in
    let step =
      members_step (is_empty t) (has_text t seen) (bytes_eq t u) (is_empty u) (has_text u seen)
        (has_text u (dedupe_from seen xs)) (has_text u (dedupe_from (t ∷ seen) xs))
        (has_text u (map trim_space xs)) alike (has_text-dedupe_from u seen xs)
        (has_text-dedupe_from u (t ∷ seen) xs) in
    rw (has_text-if u (is_empty t) _ _, has_text-if u (has_text t seen) _ _) step

has_text-dedupe_urls :
    (u : Bytes) (urls : List Bytes)
    → has_text u (dedupe_urls urls) ≡ (not (is_empty u) && has_text u (map trim_space urls))
unfolding dedupe_urls
has_text-dedupe_urls u urls =
    sym (or_false (has_text u (dedupe_urls urls))) ∙ has_text-dedupe_from u [] urls

abbrev pub IsChunk : ℕ → List Bytes → Type 0
IsChunk most c = (0 < length c) × (length c ≤ most)

module _ (urls : List Bytes) (start most : ℕ) where
  -- The end of a chunk as one number.
  abbrev width : ℕ
  width = (if ltb (length urls) (start + most) then length urls else start + most) - start

  width_bounds :
      start < length urls → 0 < most → (0 < width) × (width ≤ most) × (width ≤ length urls - start)
  width_bounds inside positive = ground arith

  chunk_at-IsChunk : start < length urls → 0 < most → IsChunk most (chunk_at urls start most)
  chunk_at-IsChunk inside positive =
      let (low, high, room) = width_bounds inside positive in
      let size = length-take width (drop start urls) in
      let left = length-drop start urls in (omega (arith, size, left), omega (arith, size, left))

  take-chunk_at :
      start < length urls → take (start + most) urls ≡ take start urls ++ chunk_at urls start most
  take-chunk_at inside = elim (Bool-cases (ltb (length urls) (start + most))) [
    | inl last ↦
        let past : length urls ≤ start + most = ground arith in
        let rest : length (drop start urls) ≤ length urls - start =
          omega (arith, length-drop start urls) in
        rw
          (
            last,
            take_all (start + most) urls past,
            take_all (length urls - start) (drop start urls) rest,
          )
          (sym (take-append-drop start urls))
    | inr full ↦ rw full (take_split (start + most) start (start + most - start) urls (omega arith))
  ]

-- A service that answers chunks of at most `most` URLs, with the counts it has for the URLs asked for.
abbrev pub Answers : (List Bytes → Result Fault Counts) → ℕ → (Bytes → Option ℤ) → Type 0
Answers request most value =
    (c : List Bytes)
    → IsChunk most c
    → (part : Counts) × (request c ≡ ok part)
      × ((u : Bytes) → find_text part u ≡ (if has_text u c then value u else none))

if_or :
    (a b : Bool) (o : Option ℤ)
    → or_else (if a then o else none) (if b then o else none) ≡ (if b || a then o else none)
if_or true true none = refl
if_or true true (some v) = refl
if_or true false none = refl
if_or true false (some v) = refl
if_or false true o = refl
if_or false false o = refl

module _ (request : List Bytes → Result Fault Counts) (most : ℕ) (value : Bytes → Option ℤ)
    (positive : 0 < most) (answers : Answers request most value) where
  -- The counts of the URLs of a list, and no others.
  abbrev CountsOf : List Bytes → Counts → Type 0
  CountsOf urls counts =
      (u : Bytes) → find_text counts u ≡ (if has_text u urls then value u else none)

  CountsOf-append :
      (c done : List Bytes) (part counts : Counts)
      → CountsOf c part
      → CountsOf done counts
      → CountsOf (done ++ c) (part ++ counts)
  CountsOf-append c done part counts new old u =
      find_text-append part counts u
      ∙ ap₂ or_else (new u) (old u)
      ∙ if_or (has_text u c) (has_text u done) (value u)
      ∙ ap (λ b. if b then value u else none) (sym (has_text-append u done c))

  count_chunks_total :
      (fuel : ℕ) (urls : List Bytes) (start : ℕ) (counts : Counts)
      → length urls - start < fuel
      → CountsOf (take start urls) counts
      → (out : Counts) × (count_chunks request fuel urls most start counts ≡ some (ok out))
        × CountsOf urls out
  unfolding count_chunks
  count_chunks_total zero urls start counts enough old = absurd (omega arith)
  count_chunks_total (suc fuel) urls start counts enough old =
      elim (Bool-cases (ltb start (length urls))) [
        | inl more ↦
            let inside : start < length urls = ltb→lt start (length urls) more in
            let (part, answer, new) =
              answers (chunk_at urls start most)
                (chunk_at-IsChunk urls start most inside positive) in
            let next =
              CountsOf-append (chunk_at urls start most) (take start urls) part counts new old in
            let (out, run, all_of) =
              count_chunks_total fuel urls (start + most) (part ++ counts) (omega arith) (
                subst (λ us. CountsOf us (part ++ counts))
                  (sym (take-chunk_at urls start most inside)) next) in
            (out, rw (more, answer) run, all_of)
        | inr done ↦
            let past : length urls ≤ start = ground arith in
            (counts, rw done refl, subst (λ us. CountsOf us counts) (take_all start urls past) old)
      ]

  -- With a service that answers each request for 1 to `most` URLs, where `most` is at least 1, the loop
  -- ends without an error, however many URLs are given, and the outcome holds what the service has for
  -- the given URLs, trimmed and without the empty ones, and nothing for another URL.
  pub fetch_bookmark_counts_total :
      (urls : List Bytes)
      → (out : Counts) × (fetch_bookmark_counts request most urls ≡ some (ok out))
        × ((u : Bytes)
            → find_text out u
              ≡ (if not (is_empty u) && has_text u (map trim_space urls) then value u else none))
  unfolding fetch_bookmark_counts
  fetch_bookmark_counts_total urls =
      let asked : (out : Counts)
          → CountsOf (dedupe_urls urls) out
          → (u : Bytes)
          → find_text out u
            ≡ (if not (is_empty u) && has_text u (map trim_space urls) then value u else none) =
        λ out c u. c u ∙ ap (λ b. if b then value u else none) (has_text-dedupe_urls u urls) in
      elim (is_empty_cases (dedupe_urls urls)) [
        | inl (e, t) ↦ ([], rw t refl, asked [] (subst (λ us. CountsOf us []) (sym e) (λ u. refl)))
        | inr (n, t) ↦
            let clean = dedupe_urls urls in
            let (out, run, all_of) =
              count_chunks_total (suc (length clean)) clean 0 [] (omega arith) (λ u. refl) in
            (out, rw t run, asked out all_of)
      ]
