-- ===== src/Infra/Postgres/Numbered.antt =====
-- Each placeholder of a query's text has its argument.
use hateblog_backend.Common.{
  ℕ, zero, suc, ◌+◌, ◌-◌, ◌*◌, ◌≡◌, refl, sym, ap, ◌∙◌, inl, inr, Bool, true, false, ◌&&◌, Option,
  none, some, List, [], ◌∷◌, ◌++◌, append-nil, append_assoc, arith, leb, ◌==◌, if◌then◌else◌,
  Bool-cases, length, length-append, Bytes,
}
use hateblog_backend.Domain.ListQuery.{ListQuery, SortType}
use hateblog_backend.Infra.Decimal.{decimal}
use hateblog_backend.Infra.Postgres.{
  entry_columns, total_columns, select_sql, filters, paged_sql, plain_list_sql, plain_total_sql,
  Sql, int, min_filter, tag_filter, time_filter, Arg, Parts, add_filter, add_filters, where_clause,
  join, order_clause, limit_clause,
}

-- The numbers of the placeholders `$1`, `$2` and so on in a text; the first argument is the number that
-- is being read.
abbrev pub scan : Option ℕ → Bytes → List ℕ
scan none [] = []
scan (some n) [] = n ∷ []
scan none (b ∷ s) = if b == 36 then scan (some 0) s else scan none s
scan (some n) (b ∷ s) =
    if leb 48 b && leb b 57
    then scan (some (10 * n + (b - 48))) s
    else if b == 36
    then n ∷ scan (some 0) s
    else n ∷ scan none s

abbrev pub placeholders : Bytes → List ℕ
placeholders s = scan none s

-- `k` numbers from `n` on.
abbrev pub numbers : ℕ → ℕ → List ℕ
numbers n zero = []
numbers n (suc k) = n ∷ numbers (suc n) k

pub scan-append : (o : Option ℕ) (s t : Bytes) → scan o (s ++ 32 ∷ t) ≡ scan o s ++ scan none t
scan-append none [] t = refl
scan-append (some n) [] t = refl
scan-append none (b ∷ s) t = elim (Bool-cases (b == 36)) [
  | inl e ↦ rw e (scan-append (some 0) s t)
  | inr e ↦ rw e (scan-append none s t)
]
scan-append (some n) (b ∷ s) t = elim (Bool-cases (leb 48 b && leb b 57)) [
  | inl d ↦ rw d (scan-append (some (10 * n + (b - 48))) s t)
  | inr d ↦ elim (Bool-cases (b == 36)) [
    | inl e ↦ rw (d, e) (ap (λ r. n ∷ r) (scan-append (some 0) s t))
    | inr e ↦ rw (d, e) (ap (λ r. n ∷ r) (scan-append none s t))
  ]
]

scan-order_clause :
    (sort : SortType) (t : Bytes) → scan none (order_clause sort [] ++ t) ≡ scan none t
unfolding order_clause
scan-order_clause SortType.sort_new t = refl
scan-order_clause SortType.sort_hot t = refl
scan-order_clause SortType.unset t = refl
scan-order_clause (SortType.unsupported s) t = refl

abbrev start : Parts
start = record { conditions = []; args = []; arg_pos = 1 }

abbrev AreNumbered : Parts → Bytes → Type 0
AreNumbered p t =
    (scan none (where_clause p.conditions ++ 32 ∷ t) ≡ numbers 1 (length p.args) ++ scan none t)
    × (p.arg_pos ≡ suc (length p.args))
    × (scan none (limit_clause p.arg_pos) ≡ p.arg_pos ∷ suc p.arg_pos ∷ [])

add_filters-AreNumbered :
    (least names from to : Option Arg) (t : Bytes)
    → AreNumbered (add_filters least names from to start) t
unfolding where_clause join add_filters add_filter decimal limit_clause
add_filters-AreNumbered none none none none t = (refl, refl, refl)
add_filters-AreNumbered none none none (some d) t = (refl, refl, refl)
add_filters-AreNumbered none none (some c) none t = (refl, refl, refl)
add_filters-AreNumbered none none (some c) (some d) t = (refl, refl, refl)
add_filters-AreNumbered none (some b) none none t = (refl, refl, refl)
add_filters-AreNumbered none (some b) none (some d) t = (refl, refl, refl)
add_filters-AreNumbered none (some b) (some c) none t = (refl, refl, refl)
add_filters-AreNumbered none (some b) (some c) (some d) t = (refl, refl, refl)
add_filters-AreNumbered (some a) none none none t = (refl, refl, refl)
add_filters-AreNumbered (some a) none none (some d) t = (refl, refl, refl)
add_filters-AreNumbered (some a) none (some c) none t = (refl, refl, refl)
add_filters-AreNumbered (some a) none (some c) (some d) t = (refl, refl, refl)
add_filters-AreNumbered (some a) (some b) none none t = (refl, refl, refl)
add_filters-AreNumbered (some a) (some b) none (some d) t = (refl, refl, refl)
add_filters-AreNumbered (some a) (some b) (some c) none t = (refl, refl, refl)
add_filters-AreNumbered (some a) (some b) (some c) (some d) t = (refl, refl, refl)

-- The text of a query has the placeholders 1, 2 and so on, each once and in this order, as many as there
-- are arguments.
abbrev pub IsNumbered : Sql → Type 0
IsNumbered (s, args) = placeholders s ≡ numbers 1 (length args)

pub numbers-append :
    (n k m : ℕ) → m ≡ n + k → numbers n k ++ m ∷ suc m ∷ [] ≡ numbers n (suc (suc k))
numbers-append n zero m h = let same : m ≡ n = omega arith in rw same refl
numbers-append n (suc k) m h = ap (λ r. n ∷ r) (numbers-append (suc n) k m (omega arith))

-- An order begins with a blank.
pub order_clause_blank :
    (sort : SortType) (prefix : Bytes) → (t : Bytes) × (order_clause sort prefix ≡ 32 ∷ t)
unfolding order_clause
order_clause_blank SortType.sort_new prefix = (_, refl)
order_clause_blank SortType.sort_hot prefix = (_, refl)
order_clause_blank SortType.unset prefix = (_, refl)
order_clause_blank (SortType.unsupported s) prefix = (_, refl)

paged_sql-IsNumbered :
    (columns : Bytes) (q : ListQuery) (p : Parts)
    → ((t : Bytes) → AreNumbered p t)
    → ((r : Bytes)
        → scan none (select_sql columns p ++ r) ≡ scan none (where_clause p.conditions ++ r))
    → IsNumbered (paged_sql columns q p)
unfolding paged_sql
paged_sql-IsNumbered columns q p numbered plain =
    let (t, blank) = order_clause_blank q.sort [] in
    let limit = limit_clause p.arg_pos in
    let two_more : suc (suc (length p.args)) ≡ length (p.args ++ int q.limit ∷ int q.offset ∷ []) =
      omega (arith, length-append p.args (int q.limit ∷ int q.offset ∷ [])) in
    let (filtered, position, limits) = numbered (t ++ limit) in
    ap (scan none) (append_assoc (select_sql columns p) (order_clause q.sort []) limit)
    ∙ plain (order_clause q.sort [] ++ limit)
    ∙ ap (λ o. scan none (where_clause p.conditions ++ (o ++ limit))) blank
    ∙ filtered
    ∙ ap (λ r. numbers 1 (length p.args) ++ r)
        (ap (λ o. scan none (o ++ limit)) (sym blank) ∙ scan-order_clause q.sort limit ∙ limits)
    ∙ numbers-append 1 (length p.args) p.arg_pos (position ∙ omega arith)
    ∙ ap (numbers 1) two_more

pub plain_list_sql-IsNumbered :
    (q : ListQuery) (count_only : Bool) → IsNumbered (plain_list_sql q count_only)
unfolding plain_list_sql filters select_sql entry_columns
plain_list_sql-IsNumbered q true =
    let p = filters q in
    let (filtered, position, limits) =
      add_filters-AreNumbered (min_filter q) (tag_filter q) (time_filter q.posted_at_from)
        (time_filter q.posted_at_to) [] in
    sym (append-nil (scan none (where_clause p.conditions)))
    ∙ sym (scan-append none (where_clause p.conditions) [])
    ∙ filtered
    ∙ append-nil (numbers 1 (length p.args))
plain_list_sql-IsNumbered q false =
    paged_sql-IsNumbered entry_columns q (filters q)
      (add_filters-AreNumbered (min_filter q) (tag_filter q) (time_filter q.posted_at_from)
        (time_filter q.posted_at_to))
      (λ r. refl)

pub plain_total_sql-IsNumbered : (q : ListQuery) → IsNumbered (plain_total_sql q)
unfolding plain_total_sql filters select_sql total_columns
plain_total_sql-IsNumbered q =
    paged_sql-IsNumbered total_columns q (filters q)
      (add_filters-AreNumbered (min_filter q) (tag_filter q) (time_filter q.posted_at_from)
        (time_filter q.posted_at_to))
      (λ r. refl)
