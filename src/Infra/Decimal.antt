-- ===== src/Infra/Decimal.antt =====
-- The decimal digits that fmt's `%d` and strconv.Itoa print.
pub mod Printed
use hateblog_backend.Common.{
  ℕ, zero, suc, ◌+◌, ◌-◌, ◌/◌, ◌%◌, [], ◌∷◌, ◌++◌, ltb, if◌then◌else◌, any, ℤ, pos, negsuc, Bytes,
}

-- A number has as many digits as there are rounds at most.
unfoldable pub decimal_from : ℕ → ℕ → Bytes
decimal_from zero n = []
decimal_from (suc fuel) n =
    let high = decimal_from fuel (n / 10) in
    let low : Bytes = (48 + n % 10) ∷ [] in if ltb n 10 then low else high ++ low

unfoldable pub decimal : ℕ → Bytes
unfolding decimal_from
decimal n = decimal_from (suc n) n

unfoldable pub itoa : ℤ → Bytes
itoa (pos n) = decimal n
itoa (negsuc n) = b'-' ∷ decimal (suc n)
