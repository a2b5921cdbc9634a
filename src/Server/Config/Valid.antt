-- ===== src/Server/Config/Valid.antt =====
-- Which configurations are accepted.
pub mod Examples
use hateblog_backend.Common.{
  ℕ, ◌-◌, ◌≤◌, ◌<◌, ◌≡◌, refl, ap, ◌≢◌, ◌↔◌, ◌⊎◌, inl, inr, Bool, true, false, not, ◌||◌, [], ◌∷◌,
  arith, ltb, leb, Bool-cases, ℤ, pos, ◌≤ℤ◌, ◌<ℤ◌, ltb_ℤ, leb_ℤ, ok, reject_if, reject_if-eq-ok,
  guard-eq-ok, Bytes, is_empty, has_text, min,
}
use hateblog_backend.Server.Config.{
  Config, AppConfig, ConfigError, invalid_server_port, database_host_required,
  database_user_required, database_name_required, too_few_connections, redis_host_required,
  invalid_redis_database, invalid_log_level, invalid_log_format, window_not_positive,
  max_requests_not_positive, valid_log_levels, valid_log_formats, check_rate_limit, validate,
}

-- What the program needs of a configuration.
pub record IsValid (c : Config) : Type 0 where
  pub port_least : pos 1 ≤ℤ c.server.port
  pub port_most : c.server.port ≤ℤ pos 65_535
  pub database_host : c.database.host ≢ []
  pub database_user : c.database.user ≢ []
  pub database_name : c.database.database ≢ []
  pub connections : c.database.min_conns ≤ℤ c.database.max_conns
  pub redis_host : c.redis.host ≢ []
  pub redis_least : pos 0 ≤ℤ c.redis.db
  pub redis_most : c.redis.db ≤ℤ pos 15
  pub log_level : has_text c.app.log_level valid_log_levels ≡ true
  pub log_format : has_text c.app.log_format valid_log_formats ≡ true
  pub window : (c.app.rate_limit_enabled ≡ false) ⊎ (pos 0 <ℤ c.app.rate_limit_window)
  pub max_requests : (c.app.rate_limit_enabled ≡ false) ⊎ (pos 0 <ℤ c.app.rate_limit_max_requests)

filled : (s : Bytes) → is_empty s ≡ false → s ≢ []
filled [] h e = cc h
filled (c ∷ s) h e = cc e

not_empty : (s : Bytes) → s ≢ [] → is_empty s ≡ false
not_empty [] h = absurd (h refl)
not_empty (c ∷ s) h = refl

in_between :
    (n : ℤ) (low high : ℕ)
    → (ltb_ℤ n (pos low) || ltb_ℤ (pos high) n) ≡ false
    → (pos low ≤ℤ n) × (n ≤ℤ pos high)
in_between n low high h = ground arith

in_between_false :
    (n : ℤ) (low high : ℕ)
    → pos low ≤ℤ n
    → n ≤ℤ pos high
    → (ltb_ℤ n (pos low) || ltb_ℤ (pos high) n) ≡ false
in_between_false n low high h k = ground arith

not_less : (a b : ℤ) → ltb_ℤ a b ≡ false → b ≤ℤ a
not_less a b h = ground arith

not_less_false : (a b : ℤ) → b ≤ℤ a → ltb_ℤ a b ≡ false
not_less_false a b h = ground arith

positive : (a : ℤ) → leb_ℤ a (pos 0) ≡ false → pos 0 <ℤ a
positive a h = ground arith

positive_false : (a : ℤ) → pos 0 <ℤ a → leb_ℤ a (pos 0) ≡ false
positive_false a h = ground arith

truth_of_not : (b : Bool) → not b ≡ false → b ≡ true
truth_of_not true h = refl
truth_of_not false h = cc h

check_rate_limit_ok :
    (a : AppConfig)
    → check_rate_limit a ≡ ok tt
    → ((a.rate_limit_enabled ≡ false) ⊎ (pos 0 <ℤ a.rate_limit_window))
      × ((a.rate_limit_enabled ≡ false) ⊎ (pos 0 <ℤ a.rate_limit_max_requests))
unfolding check_rate_limit
check_rate_limit_ok a h = elim (Bool-cases a.rate_limit_enabled) [
  | inr off ↦ (inl off, inl off)
  | inl on ↦
      let tests = rw on at h in
      let (w, h1) = guard-eq-ok (leb_ℤ a.rate_limit_window (pos 0)) window_not_positive _ tests in
      let m =
        reject_if-eq-ok (leb_ℤ a.rate_limit_max_requests (pos 0)) max_requests_not_positive h1 in
      (inr (positive a.rate_limit_window w), inr (positive a.rate_limit_max_requests m))
]

ok_check_rate_limit :
    (a : AppConfig)
    → ((a.rate_limit_enabled ≡ false) ⊎ (pos 0 <ℤ a.rate_limit_window))
    → ((a.rate_limit_enabled ≡ false) ⊎ (pos 0 <ℤ a.rate_limit_max_requests))
    → check_rate_limit a ≡ ok tt
unfolding check_rate_limit
ok_check_rate_limit a (inl off) m = rw off refl
ok_check_rate_limit a (inr w) (inl off) = rw off refl
ok_check_rate_limit a (inr w) (inr m) = elim (Bool-cases a.rate_limit_enabled) [
  | inr off ↦ rw off refl
  | inl on ↦
      rw (on, positive_false a.rate_limit_window w, positive_false a.rate_limit_max_requests m) refl
]

validate-IsValid : (c : Config) → validate c ≡ ok tt → IsValid c
unfolding validate
validate-IsValid c h =
    let (p, h1) =
      guard-eq-ok (ltb_ℤ c.server.port (pos 1) || ltb_ℤ (pos 65_535) c.server.port)
        invalid_server_port _ h in
    let (dh, h2) = guard-eq-ok (is_empty c.database.host) database_host_required _ h1 in
    let (du, h3) = guard-eq-ok (is_empty c.database.user) database_user_required _ h2 in
    let (dd, h4) = guard-eq-ok (is_empty c.database.database) database_name_required _ h3 in
    let (dc, h5) =
      guard-eq-ok (ltb_ℤ c.database.max_conns c.database.min_conns) too_few_connections _ h4 in
    let (rh, h6) = guard-eq-ok (is_empty c.redis.host) redis_host_required _ h5 in
    let (rd, h7) =
      guard-eq-ok (ltb_ℤ c.redis.db (pos 0) || ltb_ℤ (pos 15) c.redis.db) invalid_redis_database _
        h6 in
    let (ll, h8) =
      guard-eq-ok (not (has_text c.app.log_level valid_log_levels)) invalid_log_level _ h7 in
    let (lf, h9) =
      guard-eq-ok (not (has_text c.app.log_format valid_log_formats)) invalid_log_format _ h8 in
    let (w, m) = check_rate_limit_ok c.app h9 in
    record {
      port_least = (in_between c.server.port 1 65_535 p).0;
      port_most = (in_between c.server.port 1 65_535 p).1;
      database_host = filled c.database.host dh;
      database_user = filled c.database.user du;
      database_name = filled c.database.database dd;
      connections = not_less c.database.max_conns c.database.min_conns dc;
      redis_host = filled c.redis.host rh;
      redis_least = (in_between c.redis.db 0 15 rd).0;
      redis_most = (in_between c.redis.db 0 15 rd).1;
      log_level = truth_of_not (has_text c.app.log_level valid_log_levels) ll;
      log_format = truth_of_not (has_text c.app.log_format valid_log_formats) lf;
      window = w;
      max_requests = m;
    }

-- Validate accepts a configuration exactly if the port is from 1 to 65535, the database has a host, a
-- user, a name and no more idle than open connections, Redis has a host and a database from 0 to 15,
-- the level and the format of the log are known, and a rate limit that is switched on has a positive
-- window and a positive number of requests.
pub validate_iff : (c : Config) → (validate c ≡ ok tt) ↔ IsValid c
unfolding validate
validate_iff c = (
  validate-IsValid c,
  λ v.
      rw
        (
          in_between_false c.server.port 1 65_535 v.port_least v.port_most,
          not_empty c.database.host v.database_host,
          not_empty c.database.user v.database_user,
          not_empty c.database.database v.database_name,
          not_less_false c.database.max_conns c.database.min_conns v.connections,
          not_empty c.redis.host v.redis_host,
          in_between_false c.redis.db 0 15 v.redis_least v.redis_most,
          v.log_level,
          v.log_format,
        )
        (ok_check_rate_limit c.app v.window v.max_requests),
)
