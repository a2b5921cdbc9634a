-- ===== src/Server/Config/Valid/Examples.antt =====
-- The configuration with the defaults of the environment.
use hateblog_backend.Common.{◌≡◌, ◌↔◌, true, pos, ok, codes}
use hateblog_backend.Server.Config.{Config, validate}
use hateblog_backend.Server.Config.Valid.{IsValid, validate_iff}

abbrev defaults : Config
defaults = record {
  server = record { host = codes "0.0.0.0"; port = pos 8080 };
  database = record {
    host = codes "localhost";
    user = codes "hateblog";
    database = codes "hateblog";
    max_conns = pos 25;
    min_conns = pos 5;
  };
  redis = record { host = codes "localhost"; port = pos 6379; db = pos 0 };
  app = record {
    log_level = codes "info";
    log_format = codes "json";
    rate_limit_enabled = true;
    rate_limit_window = pos 60_000_000_000;
    rate_limit_max_requests = pos 100;
  };
}

validate_iff_example : (validate defaults ≡ ok tt) ↔ IsValid defaults
validate_iff_example = validate_iff defaults
