-- ===== src/Config/Tests.antt =====
-- Settings with an address alone.
use abyss_backend.Common.{String, Option, none, some, ◌≡◌, refl, ok, ◌==◌, string_eq, if◌then◌else◌}
use abyss_backend.Search.Text.{Text, codes}
use abyss_backend.Search.Text.Trimming.{trim}
use abyss_backend.Config.{
  SearchConfig, env_value, from_env, search_config, configured, trim_slashes, read_positive_u64_env,
  read_positive_i64_env, parse_env, require_positive, require_positive_signed,
}
use abyss_backend.Config.Elasticsearch.{Settled, from_env-Settled}

abbrev var : String → Option Text
var key =
    if key == "ABYSS_BACKEND_ELASTICSEARCH_URL" then some (codes " http://search// ") else none

abbrev parse_error : String → Text → String
parse_error key raw = "is invalid"

abbrev settings : SearchConfig
settings = record {
  endpoint = codes "http://search";
  username = none;
  password = none;
  request_timeout_seconds = 10;
  poll_interval_milliseconds = 500;
  batch_size = 100;
}

settings_read : from_env var parse_error ≡ ok (some settings)
unfolding from_env env_value trim search_config configured trim_slashes read_positive_u64_env
    read_positive_i64_env parse_env require_positive require_positive_signed
settings_read = refl

from_env-Settled_example :
    Settled var parse_error
      (env_value var parse_error "ABYSS_BACKEND_ELASTICSEARCH_URL")
      (env_value var parse_error "ABYSS_BACKEND_ELASTICSEARCH_USERNAME")
      (env_value var parse_error "ABYSS_BACKEND_ELASTICSEARCH_PASSWORD")
      (some settings)
from_env-Settled_example = from_env-Settled var parse_error (some settings) settings_read
