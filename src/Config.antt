-- ===== src/Config.antt =====
-- Settings from the environment: the readers and `SearchConfig` of config.rs. `var` is what
-- `env::var` gives of a key, and `parse_error` the message about a number that cannot be read.
use Prim.Native.String.{◌++◌ as str_append}
use abyss_backend.Common.{
  ℕ, ◌^◌, Bool, true, false, not, ◌||◌, String, List, [], ◌∷◌, map, Option, none, some, ◌==◌,
  nat_eq, list_eq, contains, if◌then◌else◌, is_some, and_then, unwrap_or, Result, ok, err, ◌>>=◌, ℤ,
  pos, negsuc,
}
use abyss_backend.Errors.{AppError, config}
use abyss_backend.Search.Text.{Text, codes}
use abyss_backend.Search.Text.Trimming.{trim}
use abyss_backend.Search.Text.Parsing.{parse_unsigned, parse_signed}
use abyss_backend.Search.Pattern.{to_ascii_lowercase}
pub mod Elasticsearch
mod Tests

abbrev pub default_search_request_timeout_seconds : ℕ
default_search_request_timeout_seconds = 10

abbrev pub default_search_poll_interval_milliseconds : ℕ
default_search_poll_interval_milliseconds = 500

abbrev pub default_search_batch_size : ℕ
default_search_batch_size = 100

pub record SearchConfig : Type 0 where
  pub endpoint : Text
  pub username : Option Text
  pub password : Option Text
  pub request_timeout_seconds : ℕ
  pub poll_interval_milliseconds : ℕ
  pub batch_size : ℕ

abbrev not_empty : Text → Option Text
not_empty [] = none
not_empty (c ∷ text) = some (c ∷ text)

abbrev push_unless_slash : ℕ → Text → Text
push_unless_slash c [] = if c == b'/' then [] else c ∷ []
push_unless_slash c (d ∷ text) = c ∷ d ∷ text

abbrev differs : Bool → Bool → Bool
differs true b = not b
differs false b = b

-- `trim_end_matches('/')`
unfoldable pub trim_slashes : Text → Text
trim_slashes [] = []
trim_slashes (c ∷ text) = push_unless_slash c (trim_slashes text)

-- `require_positive` of an unsigned number, and of a signed one.
unfoldable pub require_positive : String → ℕ → Result AppError ℕ
require_positive key value =
    if value == 0 then err (config (str_append key " must be greater than 0")) else ok value

unfoldable pub require_positive_signed : String → ℤ → Result AppError ℕ
unfolding require_positive
require_positive_signed key (negsuc n) = err (config (str_append key " must be greater than 0"))
require_positive_signed key (pos n) = require_positive key n

module _ (var : String → Option Text) (parse_error : String → Text → String) where
  unfoldable pub env_value : String → Option Text
  unfolding trim
  env_value key = and_then (var key) (λ value. not_empty (trim value))

  unfoldable pub read_env : String → Text → Text
  unfolding env_value
  read_env key fallback = unwrap_or (env_value key) fallback

  read_bool : String → Bool → Option Text → Result AppError Bool
  read_bool key fallback none = ok fallback
  read_bool key fallback (some raw) =
      let lowercase = map to_ascii_lowercase raw in
      if contains (codes "1" ∷ codes "true" ∷ codes "yes" ∷ codes "on" ∷ []) lowercase
      then ok true
      else if contains (codes "0" ∷ codes "false" ∷ codes "no" ∷ codes "off" ∷ []) lowercase
      then ok false
      else err (config (str_append key " must be true/false, yes/no, on/off, or 1/0"))

  unfoldable pub read_bool_env : String → Bool → Result AppError Bool
  unfolding env_value read_bool
  read_bool_env key fallback = read_bool key fallback (env_value key)

  abbrev parsed {ℓ} :
      {T : Type ℓ} → String → T → (Text → Option T) → Option Text → Result AppError T
  parsed key fallback parser none = ok fallback
  parsed key fallback parser (some raw) = elim (parser raw) [
    | some value ↦ ok value
    | none ↦ err (config (parse_error key raw))
  ]

  unfoldable pub parse_env {ℓ} : {T : Type ℓ} → String → T → (Text → Option T) → Result AppError T
  unfolding env_value
  parse_env key fallback parser = parsed key fallback parser (env_value key)

  -- `read_positive_u64_env`
  unfoldable pub read_positive_u64_env : String → ℕ → Result AppError ℕ
  unfolding parse_env require_positive parse_unsigned
  read_positive_u64_env key fallback =
      parse_env key fallback (parse_unsigned (2 ^ 64)) >>= require_positive key

  unfoldable pub read_positive_u32_env : String → ℕ → Result AppError ℕ
  unfolding parse_env require_positive parse_unsigned
  read_positive_u32_env key fallback =
      parse_env key fallback (parse_unsigned (2 ^ 32)) >>= require_positive key

  unfoldable pub read_positive_i64_env : String → ℕ → Result AppError ℕ
  unfolding parse_env require_positive_signed parse_signed
  read_positive_i64_env key fallback =
      parse_env key (pos fallback) (parse_signed (2 ^ 63)) >>= require_positive_signed key

  -- What follows the checks of the credentials.
  unfoldable pub configured :
      Text → Option Text → Option Text → Result AppError (Option SearchConfig)
  unfolding trim_slashes read_positive_u64_env read_positive_i64_env
  configured endpoint username password =
      read_positive_u64_env "ABYSS_BACKEND_SEARCH_REQUEST_TIMEOUT_SECONDS"
        default_search_request_timeout_seconds
      >>= λ request_timeout_seconds.
          read_positive_u64_env "ABYSS_BACKEND_SEARCH_POLL_INTERVAL_MILLISECONDS"
            default_search_poll_interval_milliseconds
          >>= λ poll_interval_milliseconds.
              read_positive_i64_env "ABYSS_BACKEND_SEARCH_BATCH_SIZE" default_search_batch_size
              >>= λ batch_size. ok (
                  some (record {
                    endpoint = trim_slashes endpoint;
                    username = username;
                    password = password;
                    request_timeout_seconds = request_timeout_seconds;
                    poll_interval_milliseconds = poll_interval_milliseconds;
                    batch_size = batch_size;
                  }))

  search_config : Option Text → Option Text → Option Text → Result AppError (Option SearchConfig)
  unfolding configured
  search_config none username password =
      if is_some username || is_some password
      then err (
          config
            "ABYSS_BACKEND_ELASTICSEARCH_URL is required when Elasticsearch credentials are configured")
      else ok none
  search_config (some endpoint) username password =
      if differs (is_some username) (is_some password)
      then err (
          config
            "ABYSS_BACKEND_ELASTICSEARCH_USERNAME and ABYSS_BACKEND_ELASTICSEARCH_PASSWORD must be configured together")
      else configured endpoint username password

  -- `SearchConfig::from_env`
  unfoldable pub from_env : Result AppError (Option SearchConfig)
  unfolding search_config env_value
  from_env =
      search_config (env_value "ABYSS_BACKEND_ELASTICSEARCH_URL")
        (env_value "ABYSS_BACKEND_ELASTICSEARCH_USERNAME")
        (env_value "ABYSS_BACKEND_ELASTICSEARCH_PASSWORD")
