-- ===== src/Config/Elasticsearch.antt =====
-- Which settings of Elasticsearch are accepted (config.rs).
use abyss_backend.Common.{
  ℕ, ◌^◌, ◌<◌, false, String, [], ◌∷◌, Option, none, some, ◌≡◌, ◌≢◌, refl, sym, ap, subst, ◌∙◌, inl,
  inr, arith, ◌==◌, nat_eq, ==-cases, map_option, is_some, last, ok, >>=-ok, ok-injective, ℤ, pos,
  negsuc,
}
use mathlib.Core.Option.{some-injective}
use abyss_backend.Search.Text.{Text}
use abyss_backend.Search.Text.Parsing.{parse_unsigned, parse_signed}
use abyss_backend.Config.{
  SearchConfig, trim_slashes, push_unless_slash, require_positive, require_positive_signed,
  env_value, parse_env, read_positive_u64_env, read_positive_i64_env, configured, search_config,
  from_env,
}

require_positive-lt : (key : String) (value n : ℕ) → require_positive key value ≡ ok n → 0 < n
unfolding require_positive
require_positive-lt key value n h = ground arith

signed-lt : (key : String) (value : ℤ) (n : ℕ) → require_positive_signed key value ≡ ok n → 0 < n
unfolding require_positive_signed
signed-lt key (negsuc k) n h = absurd (cc)
signed-lt key (pos k) n h = require_positive-lt key k n h

-- Where the rest does not end in a slash, the whole does not.
push_unless_slash-last :
    (c : ℕ) (rest : Text) → last rest ≢ some b'/' → last (push_unless_slash c rest) ≢ some b'/'
push_unless_slash-last c [] n h = elim (==-cases c b'/') [
  | inl (e, _) ↦ absurd (ground arith)
  | inr (e, q) ↦ q (some-injective _ _ (sym (ap last (unless c e)) ∙ h))
]
  where
    unless : (d : ℕ) → (d == b'/') ≡ false → push_unless_slash d [] ≡ d ∷ []
    unless d e = rw e refl
push_unless_slash-last c (d ∷ rest) n h = n h

trim_slashes-last : (text : Text) → last (trim_slashes text) ≢ some b'/'
unfolding trim_slashes
trim_slashes-last [] h = absurd (cc)
trim_slashes-last (c ∷ text) h =
    push_unless_slash-last c (trim_slashes text) (trim_slashes-last text) h

module _ (var : String → Option Text) (parse_error : String → Text → String) where
  read_u64-lt :
      (key : String) (fallback n : ℕ)
      → read_positive_u64_env var parse_error key fallback ≡ ok n
      → 0 < n
  unfolding read_positive_u64_env
  read_u64-lt key fallback n h =
      let read = parse_env var parse_error key fallback (parse_unsigned (2 ^ 64)) in
      let (value, _, checked) = >>=-ok (require_positive key) read h in
      require_positive-lt key value n checked

  read_i64-lt :
      (key : String) (fallback n : ℕ)
      → read_positive_i64_env var parse_error key fallback ≡ ok n
      → 0 < n
  unfolding read_positive_i64_env
  read_i64-lt key fallback n h =
      let read = parse_env var parse_error key (pos fallback) (parse_signed (2 ^ 63)) in
      let (value, _, checked) = >>=-ok (require_positive_signed key) read h in
      signed-lt key value n checked

  -- The settings are those of a search with this address, name and password.
  pub record IsConfigured (url username password : Option Text) (c : SearchConfig) : Type 0 where
    pub endpoint : map_option trim_slashes url ≡ some c.endpoint
    pub no_slash : last c.endpoint ≢ some b'/'
    pub named : c.username ≡ username
    pub secret : c.password ≡ password
    pub together : is_some username ≡ is_some password
    pub timeout : 0 < c.request_timeout_seconds
    pub interval : 0 < c.poll_interval_milliseconds
    pub batch : 0 < c.batch_size

  -- What settings there are for the three values.
  abbrev pub Settled : Option Text → Option Text → Option Text → Option SearchConfig → Type 0
  Settled url username password none = (url ≡ none) × (username ≡ none) × (password ≡ none)
  Settled url username password (some c) = IsConfigured url username password c

  configured-IsConfigured :
      (url : Text) (username password : Option Text) (r : Option SearchConfig)
      → is_some username ≡ is_some password
      → configured var parse_error url username password ≡ ok r
      → Settled (some url) username password r
  unfolding configured
  configured-IsConfigured url username password r both h =
      let (timeout, e1, h1) = >>=-ok _ _ h in
      let (interval, e2, h2) = >>=-ok _ _ h1 in
      let (batch, e3, same) = >>=-ok _ _ h2 in
      let c : SearchConfig = record {
        endpoint = trim_slashes url;
        username = username;
        password = password;
        request_timeout_seconds = timeout;
        poll_interval_milliseconds = interval;
        batch_size = batch;
      } in
      let settled : IsConfigured (some url) username password c = record {
        endpoint = refl;
        no_slash = trim_slashes-last url;
        named = refl;
        secret = refl;
        together = both;
        timeout = read_u64-lt _ _ timeout e1;
        interval = read_u64-lt _ _ interval e2;
        batch = read_i64-lt _ _ batch e3;
      } in
      subst (Settled (some url) username password) (ok-injective (ok (some c)) refl same) settled

  search_config-Settled :
      (url username password : Option Text) (r : Option SearchConfig)
      → search_config var parse_error url username password ≡ ok r
      → Settled url username password r
  unfolding search_config
  search_config-Settled none none none r h =
      subst (Settled none none none) (ok-injective (ok none) refl h) (refl, refl, refl)
  search_config-Settled none none (some p) r h = absurd (cc)
  search_config-Settled none (some u) password r h = absurd (cc)
  search_config-Settled (some url) none none r h = configured-IsConfigured url none none r refl h
  search_config-Settled (some url) none (some p) r h = absurd (cc)
  search_config-Settled (some url) (some u) none r h = absurd (cc)
  search_config-Settled (some url) (some u) (some p) r h =
      configured-IsConfigured url (some u) (some p) r refl h

  -- Where start-up succeeds, search is off exactly if neither its address nor credentials are set.
  -- Else it has the address without slashes at its end, a name and a password together or neither,
  -- and numbers above 0.
  pub from_env-Settled :
      (r : Option SearchConfig)
      → from_env var parse_error ≡ ok r
      → Settled
          (env_value var parse_error "ABYSS_BACKEND_ELASTICSEARCH_URL")
          (env_value var parse_error "ABYSS_BACKEND_ELASTICSEARCH_USERNAME")
          (env_value var parse_error "ABYSS_BACKEND_ELASTICSEARCH_PASSWORD")
          r
  unfolding from_env
  from_env-Settled r h = search_config-Settled _ _ _ r h
