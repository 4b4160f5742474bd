-- ===== src/Identity.antt =====
-- Bearer authentication: identity.rs. The hex and SHA-256 crates and the comparison of `subtle` are
-- the parameter `crypto`. A header is given as `get` and `to_str` read it: none where it is absent,
-- none inside where its value is no text.
use abyss_backend.Common.{
  ℕ, Bool, true, false, not, ◌&&◌, ◌||◌, List, [], ◌∷◌, map, Option, none, some, ◌==◌, nat_eq,
  list_eq, if◌then◌else◌, length, first, unwrap_or, is_some, drop, Result, ok, err, ◌>>=◌,
}
use abyss_backend.Errors.{AppError, config, unauthorized}
use abyss_backend.Search.Text.{Text, codes}
use abyss_backend.Search.Text.Trimming.{is_whitespace}
use abyss_backend.Search.Pattern.{to_ascii_lowercase}
pub mod Authenticated
mod Tests

abbrev pub Bytes : Type 0
Bytes = List ℕ

pub record Crypto : Type 0 where
  pub hex_decode : Text → Option Bytes
  pub hex_encode : Bytes → Text
  pub digest : Text → Bytes
  pub ct_eq : Bytes → Bytes → Bool

abbrev pub owner_id : ℕ
owner_id = 1

pub record IdentityConfig : Type 0 where
  pub token_hash : Bytes

abbrev invalid_hash : AppError
invalid_hash = config "ABYSS_BACKEND_API_TOKEN_SHA256 must be 64 lowercase hexadecimal characters"

abbrev push_word : Text → List Text → List Text
push_word [] words = words
push_word (c ∷ word) words = (c ∷ word) ∷ words

-- `str::split_whitespace`: the word that the text starts in, and those behind it.
unfoldable pub split_words : Text → Text × List Text
split_words [] = ([], [])
split_words (c ∷ text) =
    let (word, words) = split_words text in
    if is_whitespace c then ([], push_word word words) else (c ∷ word, words)

unfoldable pub split_whitespace : Text → List Text
unfolding split_words
split_whitespace text = let (word, words) = split_words text in push_word word words

abbrev pub lowercase : Text → Text
lowercase text = map to_ascii_lowercase text

abbrev is_empty : Text → Bool
is_empty [] = true
is_empty (c ∷ text) = false

-- The test of `bearer_token` of the parts of the value, and the token.
unfoldable pub token_of : List Text → Result AppError Text
token_of parts =
    let scheme = unwrap_or (first parts) [] in
    let token = unwrap_or (first (drop 1 parts)) [] in
    if not (lowercase scheme == codes "bearer") || is_empty token || is_some (first (drop 2 parts))
    then err (unauthorized "authorization header must contain one bearer token")
    else ok token

unfoldable pub bearer_token : Option (Option Text) → Result AppError Text
unfolding token_of split_whitespace
bearer_token none = err (unauthorized "bearer token required")
bearer_token (some none) = err (unauthorized "invalid authorization header")
bearer_token (some (some value)) = token_of (split_whitespace value)

module _ (crypto : Crypto) where
  unfoldable pub parse_hash : Text → Option Bytes → Result AppError IdentityConfig
  parse_hash encoded_hash none = err invalid_hash
  parse_hash encoded_hash (some bytes) =
      if length bytes == 32 && encoded_hash == crypto.hex_encode bytes
      then ok (record { token_hash = bytes })
      else err invalid_hash

  -- `IdentityConfig::parse`
  unfoldable pub parse : Text → Result AppError IdentityConfig
  unfolding parse_hash
  parse encoded_hash = parse_hash encoded_hash (crypto.hex_decode encoded_hash)

  unfoldable pub authenticate : IdentityConfig → Option (Option Text) → Result AppError ℕ
  unfolding bearer_token
  authenticate identity header = bearer_token header >>= λ token.
      if crypto.ct_eq (crypto.digest token) identity.token_hash
      then ok owner_id
      else err (unauthorized "invalid bearer token")
