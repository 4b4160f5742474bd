-- ===== src/Identity/Tests.antt =====
-- Authentication with a digest that is the token itself.
use abyss_backend.Common.{
  String, Option, some, true, ◌≡◌, ◌↔◌, ◌⊎◌, refl, ok, err, ◌==◌, nat_eq, list_eq, ==→eq, ==_refl,
  subst,
}
use abyss_backend.Errors.{unauthorized}
use abyss_backend.Search.Text.{Text, codes}
use abyss_backend.Identity.{
  Bytes, Crypto, IdentityConfig, owner_id, authenticate, bearer_token, token_of, split_whitespace,
  split_words,
}
use abyss_backend.Identity.Authenticated.{IsAuthorized, authenticate-IsAuthorized}

abbrev plain : Crypto
plain = record {
  hex_decode = λ text. some text;
  hex_encode = λ bytes. bytes;
  digest = λ token. token;
  ct_eq = λ a b. a == b;
}

exact : (a b : Bytes) → ((a == b) ≡ true) ↔ (a ≡ b)
exact a b = (==→eq a b, (λ e. subst (λ (c : Bytes). (a == c) ≡ true) e (==_refl a)))

abbrev identity : IdentityConfig
identity = record { token_hash = codes "correct-token" }

abbrev header : Option (Option Text)
header = some (some (codes "bEARER  correct-token"))

owner_authenticated : authenticate plain identity header ≡ ok owner_id
unfolding authenticate bearer_token token_of split_whitespace split_words
owner_authenticated = refl

authenticate-IsAuthorized_example :
    ((authenticate plain identity header ≡ ok owner_id) × IsAuthorized plain identity header)
    ⊎ ((message : String) × (authenticate plain identity header ≡ err (unauthorized message))
        × (IsAuthorized plain identity header → ⊥))
authenticate-IsAuthorized_example = authenticate-IsAuthorized plain identity header exact
