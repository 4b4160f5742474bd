-- ===== src/Identity/Authenticated.antt =====
-- Which requests are authenticated (identity.rs).
use abyss_backend.Common.{
  Bool, true, ◌&&◌, List, [], ◌∷◌, String, Option, none, some, ◌≡◌, ◌↔◌, ◌⊎◌, refl, sym, ap, ◌∙◌,
  inl, inr, arith, ◌==◌, nat_eq, list_eq, ==→eq, Bool-cases, length, first, ok, err, Result-cases,
  ok-injective,
}
use mathlib.Core.Option.{some-injective}
use abyss_backend.Errors.{AppError, unauthorized}
use abyss_backend.Search.Text.{Text, codes}
use abyss_backend.Identity.{
  Bytes, Crypto, IdentityConfig, owner_id, split_whitespace, lowercase, token_of, bearer_token,
  parse_hash, parse, authenticate,
}

-- The words of a value are the scheme and one token.
abbrev pub IsBearer : Text → List Text → Type 0
IsBearer token parts =
    (scheme : Text) × (parts ≡ scheme ∷ token ∷ [])
    × (lowercase scheme ≡ codes "bearer")
    × (length token ≡ 0 → ⊥)

token_of-IsBearer :
    (parts : List Text) (token : Text) → token_of parts ≡ ok token → IsBearer token parts
unfolding token_of
token_of-IsBearer [] token h = absurd (cc)
token_of-IsBearer (scheme ∷ []) token h = absurd (ground arith)
token_of-IsBearer (scheme ∷ [] ∷ parts) token h = absurd (ground arith)
token_of-IsBearer (scheme ∷ (c ∷ word) ∷ more ∷ parts) token h = absurd (ground arith)
token_of-IsBearer (scheme ∷ (c ∷ word) ∷ []) token h =
    elim (Bool-cases (lowercase scheme == codes "bearer")) [
      | inl e ↦
          let same : (c ∷ word) ≡ token =
            ok-injective (token_of (scheme ∷ (c ∷ word) ∷ [])) (unfold token_of in rw e refl) h in
          (
            scheme,
            ap (λ t. scheme ∷ t ∷ []) same,
            ==→eq (lowercase scheme) (codes "bearer") e,
            (λ z. ground (arith, ap length same, z)),
          )
      | inr e ↦ absurd (ground arith)
    ]

IsBearer-token_of :
    (parts : List Text) (token : Text) → IsBearer token parts → token_of parts ≡ ok token
unfolding token_of
IsBearer-token_of parts [] (scheme, e, bearer, n) = absurd (n refl)
IsBearer-token_of parts (c ∷ word) (scheme, e, bearer, n) = rw e (rw bearer refl)

token_of-error :
    (parts : List Text) (error : AppError)
    → token_of parts ≡ err error
    → error ≡ unauthorized "authorization header must contain one bearer token"
unfolding token_of
token_of-error parts error h = ground arith

-- The header holds one bearer token, and its digest is the configured one.
abbrev pub IsAuthorized : Crypto → IdentityConfig → Option (Option Text) → Type 0
IsAuthorized crypto identity header =
    (value : Text) × (token : Text) × (header ≡ some (some value))
    × IsBearer token (split_whitespace value)
    × (crypto.digest token ≡ identity.token_hash)

abbrev Answered : Crypto → IdentityConfig → Option (Option Text) → Type 0
Answered crypto identity header =
    ((authenticate crypto identity header ≡ ok owner_id) × IsAuthorized crypto identity header)
    ⊎ ((message : String) × (authenticate crypto identity header ≡ err (unauthorized message))
        × (IsAuthorized crypto identity header → ⊥))

-- A request with an authorization header's text.
text-Answered :
    (crypto : Crypto) (identity : IdentityConfig) (value : Text)
    → ((a b : Bytes) → (crypto.ct_eq a b ≡ true) ↔ (a ≡ b))
    → Answered crypto identity (some (some value))
unfolding authenticate bearer_token
text-Answered crypto identity value exact =
    elim (Result-cases (token_of (split_whitespace value))) [
      | inl (token, e) ↦
          elim (Bool-cases (crypto.ct_eq (crypto.digest token) identity.token_hash)) [
            | inl q ↦ inl (
              rw e (rw q refl),
              (
                value,
                token,
                refl,
                token_of-IsBearer (split_whitespace value) token e,
                (exact _ _).0 q,
              ),
            )
            | inr q ↦ inr (
              "invalid bearer token",
              rw e (rw q refl),
              (λ (v, t, same, bearer, digest).
                  let v_is = some-injective _ _ (some-injective _ _ same) in
                  let t_is : token ≡ t = ok-injective (token_of (split_whitespace value)) e (
                    ap (λ w. token_of (split_whitespace w)) v_is
                    ∙ IsBearer-token_of (split_whitespace v) t bearer) in
                  absurd (
                    ground (
                      arith,
                      q,
                      (exact (crypto.digest token) identity.token_hash).1
                          (ap (λ w. crypto.digest w) t_is ∙ digest),
                    ))),
            )
          ]
      | inr (error, e) ↦
          let e' = e ∙ ap err (token_of-error (split_whitespace value) error e) in
          inr (
            "authorization header must contain one bearer token",
            rw e' refl,
            (λ (v, t, same, bearer, digest).
                let v_is = some-injective _ _ (some-injective _ _ same) in
                let found =
                  ap (λ w. token_of (split_whitespace w)) v_is
                  ∙ IsBearer-token_of (split_whitespace v) t bearer in
                absurd (cc (found, e))),
          )
    ]

-- Where the comparison of digests is exact, a request is authenticated as the owner exactly if its
-- header is text that splits at whitespace into a scheme, `bearer` in any case, and one token whose
-- digest is the configured one. Every other request gets an unauthorized error.
pub authenticate-IsAuthorized :
    (crypto : Crypto) (identity : IdentityConfig) (header : Option (Option Text))
    → ((a b : Bytes) → (crypto.ct_eq a b ≡ true) ↔ (a ≡ b))
    → ((authenticate crypto identity header ≡ ok owner_id) × IsAuthorized crypto identity header)
      ⊎ ((message : String) × (authenticate crypto identity header ≡ err (unauthorized message))
          × (IsAuthorized crypto identity header → ⊥))
unfolding authenticate bearer_token
authenticate-IsAuthorized crypto identity none exact =
    inr ("bearer token required", refl, (λ (v, t, same, bearer, digest). absurd (cc)))
authenticate-IsAuthorized crypto identity (some none) exact = inr (
  "invalid authorization header",
  refl,
  (λ (v, t, same, bearer, digest). let inner = some-injective _ _ same in absurd (cc)),
)
authenticate-IsAuthorized crypto identity (some (some value)) exact =
    text-Answered crypto identity value exact

parse_hash-canonical :
    (crypto : Crypto) (encoded : Text) (decoded : Option Bytes) (identity : IdentityConfig)
    → parse_hash crypto encoded decoded ≡ ok identity
    → (encoded ≡ crypto.hex_encode identity.token_hash) × (length identity.token_hash ≡ 32)
unfolding parse_hash
parse_hash-canonical crypto encoded none identity h = absurd (cc)
parse_hash-canonical crypto encoded (some bytes) identity h =
    elim (Bool-cases (length bytes == 32 && encoded == crypto.hex_encode bytes)) [
      | inr e ↦ absurd (ground arith)
      | inl e ↦
          let (wide, same) =
            and-eq-true (length bytes == 32) (encoded == crypto.hex_encode bytes) e in
          let whole : bytes ≡ identity.token_hash =
            ap (λ (i : IdentityConfig). i.token_hash)
              (ok-injective (parse_hash crypto encoded (some bytes))
                (unfold parse_hash in rw e refl) h) in
          (
            ==→eq encoded (crypto.hex_encode bytes) same ∙ ap (λ b. crypto.hex_encode b) whole,
            ap length (sym whole) ∙ ==→eq (length bytes) 32 wide,
          )
    ]
  where
    and-eq-true : (a b : Bool) → (a && b) ≡ true → (a ≡ true) × (b ≡ true)
    and-eq-true a b h = (ground arith, ground arith)

-- A hash of the configuration has 32 bytes, and only one text of it is accepted.
pub parse-canonical :
    (crypto : Crypto) (first second : Text) (identity : IdentityConfig)
    → parse crypto first ≡ ok identity
    → parse crypto second ≡ ok identity
    → (first ≡ second) × (length identity.token_hash ≡ 32)
unfolding parse
parse-canonical crypto first second identity h k =
    let (a, wide) = parse_hash-canonical crypto first (crypto.hex_decode first) identity h in
    let (b, _) = parse_hash-canonical crypto second (crypto.hex_decode second) identity k in
    (a ∙ sym b, wide)
