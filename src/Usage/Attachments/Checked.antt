-- ===== src/Usage/Attachments/Checked.antt =====
-- What is known of one accepted attachment (usage/attachments.rs).
use abyss_backend.Common.{
  ℤ, pos, negsuc, ℕ, ◌+◌, ◌≤◌, ◌<◌, Bool, true, false, not, List, Option, none, some, map_option,
  ◌≡◌, refl, sym, ap, subst, ◌∙◌, arith, ◌==◌, nat_eq, list_eq, or-eq-false, ==→eq, length,
  contains, to_list, All, ok, >>=-ok, ok-injective,
}
use abyss_backend.Errors.Checks.{reject_if-ok}
use abyss_backend.Search.Text.{Text}
use abyss_backend.Search.Text.Trimming.{trim}
use abyss_backend.Usage.Attachments.{
  max_image_attachment_bytes_per_event, ImageMediaType, Bytes, matches_signature,
  IngestImageAttachment, ValidatedImageAttachment, Codec, decoded_sha256, check_content,
  decode_content, optional_content, check_position, check_size,
}

-- A position, a media type and a size; the digest in hexadecimal and in bytes; the content, decoded
-- where it is given.
abbrev pub Key : Type 0
Key = ℤ × ImageMediaType × ℕ × Text × Option Bytes × Option (Option Bytes)

module _ (codec : Codec) where
  -- What a declaration says.
  abbrev pub declared : IngestImageAttachment → Key
  declared a =
      let sha256 = trim a.sha256 in
      (
        a.position,
        a.media_type,
        a.byte_size,
        sha256,
        codec.hex_decode sha256,
        map_option codec.base64_decode a.content_base64,
      )

  -- What is kept of it.
  abbrev pub kept : ValidatedImageAttachment → Key
  kept v = (
    pos v.position,
    v.media_type,
    v.byte_size,
    codec.hex_encode v.sha256,
    some v.sha256,
    map_option some v.content,
  )

  -- A content is of the size, the digest and the media type.
  abbrev pub Matches : ImageMediaType → ℕ → Bytes → Bytes → Type 0
  Matches media_type size sha256 content =
      (length content ≡ size)
      × (codec.digest content ≡ sha256)
      × (matches_signature media_type content ≡ true)

  -- The content of an attachment, where it has one, is what its size, its digest and its media type
  -- say.
  pub record IsVerified (v : ValidatedImageAttachment) : Type 0 where
    pub sized : (0 < v.byte_size) × (v.byte_size ≤ max_image_attachment_bytes_per_event)
    pub digested : length v.sha256 ≡ 32
    pub verified : All (Matches v.media_type v.byte_size v.sha256) (to_list v.content)

  pub not-false : (b : Bool) → not b ≡ false → b ≡ true
  not-false b h = ground arith

  pub decoded_sha256-ok :
      (trimmed : Text) (decoded : Option Bytes) (sha256 : Bytes)
      → decoded_sha256 codec trimmed decoded ≡ ok sha256
      → (length sha256 ≡ 32) × (trimmed ≡ codec.hex_encode sha256) × (decoded ≡ some sha256)
  unfolding decoded_sha256
  decoded_sha256-ok trimmed none sha256 h = absurd (cc)
  decoded_sha256-ok trimmed (some decoded) sha256 h =
      let (fits, same) = reject_if-ok _ _ _ h in
      let (wide, lower) =
        or-eq-false (not (length decoded == 32)) (not (trimmed == codec.hex_encode decoded)) fits in
      subst
        (λ (d : Bytes). (length d ≡ 32) × (trimmed ≡ codec.hex_encode d) × (some decoded ≡ some d))
        (ok-injective (ok decoded) refl same)
        (
          ==→eq (length decoded) 32 (not-false (length decoded == 32) wide),
          ==→eq trimmed (codec.hex_encode decoded) (not-false _ lower),
          refl,
        )

  check_content-ok :
      (media_type : ImageMediaType) (size : ℕ) (sha256 : Bytes) (decoded : Option Bytes)
      → (content : Bytes) → check_content codec media_type size sha256 decoded ≡ ok content
      → Matches media_type size sha256 content × (decoded ≡ some content)
  unfolding check_content
  check_content-ok media_type size sha256 none content h = absurd (cc)
  check_content-ok media_type size sha256 (some decoded) content h =
      let (long, more) = reject_if-ok _ _ _ h in
      let (digest, more') = reject_if-ok _ _ _ more in
      let (signature, same) = reject_if-ok _ _ _ more' in
      subst (λ (c : Bytes). Matches media_type size sha256 c × (some decoded ≡ some c))
        (ok-injective (ok decoded) refl same)
        (
          (
            ==→eq (length decoded) size (not-false _ long),
            ==→eq (codec.digest decoded) sha256 (not-false _ digest),
            not-false _ signature,
          ),
          refl,
        )

  pub optional_content-ok :
      (media_type : ImageMediaType) (encoded : Option Text) (size : ℕ) (sha256 : Bytes)
      → (content : Option Bytes)
      → optional_content codec media_type encoded size sha256 ≡ ok content
      → All (Matches media_type size sha256) (to_list content)
        × (map_option codec.base64_decode encoded ≡ map_option some content)
  unfolding optional_content decode_content
  optional_content-ok media_type none size sha256 content h =
      subst
        (λ (c : Option Bytes).
          All (Matches media_type size sha256) (to_list c)
          × (map_option codec.base64_decode none ≡ map_option some c))
        (ok-injective (ok none) refl h) (tt, refl)
  optional_content-ok media_type (some encoded) size sha256 content h =
      let (found, checked, same) = >>=-ok _ _ h in
      let (_, body) = reject_if-ok _ _ _ checked in
      let (matches, decoded) =
        check_content-ok media_type size sha256 (codec.base64_decode encoded) found body in
      subst
        (λ (c : Option Bytes).
          All (Matches media_type size sha256) (to_list c)
          × (map_option codec.base64_decode (some encoded) ≡ map_option some c))
        (ok-injective (ok (some found)) refl same) ((matches, tt), ap some decoded)

  pub check_position-ok :
      (positions : List ℕ) (position : ℤ) (n : ℕ)
      → check_position codec positions position ≡ ok n
      → (position ≡ pos n) × (contains positions n ≡ false)
  unfolding check_position
  check_position-ok positions (negsuc k) n h = absurd (cc)
  check_position-ok positions (pos k) n h =
      let (free, same) = reject_if-ok _ _ _ h in
      let e = ok-injective (ok k) refl same in (ap pos e, ap (contains positions) (sym e) ∙ free)

  pub check_size-ok :
      (aggregate size sum : ℕ)
      → check_size codec aggregate size ≡ ok sum
      → (0 < size)
        × (size ≤ max_image_attachment_bytes_per_event)
        × (sum ≡ aggregate + size)
        × (sum ≤ max_image_attachment_bytes_per_event)
  unfolding check_size
  check_size-ok aggregate size sum h = ground arith
