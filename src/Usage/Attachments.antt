-- ===== src/Usage/Attachments.antt =====
-- Image attachments at ingest: usage/attachments.rs. The base64, hex and SHA-256 crates are the
-- parameter `codec`. A byte is a number, and a count of 64 bits is a `usize`.
use Prim.Native.String.{◌++◌ as str_append}
use abyss_backend.Common.{
  ℕ, ℤ, pos, negsuc, suc, ◌+◌, ◌*◌, Bool, true, false, not, ◌&&◌, ◌||◌, String, List, [], ◌∷◌,
  Option, none, some, ltb, leb, ◌==◌, nat_eq, string_eq, list_eq, if◌then◌else◌, length, take, drop,
  contains, sort_by, Result, ok, err, ◌>>=◌, ◌>>◌,
}
use abyss_backend.Errors.{AppError, validation, internal, reject_if}
use abyss_backend.Search.Text.{Text, codes, starts_with, len_utf8, size}
use abyss_backend.Search.Text.Trimming.{trim}
pub mod MediaTypes
pub mod Checked
pub mod Accepted

abbrev pub max_image_attachments_per_event : ℕ
max_image_attachments_per_event = 8

abbrev pub max_image_attachment_bytes_per_event : ℕ
max_image_attachment_bytes_per_event = 8 * 1024 * 1024

abbrev pub max_base64_image_characters : ℕ
max_base64_image_characters = 11_184_812

pub data ImageMediaType : Type 0 where
  png jpeg webp gif : ImageMediaType

unfoldable pub as_str : ImageMediaType → String
as_str png = "image/png"
as_str jpeg = "image/jpeg"
as_str webp = "image/webp"
as_str gif = "image/gif"

unfoldable pub from_stored : String → Result AppError ImageMediaType
from_stored value =
    if value == "image/png"
    then ok png
    else if value == "image/jpeg"
    then ok jpeg
    else if value == "image/webp"
    then ok webp
    else if value == "image/gif"
    then ok gif
    else err (internal (str_append "stored image attachment has invalid media type: " value))

unfoldable pub file_extension : ImageMediaType → String
file_extension png = "png"
file_extension jpeg = "jpg"
file_extension webp = "webp"
file_extension gif = "gif"

abbrev pub Bytes : Type 0
Bytes = List ℕ

unfoldable pub matches_signature : ImageMediaType → Bytes → Bool
matches_signature png bytes = starts_with (137 ∷ 80 ∷ 78 ∷ 71 ∷ 13 ∷ 10 ∷ 26 ∷ 10 ∷ []) bytes
matches_signature jpeg bytes = starts_with (255 ∷ 216 ∷ 255 ∷ []) bytes
matches_signature webp bytes =
    leb 12 (length bytes)
    && (starts_with (codes "RIFF") bytes && take 4 (drop 8 bytes) == codes "WEBP")
matches_signature gif bytes =
    starts_with (codes "GIF87a") bytes || starts_with (codes "GIF89a") bytes

-- A position is an `i32`.
pub record IngestImageAttachment : Type 0 where
  pub position : ℤ
  pub media_type : ImageMediaType
  pub byte_size : ℕ
  pub sha256 : Text
  pub content_base64 : Option Text

pub record ValidatedImageAttachment : Type 0 where
  pub position : ℕ
  pub media_type : ImageMediaType
  pub byte_size : ℕ
  pub sha256 : Bytes
  pub content : Option Bytes

abbrev pub by_position : ValidatedImageAttachment → ValidatedImageAttachment → Bool
by_position a b = leb a.position b.position

-- The crates, as the code calls them; `none` is a decoding error.
pub record Codec : Type 0 where
  pub base64_decode : Text → Option Bytes
  pub hex_decode : Text → Option Bytes
  pub hex_encode : Bytes → Text
  pub digest : Bytes → Bytes

module _ (codec : Codec) where
  pub decoded_sha256 : Text → Option Bytes → Result AppError Bytes
  decoded_sha256 trimmed none =
      err (validation "image attachment sha256 must be lowercase hexadecimal")
  decoded_sha256 trimmed (some decoded) =
      reject_if (not (length decoded == 32) || not (trimmed == codec.hex_encode decoded))
        "image attachment sha256 must be 64 lowercase hexadecimal characters"
      >> ok decoded

  unfoldable pub decode_sha256 : Text → Result AppError Bytes
  unfolding trim decoded_sha256
  decode_sha256 value =
      let trimmed = trim value in decoded_sha256 trimmed (codec.hex_decode trimmed)

  unfoldable pub check_content : ImageMediaType → ℕ → Bytes → Option Bytes → Result AppError Bytes
  unfolding matches_signature
  check_content media_type expected_size expected_sha256 none =
      err (validation "image attachment content_base64 is invalid")
  check_content media_type expected_size expected_sha256 (some content) =
      reject_if (not (length content == expected_size))
        "image attachment byte_size does not match decoded content"
      >> (reject_if (not (codec.digest content == expected_sha256))
            "image attachment sha256 does not match decoded content"
          >> (reject_if (not (matches_signature media_type content))
                "image attachment media_type does not match its file signature"
              >> ok content))

  unfoldable pub decode_content : ImageMediaType → Text → ℕ → Bytes → Result AppError Bytes
  unfolding check_content
  decode_content media_type encoded expected_size expected_sha256 =
      reject_if (ltb max_base64_image_characters (size len_utf8 encoded))
        "image attachment content exceeds the decoded size limit"
      >> check_content media_type expected_size expected_sha256 (codec.base64_decode encoded)

  unfoldable pub optional_content :
      ImageMediaType → Option Text → ℕ → Bytes → Result AppError (Option Bytes)
  unfolding decode_content
  optional_content media_type none expected_size expected_sha256 = ok none
  optional_content media_type (some encoded) expected_size expected_sha256 =
      decode_content media_type encoded expected_size expected_sha256 >>= λ content.
      ok (some content)

  -- A position that is neither negative nor taken.
  unfoldable pub check_position : List ℕ → ℤ → Result AppError ℕ
  check_position positions (negsuc n) =
      err (validation "image attachment positions must be unique non-negative integers")
  check_position positions (pos n) =
      reject_if (contains positions n)
        "image attachment positions must be unique non-negative integers"
      >> ok n

  -- The size of an attachment, and the sum with it.
  unfoldable pub check_size : ℕ → ℕ → Result AppError ℕ
  check_size aggregate_bytes byte_size =
      reject_if (byte_size == 0 || ltb max_image_attachment_bytes_per_event byte_size)
        "image attachment byte_size must be between 1 and 8388608"
      >> (reject_if (ltb max_image_attachment_bytes_per_event (aggregate_bytes + byte_size))
            "event image attachments must total at most 8388608 bytes"
          >> ok (aggregate_bytes + byte_size))

  -- The loop: the positions and the sum so far, and what is validated from there on.
  unfoldable pub validate_from :
      List ℕ → ℕ → List IngestImageAttachment → Result AppError (List ValidatedImageAttachment)
  unfolding check_position check_size decode_sha256 optional_content
  validate_from positions aggregate_bytes [] = ok []
  validate_from positions aggregate_bytes (attachment ∷ attachments) =
      check_position positions attachment.position >>= λ position.
      check_size aggregate_bytes attachment.byte_size >>= λ sum.
      decode_sha256 attachment.sha256 >>= λ sha256.
      optional_content attachment.media_type attachment.content_base64 attachment.byte_size sha256
      >>= λ content. validate_from (position ∷ positions) sum attachments >>= λ validated. ok (
          record {
            position = position;
            media_type = attachment.media_type;
            byte_size = attachment.byte_size;
            sha256 = sha256;
            content = content;
          }
          ∷ validated)

  unfoldable pub validate_image_attachments :
      List IngestImageAttachment → Result AppError (List ValidatedImageAttachment)
  unfolding validate_from
  validate_image_attachments attachments =
      reject_if (ltb max_image_attachments_per_event (length attachments))
        "event attachments must contain at most 8 images"
      >> (validate_from [] 0 attachments >>= λ validated. ok (sort_by by_position validated))
