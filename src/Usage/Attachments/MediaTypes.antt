-- ===== src/Usage/Attachments/MediaTypes.antt =====
-- Media types as they are stored (usage/attachments.rs).
use text.Mathlib.TextEquality.{eq_iff}
use abyss_backend.Common.{String, ◌≡◌, ◌↔◌, refl, sym, ap, ◌∙◌, arith, string_eq, ok}
use abyss_backend.Usage.Attachments.{ImageMediaType, png, jpeg, webp, gif, as_str, from_stored}

stored_back : (media_type : ImageMediaType) → from_stored (as_str media_type) ≡ ok media_type
unfolding from_stored as_str
stored_back png = refl
stored_back jpeg = refl
stored_back webp = refl
stored_back gif = refl

read_as :
    (value : String) (media_type : ImageMediaType)
    → from_stored value ≡ ok media_type
    → as_str media_type ≡ value
unfolding from_stored as_str
read_as value media_type h = ground (
  arith,
  eq_iff value "image/png",
  eq_iff value "image/jpeg",
  eq_iff value "image/webp",
  eq_iff value "image/gif",
)

-- A stored text is read as a media type exactly if it is what that media type is stored as. So every
-- media type that is stored is read back, and no other text is read.
pub from_stored-as_str :
    (value : String) (media_type : ImageMediaType)
    → (from_stored value ≡ ok media_type) ↔ (as_str media_type ≡ value)
from_stored-as_str value media_type =
    (read_as value media_type, (λ h. ap from_stored (sym h) ∙ stored_back media_type))
