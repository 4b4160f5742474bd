-- ===== src/Usage/Attachments/Accepted.antt =====
-- What is known of accepted attachments (usage/attachments.rs).
use mathlib.Core.List.{Perm}
use mathlib.Core.List.Perm
use abyss_backend.Common.{
  pos, ℕ, ◌+◌, ◌≤◌, true, false, List, [], ◌∷◌, map, Option, some, map_option, ◌≡◌, refl, sym, ap,
  subst, ◌∙◌, arith, ltb→le, ◌==◌, nat_eq, list_eq, or-eq-false, ==→ne, length, contains, Distinct,
  All, All-sort, sort_by, sort_by-perm, sort_by-Sorted, Sorted, insert_by, ne→==, Distinct-sort_by,
  ok, >>=-ok, ok-injective,
}
use abyss_backend.Errors.Checks.{reject_if-ok}
use abyss_backend.Search.Text.Trimming.{trim}
use abyss_backend.Usage.Attachments.{
  max_image_attachments_per_event, max_image_attachment_bytes_per_event, Bytes,
  IngestImageAttachment, ValidatedImageAttachment, Codec, decode_sha256, by_position, validate_from,
  validate_image_attachments,
}
use abyss_backend.Usage.Attachments.Checked.{
  Key, declared, kept, IsVerified, decoded_sha256-ok, optional_content-ok, check_position-ok,
  check_size-ok,
}

by_position_total :
    (a b : ValidatedImageAttachment) → by_position a b ≡ false → by_position b a ≡ true
by_position_total a b h = ground arith

by_position_trans :
    (a b c : ValidatedImageAttachment)
    → by_position a b ≡ true
    → by_position b c ≡ true
    → by_position a c ≡ true
by_position_trans a b c h k = ground arith

abbrev pub positions_of : List ValidatedImageAttachment → List ℕ
positions_of vs = map (λ (v : ValidatedImageAttachment). v.position) vs

abbrev pub total_bytes : List ValidatedImageAttachment → ℕ
total_bytes [] = 0
total_bytes (v ∷ vs) = v.byte_size + total_bytes vs

module _ (codec : Codec) where
  -- What the loop finds, with the positions and the sum before it.
  record IsLoop (positions : List ℕ) (aggregate : ℕ) (attachments : List IngestImageAttachment)
      (vs : List ValidatedImageAttachment) : Type 0 where
    pub same : map (kept codec) vs ≡ map (declared codec) attachments
    pub verified : All (IsVerified codec) vs
    pub new : All (λ v. contains positions v.position ≡ false) vs
    pub distinct : Distinct (positions_of vs)
    pub bounded : aggregate + total_bytes vs ≤ max_image_attachment_bytes_per_event

  absent_position :
      (positions : List ℕ) (n : ℕ) (vs : List ValidatedImageAttachment)
      → All (λ v. contains (n ∷ positions) v.position ≡ false) vs
      → (contains (positions_of vs) n ≡ false) × All (λ v. contains positions v.position ≡ false) vs
  absent_position positions n [] h = (refl, tt)
  absent_position positions n (v ∷ vs) h =
      let (other, old) = or-eq-false (n == v.position) (contains positions v.position) h.0 in
      let (absent, rest) = absent_position positions n vs h.1 in
      (rw (ne→== v.position n (λ q. ==→ne n v.position other (sym q))) absent, (old, rest))

  abbrev validated_as : IngestImageAttachment → ℕ → Bytes → Option Bytes → ValidatedImageAttachment
  validated_as a position sha256 content = record {
    position = position;
    media_type = a.media_type;
    byte_size = a.byte_size;
    sha256 = sha256;
    content = content;
  }

  kept-declared :
      (a : IngestImageAttachment) (position : ℕ) (sha256 : Bytes) (content : Option Bytes)
      → a.position ≡ pos position
      → trim a.sha256 ≡ codec.hex_encode sha256
      → codec.hex_decode (trim a.sha256) ≡ some sha256
      → map_option codec.base64_decode a.content_base64 ≡ map_option some content
      → kept codec (validated_as a position sha256 content) ≡ declared codec a
  kept-declared a position sha256 content e1 e2 e3 e4 =
      let text = trim a.sha256 in
      ap
        (λ p. (
          p,
          a.media_type,
          a.byte_size,
          codec.hex_encode sha256,
          some sha256,
          map_option some content,
        ))
        (sym e1)
      ∙ ap (λ t. (a.position, a.media_type, a.byte_size, t, some sha256, map_option some content))
          (sym e2)
      ∙ ap (λ d. (a.position, a.media_type, a.byte_size, text, d, map_option some content)) (sym e3)
      ∙ ap (λ c. (a.position, a.media_type, a.byte_size, text, codec.hex_decode text, c)) (sym e4)

  validate_from-IsLoop :
      (positions : List ℕ) (aggregate : ℕ) (attachments : List IngestImageAttachment)
      → (vs : List ValidatedImageAttachment) → aggregate ≤ max_image_attachment_bytes_per_event
      → validate_from codec positions aggregate attachments ≡ ok vs
      → IsLoop positions aggregate attachments vs
  unfolding validate_from
  validate_from-IsLoop positions aggregate [] vs b h =
      subst (IsLoop positions aggregate []) (ok-injective (ok []) refl h)
        (record { same = refl; verified = tt; new = tt; distinct = tt; bounded = omega arith })
  validate_from-IsLoop positions aggregate (a ∷ attachments) vs b h =
      let (position, e1, h1) = >>=-ok _ _ h in
      let (sum, e2, h2) = >>=-ok _ _ h1 in
      let (sha256, e3, h3) = >>=-ok _ _ h2 in
      let (content, e4, h4) = >>=-ok _ _ h3 in
      let (rest, e5, h5) = >>=-ok _ _ h4 in
      let (is_pos, free) = check_position-ok codec positions a.position position e1 in
      let (some_bytes, few_bytes, sum_is, sum_fits) =
        check_size-ok codec aggregate a.byte_size sum e2 in
      let loop = validate_from-IsLoop (position ∷ positions) sum attachments rest sum_fits e5 in
      let (absent, new) = absent_position positions position rest loop.new in
      let v = validated_as a position sha256 content in
      let (wide, lower, decoded) =
        decoded_sha256-ok codec (trim a.sha256) (codec.hex_decode (trim a.sha256)) sha256
          (unfold decode_sha256 in e3) in
      let (matches, given) =
        optional_content-ok codec a.media_type a.content_base64 a.byte_size sha256 content e4 in
      let alike = kept-declared a position sha256 content is_pos lower decoded given in
      let verified : IsVerified codec v = record {
        sized = (some_bytes, few_bytes);
        digested = wide;
        verified = matches;
      } in
      subst (IsLoop positions aggregate (a ∷ attachments)) (ok-injective (ok (v ∷ rest)) refl h5)
        (record {
          same =
              ap (λ (k : Key). k ∷ map (kept codec) rest) alike
              ∙ ap (λ ks. declared codec a ∷ ks) loop.same;
          verified = (verified, loop.verified);
          new = (free, new);
          distinct = (absent, loop.distinct);
          bounded = omega (arith, loop.bounded, sum_is);
        })

  total_bytes-insert :
      (v : ValidatedImageAttachment) (vs : List ValidatedImageAttachment)
      → total_bytes (insert_by by_position v vs) ≡ v.byte_size + total_bytes vs
  total_bytes-insert v [] = refl
  total_bytes-insert v (w ∷ vs) = ground (arith, total_bytes-insert v vs)

  total_bytes-sort :
      (vs : List ValidatedImageAttachment) → total_bytes (sort_by by_position vs) ≡ total_bytes vs
  total_bytes-sort [] = refl
  total_bytes-sort (v ∷ vs) =
      omega (arith, total_bytes-insert v (sort_by by_position vs), total_bytes-sort vs)

  -- Accepted attachments are those that were declared, in the order of their positions: at most
  -- eight, no position twice, of one byte to eight mebibytes each and of at most eight mebibytes
  -- together. Of each its position, media type and size are kept; its digest, which is 32 bytes, as
  -- the bytes of which the declared text, trimmed, is the hexadecimal form; and its content, decoded,
  -- exactly where one is given, and of the declared size, digest and file signature.
  pub validate_image_attachments-IsVerified :
      (attachments : List IngestImageAttachment) (vs : List ValidatedImageAttachment)
      → validate_image_attachments codec attachments ≡ ok vs
      → Perm (map (declared codec) attachments) (map (kept codec) vs)
        × All (IsVerified codec) vs
        × Sorted by_position vs
        × Distinct (positions_of vs)
        × (length attachments ≤ max_image_attachments_per_event)
        × (total_bytes vs ≤ max_image_attachment_bytes_per_event)
  unfolding validate_image_attachments
  validate_image_attachments-IsVerified attachments vs h =
      let (few, more) = reject_if-ok _ _ _ h in
      let (raw, e, same) = >>=-ok _ _ more in
      let loop = validate_from-IsLoop [] 0 attachments raw (omega arith) e in
      subst
        (λ result.
          Perm (map (declared codec) attachments) (map (kept codec) result)
          × All (IsVerified codec) result
          × Sorted by_position result
          × Distinct (positions_of result)
          × (length attachments ≤ max_image_attachments_per_event)
          × (total_bytes result ≤ max_image_attachment_bytes_per_event))
        (ok-injective (ok (sort_by by_position raw)) refl same)
        (
          subst (λ ks. Perm ks (map (kept codec) (sort_by by_position raw))) loop.same
              (Perm.map (kept codec) (sort_by-perm by_position raw)),
          All-sort (IsVerified codec) by_position raw loop.verified,
          sort_by-Sorted by_position by_position_total by_position_trans raw,
          Distinct-sort_by (λ (v : ValidatedImageAttachment). v.position) by_position raw
              loop.distinct,
          ltb→le max_image_attachments_per_event (length attachments) few,
          omega (arith, loop.bounded, total_bytes-sort raw),
        )
