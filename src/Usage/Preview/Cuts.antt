-- ===== src/Usage/Preview/Cuts.antt =====
-- The cut of a text (usage/preview.rs).
use abyss_backend.Common.{
  ℕ, ◌+◌, ◌≤◌, ◌<◌, [], ◌∷◌, ◌++◌, none, some, ◌≡◌, refl, ap, inl, inr, ◌⊎◌, arith, ltb, leb,
  ltb→lt, ltb→le, leb→le, leb→lt, Bool-cases, unwrap_or,
}
use abyss_backend.Search.Text.{Text, len_utf16, size}
use abyss_backend.Usage.Preview.{Entry, cut_units, cut}

-- The text splits into what is kept, within the limit, and a rest whose first character passes it.
abbrev pub IsCut : ℕ → Text → Text → Type 0
IsCut limit text kept =
    (c : ℕ) × (rest : Text) × (kept ++ (c ∷ rest) ≡ text)
    × (size len_utf16 kept ≤ limit)
    × (limit < size len_utf16 kept + len_utf16 c)

cut_units-IsCut :
    (limit units : ℕ) (text : Text)
    → units ≤ limit
    → limit < units + size len_utf16 text
    → (c : ℕ) × (rest : Text) × (cut_units limit units text ++ (c ∷ rest) ≡ text)
      × (units + size len_utf16 (cut_units limit units text) ≤ limit)
      × (limit < units + size len_utf16 (cut_units limit units text) + len_utf16 c)
unfolding cut_units
cut_units-IsCut limit units [] h k = absurd (omega arith)
cut_units-IsCut limit units (c ∷ text) h k = elim (Bool-cases (ltb limit (units + len_utf16 c))) [
  | inl e ↦ rw e (c, text, refl, omega arith, omega (arith, ltb→lt limit (units + len_utf16 c) e))
  | inr e ↦
      let (d, rest, whole, within, past) =
        cut_units-IsCut limit (units + len_utf16 c) text (ltb→le limit (units + len_utf16 c) e)
          (omega arith) in
      rw e (d, rest, ap (λ t. c ∷ t) whole, omega (arith, within), omega (arith, past))
]

-- With a limit, an entry stays as it is exactly if its text has no more UTF-16 code units than that.
-- Else the cut keeps the longest prefix within the limit, splits no character, and tells the length
-- of the whole text.
pub cut-IsCut :
    (entry : Entry) (limit : ℕ)
    → ((size len_utf16 (unwrap_or entry []) ≤ limit) × (cut entry (some limit) ≡ none))
      ⊎ ((kept : Text) × (cut entry (some limit) ≡ some (kept, size len_utf16 (unwrap_or entry [])))
          × (limit < size len_utf16 (unwrap_or entry []))
          × IsCut limit (unwrap_or entry []) kept)
unfolding cut
cut-IsCut entry limit =
    let text = unwrap_or entry [] in
    elim (Bool-cases (leb (size len_utf16 text) limit)) [
      | inl e ↦ inl (leb→le (size len_utf16 text) limit e, rw e refl)
      | inr e ↦
          let long : limit < size len_utf16 text = leb→lt (size len_utf16 text) limit e in
          let (c, rest, whole, within, past) =
            cut_units-IsCut limit 0 text (omega arith) (omega arith) in
          inr (
            cut_units limit 0 text,
            rw e refl,
            long,
            (c, rest, whole, omega (arith, within), omega (arith, past)),
          )
    ]
