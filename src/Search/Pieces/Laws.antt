-- ===== src/Search/Pieces/Laws.antt =====
-- What `pieces` of pieces.rs reads of the entries.
use abyss_backend.Common.{
  ℕ, suc, ◌+◌, String, List, [], ◌∷◌, Option, some, ◌≡◌, refl, ◌≢◌, inl, inr, arith, string_eq,
  get_elem?, All, All-append, All-map, to_list, Option-cases,
}
use abyss_backend.Search.Text.{Text}
use abyss_backend.Search.Pieces.{
  PieceField, name, text, as_str, parse, Piece, piece, pieces_from, pieces,
}

-- A field's stored name reads back as the field.
pub parse-as_str : (field : PieceField) → parse (as_str field) ≡ some field
unfolding parse as_str
parse-as_str name = refl
parse-as_str text = refl

module _ {ℓ} {Entry : Type ℓ} (get_str : Entry → String → Option Text) where
  -- The piece is the member of the entry at its index, and is not empty.
  pub record IsPieceOf (from : ℕ) (entries : List Entry) (p : Piece) : Type ℓ where
    pub offset : ℕ
    pub entry : Entry
    pub placed : p.entry_index ≡ from + offset
    pub here : get_elem? entries offset ≡ some entry
    pub member : get_str entry (as_str p.field) ≡ some p.content
    pub nonempty : p.content ≢ []

  piece-IsPieceOf :
      (from : ℕ) (entry : Entry) (entries : List Entry) (field : PieceField)
      → All (IsPieceOf from (entry ∷ entries)) (to_list (piece get_str from entry field))
  unfolding piece
  piece-IsPieceOf from entry entries field = elim (Option-cases (get_str entry (as_str field))) [
    | inl e ↦ rw (e, piece) tt
    | inr ([], e) ↦ rw (e, piece) tt
    | inr (c ∷ content, e) ↦
        rw (e, piece)
          (
            record {
              offset = 0;
              entry = entry;
              placed = omega arith;
              here = refl;
              member = e;
              nonempty = λ q. cc;
            },
            tt,
          )
  ]

  pieces_from-IsPieceOf :
      (from : ℕ) (entries : List Entry)
      → All (IsPieceOf from entries) (pieces_from get_str from entries)
  unfolding pieces_from
  pieces_from-IsPieceOf from [] = tt
  pieces_from-IsPieceOf from (entry ∷ entries) =
      All-append (IsPieceOf from (entry ∷ entries)) _ _ (piece-IsPieceOf from entry entries name) (
        All-append (IsPieceOf from (entry ∷ entries)) _ _ (piece-IsPieceOf from entry entries text)
          (All-map (IsPieceOf (suc from) entries) (IsPieceOf from (entry ∷ entries)) _
            (λ p i. record {
              offset = suc i.offset;
              entry = i.entry;
              placed = omega (arith, i.placed);
              here = i.here;
              member = i.member;
              nonempty = i.nonempty;
            })
            (pieces_from-IsPieceOf (suc from) entries)))

  -- Every piece is the nonempty `name` or `text` of the entry at its index.
  pub pieces-IsPieceOf :
      (entries : List Entry) → All (IsPieceOf 0 entries) (pieces get_str (some entries))
  unfolding pieces
  pieces-IsPieceOf entries = pieces_from-IsPieceOf 0 entries
