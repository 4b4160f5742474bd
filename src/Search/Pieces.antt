-- ===== src/Search/Pieces.antt =====
-- search/matching/pieces.rs: the searchable pieces of one event. What `serde_json` reads of the
-- conversation is the parameter: its entries, and a member of an entry as a string.
pub mod Laws
use abyss_backend.Common.{
  ℕ, suc, String, Bool, true, false, List, [], ◌∷◌, ◌++◌, Option, none, some, ◌==◌, string_eq,
  if◌then◌else◌, for_each, unwrap_or, to_list, and_then,
}
use abyss_backend.Search.Text.{Text}

pub data PieceField : Type 0 where
  name text : PieceField

-- `PieceField::as_str`
unfoldable pub as_str : PieceField → String
as_str name = "name"
as_str text = "text"

-- `PieceField::parse`
unfoldable pub parse : String → Option PieceField
parse value = if value == "name" then some name else if value == "text" then some text else none

pub record Piece : Type 0 where
  pub entry_index : ℕ
  pub field : PieceField
  pub content : Text

module _ {ℓ} {Entry : Type ℓ} (get_str : Entry → String → Option Text) where
  abbrev pub nonempty_piece : ℕ → PieceField → Text → Option Piece
  nonempty_piece entry_index field [] = none
  nonempty_piece entry_index field (c ∷ content) =
      some (record { entry_index = entry_index; field = field; content = c ∷ content })

  unfoldable pub piece : ℕ → Entry → PieceField → Option Piece
  unfolding as_str
  piece entry_index entry field =
      and_then (get_str entry (as_str field)) (nonempty_piece entry_index field)

  -- The pieces of the entries from index `from` on, `name` before `text`.
  unfoldable pub pieces_from : ℕ → List Entry → List Piece
  unfolding piece
  pieces_from from [] = []
  pieces_from from (entry ∷ entries) =
      to_list (piece from entry name)
      ++ (to_list (piece from entry text) ++ pieces_from (suc from) entries)

  -- `pieces`
  unfoldable pub pieces : Option (List Entry) → List Piece
  unfolding pieces_from
  pieces entries = pieces_from 0 (unwrap_or entries [])
