-- ===== src/Projection/Bulk.antt =====
-- The bulk request of storage/postgres/search/elasticsearch.rs, from the operations to one result
-- for each. The response of Elasticsearch is an argument.
use abyss_backend.Common.{
  ℕ, Bool, true, false, ◌&&◌, ◌||◌, List, [], ◌∷◌, Option, none, some, leb, ltb, ◌==◌, nat_eq,
  if◌then◌else◌, length, first, Result, ok, err,
}
use abyss_backend.Search.Text.{Text}
use abyss_backend.Projection.Document.{SearchDocument}

pub data BulkOperation : Type 0 where
  index : SearchDocument → BulkOperation
  delete : ℕ → BulkOperation

abbrev pub document_id : BulkOperation → ℕ
document_id (index document) = document.event_pk
document_id (delete event_pk) = event_pk

abbrev pub accepts_not_found : BulkOperation → Bool
accepts_not_found (index document) = false
accepts_not_found (delete event_pk) = true

-- `error` is the JSON of the item's error.
pub record BulkItem : Type 0 where
  pub status : ℕ
  pub error : Option Text

-- `SearchClientError`: transport, serialization, a status that is no success, or a response that
-- breaks the protocol.
pub data SearchClientError : Type 0 where
  request serialization protocol : Text → SearchClientError
  response : ℕ → Text → SearchClientError

-- What the texts of the errors say of an item.
pub record BulkMessages : Type 0 where
  pub omitted : ℕ → Text
  pub failed : ℕ → ℕ → Option Text → Text
  pub miscounted : ℕ → ℕ → Text

-- The members of an item of the response: by the operation's name, its outcome.
abbrev pub ResponseItem : Type 0
ResponseItem = List (Text × BulkItem)

module _ (messages : BulkMessages) where
  -- `BulkResponseItem::result`
  unfoldable pub item_result : Option (Text × BulkItem) → ℕ → Bool → Result Text (Unit {0})
  item_result none id not_found = err (messages.omitted id)
  item_result (some (name, item)) id not_found =
      if (leb 200 item.status && ltb item.status 300) || (not_found && item.status == 404)
      then ok tt
      else err (messages.failed id item.status item.error)

  -- `zip`, and the result of each pair.
  unfoldable pub item_results :
      List ResponseItem → List BulkOperation → List (Result Text (Unit {0}))
  unfolding item_result
  item_results [] operations = []
  item_results (item ∷ items) [] = []
  item_results (item ∷ items) (operation ∷ operations) =
      item_result (first item) (document_id operation) (accepts_not_found operation)
      ∷ item_results items operations

  abbrev Reply : Type 0
  Reply = Result SearchClientError (List ResponseItem)

  -- The check of the number of items.
  unfoldable pub read_items :
      List BulkOperation
      → List ResponseItem
      → Result SearchClientError (List (Result Text (Unit {0})))
  unfolding item_results
  read_items operations items =
      if length items == length operations
      then ok (item_results items operations)
      else err (protocol (messages.miscounted (length items) (length operations)))

  unfoldable pub read_reply :
      List BulkOperation
      → Result SearchClientError (List ResponseItem)
      → Result SearchClientError (List (Result Text (Unit {0})))
  unfolding read_items
  read_reply operations (err error) = err error
  read_reply operations (ok items) = read_items operations items

  -- No operation is no request.
  unfoldable pub apply_bulk :
      List BulkOperation
      → Result SearchClientError (List ResponseItem)
      → Result SearchClientError (List (Result Text (Unit {0})))
  unfolding read_reply
  apply_bulk [] reply = ok []
  apply_bulk (operation ∷ operations) reply = read_reply (operation ∷ operations) reply
