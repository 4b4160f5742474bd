-- ===== src/Search/InSession.antt =====
-- search/matching/in_session.rs: the bounded response of a search within one session.
pub mod Laws
use abyss_backend.Common.{
  ℕ, String, Bool, List, [], ◌∷◌, map, Option, none, some, ltb, leb, ◌==◌, nat_eq, if◌then◌else◌,
  length, take, lookup, contains, sort_by, map_or, keep, not,
}
use abyss_backend.Search.Text.{Text}
use abyss_backend.Search.Pattern.{Range}
use abyss_backend.Search.Pieces.{PieceField}

abbrev pub max_in_session_hits : ℕ
max_in_session_hits = 100000

pub record InSessionHit : Type 0 where
  pub event_pk : ℕ
  pub entry_index : ℕ
  pub field : PieceField
  pub new : Bool
  pub text_id : ℕ
  pub segment : Option String

pub record MatchedText : Type 0 where
  pub id : ℕ
  pub ranges : List Range

pub record InSessionSearchResponse : Type 0 where
  pub query : Text
  pub texts : List MatchedText
  pub hits : List InSessionHit
  pub truncated : Bool

-- `collect::<BTreeSet<_>>()` and its iteration: each id once, in order.
unfoldable pub dedupe : List ℕ → List ℕ
dedupe [] = []
dedupe (id ∷ ids) = let rest = dedupe ids in if contains ids id then rest else id ∷ rest

unfoldable pub ordered_ids : List ℕ → List ℕ
unfolding dedupe
ordered_ids ids = sort_by leb (dedupe ids)

-- `ranges.remove(&id)` for each id: every id is asked for once.
unfoldable pub matched_texts : List ℕ → List (ℕ × List Range) → List MatchedText
matched_texts [] ranges = []
matched_texts (id ∷ ids) ranges =
    let rest = matched_texts ids (keep (λ (entry : ℕ × List Range). not (entry.0 == id)) ranges) in
    map_or rest (λ found. record { id = id; ranges = found } ∷ rest) (lookup id ranges)

-- `InSessionSearchResponse::from_hits`
unfoldable pub from_hits :
    Text → List InSessionHit → List (ℕ × List Range) → InSessionSearchResponse
unfolding ordered_ids matched_texts
from_hits query hits ranges =
    let kept = take max_in_session_hits hits in
    record {
      query = query;
      texts = matched_texts (ordered_ids (map (λ (hit : InSessionHit). hit.text_id) kept)) ranges;
      hits = kept;
      truncated = ltb max_in_session_hits (length hits);
    }
