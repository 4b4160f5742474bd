-- ===== src/Projection/Document.antt =====
-- The search document of an event: storage/postgres/search/document.rs, and `SearchProjection` of
-- storage/postgres/search/projection.rs. What serde_json reads of a conversation is given: its
-- entries, none where it has no array of them, and of each its string members.
use abyss_backend.Common.{
  ℕ, Bool, true, false, not, ◌||◌, List, [], ◌∷◌, ◌++◌, Option, none, some, leb, ◌==◌, nat_eq,
  list_eq, option_eq, if◌then◌else◌, length, take, contains, map_option,
}
use abyss_backend.Search.Text.{Text, codes}
use abyss_backend.Search.Text.Trimming.{trim}
use abyss_backend.Projection.Markers.{sanitize_search_text}
pub mod Bounds

abbrev pub max_content_characters : ℕ
max_content_characters = 1_000_000

abbrev pub max_metadata_field_characters : ℕ
max_metadata_field_characters = 100_000

abbrev pub max_extracted_values : ℕ
max_extracted_values = 64

pub record SourceEntry : Type 0 where
  pub role : Option Text
  pub name : Option Text
  pub text : Option Text

pub record UsageEvent : Type 0 where
  pub id : ℕ
  pub user_id : ℕ
  pub session_pk : ℕ
  pub session_id : Text
  pub agent_name : Text
  pub llm_provider : Text
  pub llm_model : Text
  pub event_type : Text
  pub observed_at : ℕ
  pub entries : List SourceEntry

pub record SearchProjection : Type 0 where
  pub content : Option Text
  pub tool_names : List Text
  pub tool_content : List Text

pub record SearchDocument : Type 0 where
  pub event_pk : ℕ
  pub user_id : ℕ
  pub session_pk : ℕ
  pub session_id : Text
  pub agent_name : Text
  pub llm_provider : Text
  pub llm_model : Text
  pub event_type : Text
  pub observed_at : ℕ
  pub content : Option Text
  pub tool_names : List Text
  pub tool_content : List Text

unfoldable pub truncate_characters : ℕ → Text → Text
truncate_characters maximum value = take maximum value

abbrev pub is_empty : Text → Bool
is_empty [] = true
is_empty (c ∷ text) = false

-- `push_bounded` of the sanitized and trimmed value.
pub push_trimmed : List Text → Text → List Text
unfolding truncate_characters
push_trimmed values value =
    if is_empty value || leb max_extracted_values (length values)
    then values
    else let cut = truncate_characters max_metadata_field_characters value in
      if contains values cut then values else values ++ cut ∷ []

unfoldable pub push_bounded : List Text → Text → List Text
unfolding push_trimmed sanitize_search_text trim
push_bounded values value = push_trimmed values (trim (sanitize_search_text value))

pub push_name : List Text → Option Text → List Text
unfolding push_bounded
push_name values none = values
push_name values (some name) = push_bounded values name

-- The tool names after one entry, and the texts.
unfoldable pub name_of_entry : List Text → SourceEntry → List Text
unfolding push_name
name_of_entry tool_names entry =
    if entry.role == some (codes "tool_call") then push_name tool_names entry.name else tool_names

abbrev pub text_of_entry : Option Text → List Text → List Text
text_of_entry none texts = texts
text_of_entry (some []) texts = texts
text_of_entry (some (c ∷ text)) texts = (c ∷ text) ∷ texts

unfoldable pub tool_names_of : List Text → List SourceEntry → List Text
unfolding name_of_entry
tool_names_of tool_names [] = tool_names
tool_names_of tool_names (entry ∷ entries) = tool_names_of (name_of_entry tool_names entry) entries

unfoldable pub texts_of : List SourceEntry → List Text
texts_of [] = []
texts_of (entry ∷ entries) = text_of_entry entry.text (texts_of entries)

-- `texts.join("\n")`
unfoldable pub join_lines : List Text → Text
join_lines [] = []
join_lines (text ∷ []) = text
join_lines (text ∷ more ∷ texts) = text ++ (10 ∷ join_lines (more ∷ texts))

pub content_of : List Text → Option Text
unfolding sanitize_search_text truncate_characters join_lines
content_of [] = none
content_of (text ∷ texts) =
    some (
      truncate_characters max_content_characters (sanitize_search_text (join_lines (text ∷ texts))))

unfoldable pub from_source : List SourceEntry → SearchProjection
unfolding tool_names_of texts_of content_of
from_source entries = record {
  content = content_of (texts_of entries);
  tool_names = tool_names_of [] entries;
  tool_content = [];
}

unfoldable pub from_event : UsageEvent → SearchDocument
unfolding from_source sanitize_search_text
from_event event =
    let projection = from_source event.entries in
    record {
      event_pk = event.id;
      user_id = event.user_id;
      session_pk = event.session_pk;
      session_id = sanitize_search_text event.session_id;
      agent_name = event.agent_name;
      llm_provider = event.llm_provider;
      llm_model = event.llm_model;
      event_type = event.event_type;
      observed_at = event.observed_at;
      content = projection.content;
      tool_names = projection.tool_names;
      tool_content = projection.tool_content;
    }
