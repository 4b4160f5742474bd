-- ===== src/Projection/Document/Bounds.antt =====
-- The bounds of a search document (storage/postgres/search/projection.rs).
use abyss_backend.Common.{
  ◌⊎◌, ◌↔◌, to_list, or-eq-false, leb→lt, ℕ, zero, suc, ◌≤◌, ◌<◌, false, ◌||◌, List, [], ◌∷◌, ◌++◌,
  Option, none, some, ◌≡◌, refl, ap, ◌∙◌, inl, inr, arith, leb, ◌==◌, nat_eq, list_eq, option_eq,
  Bool-cases, length, length-append, contains, Distinct, Distinct-snoc, All, All-append,
}
use abyss_backend.Search.Text.{Text, codes}
use abyss_backend.Search.Text.Trimming.{trim}
use abyss_backend.Projection.Markers.{sanitize_search_text}
use abyss_backend.Projection.Document.{
  max_content_characters, max_metadata_field_characters, max_extracted_values, SourceEntry,
  text_of_entry, join_lines, UsageEvent, truncate_characters, is_empty, push_trimmed, push_bounded,
  push_name, name_of_entry, tool_names_of, texts_of, content_of, from_source, from_event,
}

pub truncate_characters-le :
    (maximum : ℕ) (text : Text) → length (truncate_characters maximum text) ≤ maximum
unfolding truncate_characters
truncate_characters-le zero text = omega arith
truncate_characters-le (suc n) [] = omega arith
truncate_characters-le (suc n) (c ∷ text) = omega (arith, truncate_characters-le n text)

truncate_characters-nonempty :
    (maximum : ℕ) (text : Text)
    → 0 < maximum
    → is_empty text ≡ false
    → is_empty (truncate_characters maximum text) ≡ false
unfolding truncate_characters
truncate_characters-nonempty zero text h e = elim h [ ]
truncate_characters-nonempty (suc n) [] h e = e
truncate_characters-nonempty (suc n) (c ∷ text) h e = refl

-- The kept tool names: at most 64, none twice, none empty and none long.
pub record AreBounded (names : List Text) : Type 0 where
  pub few : length names ≤ max_extracted_values
  pub distinct : Distinct names
  pub bounded :
      All (λ name. (is_empty name ≡ false) × (length name ≤ max_metadata_field_characters)) names

push_trimmed-AreBounded :
    (values : List Text) (value : Text) → AreBounded values → AreBounded (push_trimmed values value)
unfolding push_trimmed
push_trimmed-AreBounded values value b =
    elim (Bool-cases (is_empty value || leb max_extracted_values (length values))) [
      | inl stop ↦ rw stop b
      | inr go ↦
          let cut = truncate_characters max_metadata_field_characters value in
          elim (Bool-cases (contains values cut)) [
            | inl old ↦ rw go (rw old b)
            | inr new ↦
                let (full, room) = or-eq-false _ _ go in
                rw go (
                  rw new (
                    added cut new (leb→lt _ _ room)
                      (truncate_characters-nonempty max_metadata_field_characters value
                        (omega arith) full)
                      (truncate_characters-le max_metadata_field_characters value)))
          ]
    ]
  where
    added :
        (cut : Text)
        → contains values cut ≡ false
        → length values < max_extracted_values
        → is_empty cut ≡ false
        → length cut ≤ max_metadata_field_characters
        → AreBounded (values ++ cut ∷ [])
    added cut new room full short = record {
      few = omega (arith, length-append values (cut ∷ []));
      distinct = Distinct-snoc values cut b.distinct new;
      bounded =
          All-append
            (λ name. (is_empty name ≡ false) × (length name ≤ max_metadata_field_characters)) values
            (cut ∷ []) b.bounded ((full, short), tt);
    }

name_of_entry-AreBounded :
    (values : List Text) (entry : SourceEntry)
    → AreBounded values
    → AreBounded (name_of_entry values entry)
unfolding name_of_entry
name_of_entry-AreBounded values entry b =
    elim (Bool-cases (entry.role == some (codes "tool_call"))) [
      | inl e ↦ rw e (pushed entry.name)
      | inr e ↦ rw e b
    ]
  where
    pushed : (name : Option Text) → AreBounded (push_name values name)
    pushed none = unfold push_name in b
    pushed (some name) =
        unfold push_name push_bounded in
        push_trimmed-AreBounded values (trim (sanitize_search_text name)) b

tool_names_of-AreBounded :
    (values : List Text) (entries : List SourceEntry)
    → AreBounded values
    → AreBounded (tool_names_of values entries)
unfolding tool_names_of
tool_names_of-AreBounded values [] b = b
tool_names_of-AreBounded values (entry ∷ entries) b =
    tool_names_of-AreBounded (name_of_entry values entry) entries
      (name_of_entry-AreBounded values entry b)

content_of-le :
    (texts : List Text)
    → All (λ content. length content ≤ max_content_characters) (to_list (content_of texts))
unfolding content_of
content_of-le [] = tt
content_of-le (text ∷ texts) = (
  truncate_characters-le max_content_characters (sanitize_search_text (join_lines (text ∷ texts))),
  tt,
)

content_of-none : (texts : List Text) → content_of texts ≡ none → texts ≡ []
unfolding content_of
content_of-none [] h = refl
content_of-none (text ∷ texts) h = absurd (cc)

abbrev pub HasNoText : SourceEntry → Type 0
HasNoText entry = (entry.text ≡ none) ⊎ (entry.text ≡ some [])

text_of_entry-none :
    (text : Option Text) (texts : List Text)
    → text_of_entry text texts ≡ []
    → ((text ≡ none) ⊎ (text ≡ some [])) × (texts ≡ [])
text_of_entry-none none texts h = (inl refl, h)
text_of_entry-none (some []) texts h = (inr refl, h)
text_of_entry-none (some (c ∷ text)) texts h = absurd (cc)

texts_of-empty : (entries : List SourceEntry) → texts_of entries ≡ [] → All HasNoText entries
unfolding texts_of
texts_of-empty [] h = tt
texts_of-empty (entry ∷ entries) h =
    let (here, later) = text_of_entry-none entry.text (texts_of entries) h in
    (here, texts_of-empty entries later)

no_texts : (entries : List SourceEntry) → All HasNoText entries → texts_of entries ≡ []
unfolding texts_of
no_texts [] h = refl
no_texts (entry ∷ entries) h = elim h.0 [
  | inl e ↦ ap (λ t. text_of_entry t (texts_of entries)) e ∙ no_texts entries h.1
  | inr e ↦ ap (λ t. text_of_entry t (texts_of entries)) e ∙ no_texts entries h.1
]

-- Whatever the conversation of an event, its document has a content of at most a million
-- characters, and at most 64 tool names: none twice, none empty and none of more than a hundred
-- thousand characters. A document has no content exactly if no entry has a text that is not empty.
pub from_event-Bounded :
    (event : UsageEvent)
    → All (λ content. length content ≤ max_content_characters) (to_list (from_event event).content)
      × AreBounded (from_event event).tool_names
      × (((from_event event).content ≡ none) ↔ All HasNoText event.entries)
unfolding from_event from_source
from_event-Bounded event = (
  content_of-le (texts_of event.entries),
  tool_names_of-AreBounded [] event.entries
      (record { few = omega arith; distinct = tt; bounded = tt }),
  (
    (λ h. texts_of-empty event.entries (content_of-none (texts_of event.entries) h)),
    (λ h. ap content_of (no_texts event.entries h)),
  ),
)
