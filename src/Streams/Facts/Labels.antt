-- ===== src/Streams/Facts/Labels.antt =====
-- The label of a request (`Label::of` of facts.rs): where it is, and how its text is cut.
use Prim.Native.Char.{Char}
use abyss_backend.Common.{
  ℕ, ◌+◌, ◌<◌, ◌≤◌, String, true, List, some, ◌≡◌, sym, ap, ◌∙◌, inl, inr, ltb, Bool-cases,
  Option-cases, arith, drop, get_elem?, rposition, rposition-none, rposition-lt, get_elem?-drop,
  get_elem?-of_lt,
}
use abyss_backend.Streams.Events.{Entry, Label}
use abyss_backend.Streams.Facts.{
  i32_max, to_i32, len_utf16, utf16_length, label_text_units, label_text, has_user_text, label_of,
  starts_turn,
}

-- `text` is the start of `whole` that holds at most `limit` units and cannot be one character
-- longer.
pub data Cut (limit : ℕ) : ℕ → String → String → Type 0 where
  all_fits : (units : ℕ) → Cut limit units String.[] String.[]
  too_long :
      (units : ℕ) (c : Char) (rest : String)
      → limit < units + len_utf16 c
      → Cut limit units String.[] (String.◌∷◌ c rest)
  fits :
      (units : ℕ) (c : Char) (text rest : String)
      → units + len_utf16 c ≤ limit
      → Cut limit (units + len_utf16 c) text rest
      → Cut limit units (String.◌∷◌ c text) (String.◌∷◌ c rest)

-- The label's text is the longest start of the entry's text, in whole characters, that has at most
-- fifty UTF-16 units.
pub label_text-Cut : (units : ℕ) (s : String) → Cut label_text_units units (label_text units s) s
unfolding label_text
label_text-Cut units String.[] = all_fits units
label_text-Cut units (String.◌∷◌ c s) =
    elim (Bool-cases (ltb label_text_units (units + len_utf16 c))) [
      | inl e ↦ rw e (too_long units c s (ground arith))
      | inr e ↦ rw e (
          fits units c (label_text (units + len_utf16 c) s) s (ground arith)
            (label_text-Cut (units + len_utf16 c) s))
    ]

-- The units of the label's text.
utf16_length-Cut :
    (limit units : ℕ) (text s : String)
    → Cut limit units text s
    → units ≤ limit
    → units + utf16_length text ≤ limit
unfolding utf16_length
utf16_length-Cut limit units text s (all_fits u) h = omega arith
utf16_length-Cut limit units text s (too_long u c rest e) h = omega arith
utf16_length-Cut limit units text s (fits u c t rest e k) h =
    omega (arith, utf16_length-Cut limit (u + len_utf16 c) t rest k e)

-- A label's text has at most fifty UTF-16 units, and its length and index are in the range of
-- `i32`.
pub label_of-bounds :
    (entries : List Entry) (new_from : ℕ) (label : Label)
    → label_of entries new_from ≡ some label
    → (utf16_length label.text ≤ label_text_units)
      × (label.length ≤ i32_max)
      × (label.index ≤ i32_max)
unfolding label_of
label_of-bounds entries new_from label h =
    elim (Option-cases (rposition has_user_text (drop new_from entries))) [
      | inl e ↦ absurd (ground arith)
      | inr (offset, e) ↦ elim (Option-cases (get_elem? entries (new_from + offset))) [
        | inl f ↦ absurd (ground arith)
        | inr (entry, f) ↦
            let short =
              utf16_length-Cut label_text_units 0 (label_text 0 entry.text) entry.text
                (label_text-Cut 0 entry.text) (omega arith) in
            let text : label_text 0 entry.text ≡ label.text = ground arith in
            (omega (arith, short, ap utf16_length text), ground arith, ground arith)
      ]
    ]

-- A request that opens a turn has a label: the new part that opens it holds a user entry with
-- text.
pub starts_turn-label_of :
    (entries : List Entry) (new_from : ℕ)
    → starts_turn (drop new_from entries) ≡ true
    → (label : Label) × (label_of entries new_from ≡ some label)
unfolding starts_turn label_of
starts_turn-label_of entries new_from h =
    elim (Option-cases (rposition has_user_text (drop new_from entries))) [
      | inl e ↦ absurd (ground (arith, rposition-none has_user_text (drop new_from entries) e))
      | inr (offset, e) ↦
          let (entry, f) =
            get_elem?-of_lt (drop new_from entries) offset
              (rposition-lt has_user_text (drop new_from entries) offset e) in
          let g : get_elem? entries (new_from + offset) ≡ some entry =
            sym (get_elem?-drop new_from offset entries) ∙ f in
          (
            record {
              index = to_i32 (new_from + offset);
              text = label_text 0 entry.text;
              length = to_i32 (utf16_length entry.text);
            },
            rw (e, label_of) (rw g),
          )
    ]
