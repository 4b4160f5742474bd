-- ===== src/Streams/Facts/Identities.antt =====
-- Identities and keys of entries (facts.rs): the request side reads `identities`, the response
-- side `key`, and the two must meet.
use mathlib.Core.List.{append-nil}
use abyss_backend.Common.{
  String, Bool, true, false, ◌||◌, [], ◌∷◌, ◌++◌, Option, none, some, ◌≡◌, refl, sym, ap, ◌∙◌, inl,
  inr, ◌==◌, string_eq, ==→eq, Bool-cases, Option-cases, arith, last, is_none, to_list,
}
use abyss_backend.Streams.Events.{Entry}
use abyss_backend.Streams.Facts.{
  is_model_role, is_model_side, item, text_identity, call, identities, key, has_identity,
}

-- Only tool entries carry a call id, as the collector's contract says.
abbrev pub tool_calls_only : Entry → Bool
tool_calls_only entry =
    is_none entry.call_id || (entry.role == "tool_call" || entry.role == "tool_result")

tool_call_of_model_side :
    (role : String)
    → is_model_role role ≡ true
    → (role == "tool_call" || role == "tool_result") ≡ true
    → (role == "tool_call") ≡ true
tool_call_of_model_side role m h = elim (Bool-cases (role == "tool_call")) [
  | inl e ↦ e
  | inr e ↦
      let result : role ≡ "tool_result" = ==→eq role "tool_result" (ground arith) in
      absurd (result_not_model (ap is_model_role (sym result) ∙ m))
]
  where
    result_not_model : is_model_role "tool_result" ≡ true → ⊥
    result_not_model p = cc

module _ (digest : String → String) where
  -- The identities of a model-side entry, by what ids it has.
  identities-call :
      (entry : Entry) (c : String)
      → is_model_side entry ≡ true
      → tool_calls_only entry ≡ true
      → entry.call_id ≡ some c
      → identities digest entry ≡ to_list (item entry) ++ c ∷ []
  unfolding identities call text_identity is_model_side
  identities-call entry c m w e =
      let t = tool_call_of_model_side entry.role m (ground arith) in
      simp (t, e) (ground (arith, append-nil (to_list (item entry) ++ c ∷ [])))

  last-to_list : (o : Option String) (c : String) → last (to_list o ++ c ∷ []) ≡ some c
  last-to_list none c = refl
  last-to_list (some a) c = refl

  -- The last identity of a model-side entry is its key in a skeleton.
  pub last-identities :
      (entry : Entry)
      → is_model_side entry ≡ true
      → tool_calls_only entry ≡ true
      → last (identities digest entry) ≡ key digest entry
  unfolding identities key call item text_identity
  last-identities entry m w = elim (Option-cases entry.call_id) [
    | inr (c, e) ↦
        ap last (identities-call entry c m w e) ∙ last-to_list (item entry) c ∙ ground arith
    | inl e ↦ ground arith
  ]

  -- A model-side entry without identities has no key.
  pub key-none :
      (entry : Entry)
      → is_model_side entry ≡ true
      → tool_calls_only entry ≡ true
      → has_identity digest entry ≡ false
      → key digest entry ≡ none
  unfolding identities key call item text_identity
  key-none entry m w h = elim (Option-cases entry.call_id) [
    | inr (c, e) ↦ absurd (ground (arith, tool_call_of_model_side entry.role m))
    | inl e ↦ ground arith
  ]
