-- ===== src/Streams/Turns/Joins.antt =====
-- One round of `Turns::assign` of turns.rs.
use abyss_backend.Common.{
  ℕ, ◌<◌, String, List, [], ◌∷◌, ◌++◌, Option, none, some, ◌≡◌, refl, sym, subst, ◌⊎◌, inl, inr,
  lt→ltb, nat_eq, string_eq, Option-cases, length, get_elem?, get_or, get_elem?-append_end,
  get_elem?-snoc, lookup, ok,
}
use mathlib.Core.List.{append-nil}
use abyss_backend.Streams.Bases.{BaseRule}
use abyss_backend.Streams.Turns.{Assigning, inherited, join_turn}
use abyss_backend.Streams.Turns.Numbers.{Inv, new_turn, join_turn-known, join_turn-new}

-- One round pushed `turn` for an exchange that opened `id`.
pub record Joined (id : String) (s s' : Assigning) : Type 0 where
  pub turn : ℕ
  pub more : List String
  pub of_grows : s'.of ≡ s.of ++ some turn ∷ []
  pub ids_grow : s'.ids ≡ s.ids ++ more
  pub identity : get_elem? s'.ids turn ≡ some id
  pub new_ids :
      (t : ℕ) (j : String)
      → get_elem? s'.ids t ≡ some j
      → (get_elem? s.ids t ≡ some j) ⊎ ((t ≡ turn) × (j ≡ id))

pub join_turn-Joined :
    (count : ℕ) (s : Assigning) (id : String) → Inv count s → Joined id s (join_turn id s)
join_turn-Joined count s id v = elim (Option-cases (lookup id s.known)) [
  | inl e ↦ subst (Joined id s) (sym (join_turn-new id s e)) new
  | inr (t, e) ↦ subst (Joined id s) (sym (join_turn-known id s t e)) (record {
    turn = t;
    more = [];
    of_grows = refl;
    ids_grow = sym (append-nil s.ids);
    identity = v.known_id id t e;
    new_ids = λ u j f. inl f;
  })
]
  where
    new : Joined id s (new_turn id s)
    new = record {
      turn = length s.ids;
      more = id ∷ [];
      of_grows = refl;
      ids_grow = refl;
      identity = get_elem?-append_end s.ids id (length s.ids) refl;
      new_ids = λ u j f. elim (get_elem?-snoc s.ids id u j f) [
        | inl old ↦ inl old
        | inr (e, q) ↦ inr (e, sym q)
      ];
    }

pub inherited-earlier :
    (index base : ℕ) (rule : BaseRule) (of : List (Option ℕ)) (ids : List String)
    → base < index
    → inherited index (ok (base, rule)) of ids ≡ get_or of base none
unfolding inherited
inherited-earlier index base rule of ids h = rw (lt→ltb base index h)
