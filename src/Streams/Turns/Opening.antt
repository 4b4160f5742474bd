-- ===== src/Streams/Turns/Opening.antt =====
-- Which exchanges open a turn, by their place in the session (usage/streams/turns.rs).
use mathlib.Core.Option.{some-injective}
use abyss_backend.Common.{
  ℕ, zero, suc, String, Bool, false, not, ◌&&◌, ◌||◌, List, [], ◌∷◌, Option, none, some, ◌≡◌, refl,
  inl, inr, arith, ◌==◌, nat_eq, string_eq, if◌then◌else◌, Bool-cases, length, get_elem?, take, any,
}
use abyss_backend.Streams.Exchanges.{Exchange, opens_turn, continues_context}
use abyss_backend.Streams.Turns.{opened}

-- The identity of the turn that the exchange at `i` declares or opens. Where no exchange of the
-- session declares a turn, one that opens a turn does so if it continues its context, or if it is
-- the first of the session that opens one.
abbrev pub opens_at : Bool → List Exchange → ℕ → Exchange → Option String
opens_at declared exchanges i e =
    if declared
    then e.turn_id
    else if opens_turn e && (continues_context e || not (any opens_turn (take i exchanges)))
    then some e.id
    else none

-- Where turns are not declared, there is none so far exactly if no exchange so far opens one.
abbrev pub IsSettled : Bool → List Exchange → ℕ → List String → Type 0
IsSettled declared exchanges count ids =
    declared ≡ false → (length ids == 0) ≡ not (any opens_turn (take count exchanges))

any-take-suc {ℓ} :
    {A : Type ℓ} (p : A → Bool) (xs : List A) (i : ℕ) (x : A)
    → get_elem? xs i ≡ some x
    → any p (take (suc i) xs) ≡ (any p (take i xs) || p x)
any-take-suc p [] i x h = cc
any-take-suc p (y ∷ ys) zero x h = let same : y ≡ x = some-injective y x h in rw same (ground arith)
any-take-suc p (y ∷ ys) (suc i) x h = ground (arith, any-take-suc p ys i x h)

module _ (declared : Bool) (exchanges : List Exchange) (i : ℕ) (e : Exchange) (ids : List String)
    (here : get_elem? exchanges i ≡ some e) (settled : IsSettled declared exchanges i ids) where
  pub opened-opens_at : opened declared e ids ≡ opens_at declared exchanges i e
  unfolding opened
  opened-opens_at = elim (Bool-cases declared) [
    | inl d ↦ rw d refl
    | inr d ↦ rw (d, settled d) refl
  ]

  -- After an exchange that opens no turn.
  pub none-IsSettled : opened declared e ids ≡ none → IsSettled declared exchanges (suc i) ids
  unfolding opened
  none-IsSettled h d = ground (arith, settled d, any-take-suc opens_turn exchanges i e here)

  -- After an exchange that opens one.
  pub some-IsSettled :
      (id : String) (ids' : List String) (turn : ℕ)
      → opened declared e ids ≡ some id
      → get_elem? ids' turn ≡ some id
      → IsSettled declared exchanges (suc i) ids'
  unfolding opened
  some-IsSettled id [] turn h k d = cc
  some-IsSettled id (j ∷ js) turn h k d = ground (arith, any-take-suc opens_turn exchanges i e here)
