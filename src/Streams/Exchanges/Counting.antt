-- ===== src/Streams/Exchanges/Counting.antt =====
-- The events and the responses of a list of exchanges, counted.
use mathlib.Core.List.{Perm, perm_middle, perm_append_comm, append_assoc}
use mathlib.Core.List.Perm
use mathlib.Core.Option.{some-injective}
use abyss_backend.Common.{
  ℕ, zero, suc, ◌+◌, String, List, [], ◌∷◌, ◌++◌, some, ◌≡◌, refl, sym, ap, ◌∙◌, inl, inr, ◌==◌,
  string_eq, option_eq, Bool-cases, arith, if◌then◌else◌, get_elem?, set, insert_by, sort_by,
}
use abyss_backend.Streams.Events.{StreamEvent}
use abyss_backend.Streams.Exchanges.{Exchange, add_side, add, declare, earlier_exchange}

-- The events of the exchanges.
abbrev pub all_pks : List Exchange → List ℕ
all_pks [] = []
all_pks (exchange ∷ exchanges) = exchange.event_pks ++ all_pks exchanges

-- How many exchanges have the response.
abbrev pub count_response : String → List Exchange → ℕ
count_response id [] = 0
count_response id (exchange ∷ exchanges) =
    (if exchange.response_id == some id then 1 else 0) + count_response id exchanges

pub event_pks-add :
    (event : StreamEvent) (exchange : Exchange)
    → (add event exchange).event_pks ≡ exchange.event_pks ++ event.pk ∷ []
unfolding add add_side declare
event_pks-add event exchange = ground arith

pub response_id-add :
    (event : StreamEvent) (exchange : Exchange)
    → (add event exchange).response_id ≡ exchange.response_id
unfolding add add_side declare
response_id-add event exchange = ground arith

pub all_pks-set :
    (event : StreamEvent) (xs : List Exchange) (i : ℕ) (x : Exchange)
    → get_elem? xs i ≡ some x
    → Perm (event.pk ∷ all_pks xs) (all_pks (set xs i (add event x)))
all_pks-set event [] i x e = absurd (cc)
all_pks-set event (y ∷ xs) zero x e =
    let same : y ≡ x = some-injective y x e in
    rw (event_pks-add event x, append_assoc x.event_pks (event.pk ∷ []) (all_pks xs), same)
      (Perm.symm (perm_middle x.event_pks (all_pks xs)))
all_pks-set event (y ∷ xs) (suc i) x e =
    Perm.trans (Perm.symm (perm_middle y.event_pks (all_pks xs)))
      (Perm.append_left y.event_pks (all_pks-set event xs i x e))

pub count_response-set :
    (id : String) (event : StreamEvent) (xs : List Exchange) (i : ℕ) (x : Exchange)
    → get_elem? xs i ≡ some x
    → count_response id (set xs i (add event x)) ≡ count_response id xs
count_response-set id event [] i x e = absurd (cc)
count_response-set id event (y ∷ xs) zero x e =
    let same : y ≡ x = some-injective y x e in rw (response_id-add event x, same) refl
count_response-set id event (y ∷ xs) (suc i) x e =
    ap (λ k. (if y.response_id == some id then 1 else 0) + k) (count_response-set id event xs i x e)

pub all_pks-append : (xs ys : List Exchange) → all_pks (xs ++ ys) ≡ all_pks xs ++ all_pks ys
all_pks-append [] ys = refl
all_pks-append (x ∷ xs) ys =
    ap (λ zs. x.event_pks ++ zs) (all_pks-append xs ys)
    ∙ sym (append_assoc x.event_pks (all_pks xs) (all_pks ys))

pub count_response-append :
    (id : String) (xs ys : List Exchange)
    → count_response id (xs ++ ys) ≡ count_response id xs + count_response id ys
count_response-append id [] ys = omega arith
count_response-append id (x ∷ xs) ys = omega (arith, count_response-append id xs ys)

pub swap_front : (xs ys zs : List ℕ) → Perm (xs ++ (ys ++ zs)) (ys ++ (xs ++ zs))
swap_front xs ys zs =
    rw (← append_assoc xs ys zs, ← append_assoc ys xs zs)
      (Perm.append_right zs (perm_append_comm xs ys))

pub all_pks-insert_by :
    (x : Exchange) (xs : List Exchange)
    → Perm (x.event_pks ++ all_pks xs) (all_pks (insert_by earlier_exchange x xs))
all_pks-insert_by x [] = Perm.rfl
all_pks-insert_by x (y ∷ xs) = elim (Bool-cases (earlier_exchange x y)) [
  | inl e ↦ rw e Perm.rfl
  | inr e ↦ rw e (
      Perm.trans (swap_front x.event_pks y.event_pks (all_pks xs))
        (Perm.append_left y.event_pks (all_pks-insert_by x xs)))
]

pub all_pks-sort_by :
    (xs : List Exchange) → Perm (all_pks xs) (all_pks (sort_by earlier_exchange xs))
all_pks-sort_by [] = Perm.rfl
all_pks-sort_by (x ∷ xs) =
    Perm.trans (Perm.append_left x.event_pks (all_pks-sort_by xs))
      (all_pks-insert_by x (sort_by earlier_exchange xs))

pub count_response-insert_by :
    (id : String) (x : Exchange) (xs : List Exchange)
    → count_response id (insert_by earlier_exchange x xs) ≡ count_response id (x ∷ xs)
count_response-insert_by id x [] = refl
count_response-insert_by id x (y ∷ xs) = elim (Bool-cases (earlier_exchange x y)) [
  | inl e ↦ rw e
  | inr e ↦ rw e (omega (arith, count_response-insert_by id x xs))
]

pub count_response-sort_by :
    (id : String) (xs : List Exchange)
    → count_response id (sort_by earlier_exchange xs) ≡ count_response id xs
count_response-sort_by id [] = refl
count_response-sort_by id (x ∷ xs) =
    count_response-insert_by id x (sort_by earlier_exchange xs)
    ∙ ap (λ k. (if x.response_id == some id then 1 else 0) + k) (count_response-sort_by id xs)
