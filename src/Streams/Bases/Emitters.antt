-- ===== src/Streams/Bases/Emitters.antt =====
-- What `emitters` and `only_emitter` of base.rs find.
use abyss_backend.Common.{
  ℕ, suc, ◌<◌, String, true, List, [], ◌∷◌, ◌++◌, Option, none, some, ◌≡◌, refl, sym, ap, subst,
  ◌∙◌, ◌≢◌, ◌⊎◌, inl, inr, ◌==◌, string_eq, nat_eq, option_eq, ==-cases, ==_refl, Bool-cases, arith,
  if◌then◌else◌, last, All, contains, lookup-insert_self, lookup-insert_ne, for_each, Result, ok,
  err, ◌>>=◌, ok_or,
}
use mathlib.Core.Path.{fun_ext}
use mathlib.Core.List.{append-nil, append_assoc}
use abyss_backend.Streams.Exchanges.{Exchange}
use abyss_backend.Streams.Bases.{
  ById, NoBaseReason, text_only, no_output, unknown_ids, multiple_responses, missing_request,
  emitted_by, emitted_ids, record_emitter, record_ids, emitters, scan_emitters, scan_ids,
  only_emitter,
}

-- The indices, counted from `from`, of the exchanges whose response emitted the identity.
abbrev pub emitting : ℕ → List Exchange → String → List ℕ
emitting from [] id = []
emitting from (exchange ∷ exchanges) id =
    let rest = emitting (suc from) exchanges id in
    if contains (emitted_ids exchange) id then from ∷ rest else rest

push_once : ℕ → List ℕ → List ℕ
push_once index list = if last list == some index then list else list ++ index ∷ []

last-append : (list : List ℕ) (i : ℕ) → last (list ++ i ∷ []) ≡ some i
last-append [] i = refl
last-append (x ∷ []) i = refl
last-append (x ∷ y ∷ list) i = last-append (y ∷ list) i

push_once_idem : (i : ℕ) (list : List ℕ) → push_once i (push_once i list) ≡ push_once i list
unfolding push_once
push_once_idem i list = elim (Bool-cases (last list == some i)) [
  | inl p ↦ rw p (rw p)
  | inr q ↦ rw q (rw (last-append list i, ==_refl {A = Option ℕ} (some i)))
]

emitted_by-record_emitter :
    (index : ℕ) (id j : String) (by_id : ById)
    → emitted_by (record_emitter index id by_id) j
      ≡ (if id == j then push_once index (emitted_by by_id j) else emitted_by by_id j)
unfolding record_emitter push_once
emitted_by-record_emitter index id j by_id = elim (==-cases id j) [
  | inl (p, q) ↦ rw p (rw (← q) (rw lookup-insert_self))
  | inr (p, q) ↦ rw p (rw (lookup-insert_ne id j _ by_id q))
]

emitted_by-record_ids :
    (index : ℕ) (ids : List String) (j : String) (by_id : ById)
    → emitted_by (record_ids index ids by_id) j
      ≡ (if contains ids j then push_once index (emitted_by by_id j) else emitted_by by_id j)
unfolding record_ids
emitted_by-record_ids index [] j by_id = refl
emitted_by-record_ids index (id ∷ ids) j by_id = ground (
  arith,
  emitted_by-record_ids index ids j (record_emitter index id by_id),
  emitted_by-record_emitter index id j by_id,
  push_once_idem index (emitted_by by_id j),
)

-- The last exchange of a list, if there is one, stands below the index.
abbrev LastBelow : ℕ → List ℕ → Type 0
LastBelow index list = (k : ℕ) → last list ≡ some k → k < index

push_once_below :
    (index : ℕ) (list : List ℕ) → LastBelow index list → push_once index list ≡ list ++ index ∷ []
unfolding push_once
push_once_below index list below = elim (==-cases (last list) (some index)) [
  | inl (p, q) ↦ absurd (omega (arith, below index q))
  | inr (p, q) ↦ rw p
]

emitted_by-loop :
    (from : ℕ) (exchanges : List Exchange) (by_id : ById) (id : String)
    → LastBelow from (emitted_by by_id id)
    → emitted_by
        (for_each
          (λ index exchange m. record_ids index (emitted_ids exchange) m)
          from
          exchanges
          by_id)
        id
      ≡ emitted_by by_id id ++ emitting from exchanges id
emitted_by-loop from [] by_id id below = sym (append-nil (emitted_by by_id id))
emitted_by-loop from (exchange ∷ exchanges) by_id id below =
    elim (Bool-cases (contains (emitted_ids exchange) id)) [
      | inl p ↦
          let e : emitted_by next id ≡ emitted_by by_id id ++ from ∷ [] =
            emitted_by-record_ids from (emitted_ids exchange) id by_id
            ∙ rw p (push_once_below from (emitted_by by_id id) below) in
          rw p (
            emitted_by-loop (suc from) exchanges next id (λ k h. below_next k (rw e at h))
            ∙ rw e (append_assoc (emitted_by by_id id) (from ∷ []) _))
      | inr q ↦
          let e : emitted_by next id ≡ emitted_by by_id id =
            emitted_by-record_ids from (emitted_ids exchange) id by_id ∙ rw q in
          rw q (
            emitted_by-loop (suc from) exchanges next id
              (λ k h. let l = below k (rw e at h) in omega arith)
            ∙ rw e)
    ]
  where
    next : ById
    next = record_ids from (emitted_ids exchange) by_id

    below_next : (k : ℕ) → last (emitted_by by_id id ++ from ∷ []) ≡ some k → k < suc from
    below_next k h = ground (arith, last-append (emitted_by by_id id) from)

-- The table of emitters gives, for every identity, exactly the exchanges whose response emitted
-- it, in exchange order and each once.
pub emitters-eq-emitting :
    (exchanges : List Exchange) (id : String)
    → emitted_by (emitters exchanges) id ≡ emitting 0 exchanges id
unfolding emitters
emitters-eq-emitting exchanges id = emitted_by-loop 0 exchanges [] id (λ k h. cc)

-- What is known of the scan's result, from what was found before it.
abbrev Scanned : ℕ → List ℕ → Option ℕ → Result NoBaseReason (Option ℕ) → Type 0
Scanned own cs none (ok none) = All (λ c. c ≡ own) cs
Scanned own cs none (ok (some e)) =
    (contains cs e ≡ true) × (e ≢ own) × All (λ c. (c ≡ own) ⊎ (c ≡ e)) cs
Scanned own cs none (err multiple_responses) =
    (a : ℕ) × (b : ℕ) × (contains cs a ≡ true)
    × (contains cs b ≡ true)
    × (a ≢ own)
    × (b ≢ own)
    × (a ≢ b)
Scanned own cs (some f) (ok (some e)) = (e ≡ f) × All (λ c. (c ≡ own) ⊎ (c ≡ f)) cs
Scanned own cs (some f) (err multiple_responses) =
    (b : ℕ) × (contains cs b ≡ true) × (b ≢ own) × (b ≢ f)
Scanned own cs found r = ⊥

contains-cons : (c b : ℕ) (cs : List ℕ) → contains cs b ≡ true → contains (c ∷ cs) b ≡ true
contains-cons c b cs h = elim (Bool-cases (c == b)) [ inl p ↦ rw p | inr q ↦ rw q h ]

contains-head : (c : ℕ) (cs : List ℕ) → contains (c ∷ cs) c ≡ true
contains-head c cs = rw (==_refl c)

-- A passed candidate changes nothing once one was found.
Scanned-pass_some :
    (own c f : ℕ) (cs : List ℕ) (r : Result NoBaseReason (Option ℕ))
    → (c ≡ own) ⊎ (c ≡ f)
    → Scanned own cs (some f) r
    → Scanned own (c ∷ cs) (some f) r
Scanned-pass_some own c f cs (ok (some e)) h s = (s.0, (h, s.1))
Scanned-pass_some own c f cs (err multiple_responses) h (b, m, n, k) =
    (b, contains-cons c b cs m, n, k)
Scanned-pass_some own c f cs (ok none) h s = s
Scanned-pass_some own c f cs (err text_only) h s = s
Scanned-pass_some own c f cs (err no_output) h s = s
Scanned-pass_some own c f cs (err unknown_ids) h s = s
Scanned-pass_some own c f cs (err missing_request) h s = s

Scanned-pass_none :
    (own c : ℕ) (cs : List ℕ) (r : Result NoBaseReason (Option ℕ))
    → c ≡ own
    → Scanned own cs none r
    → Scanned own (c ∷ cs) none r
Scanned-pass_none own c cs (ok none) h s = (h, s)
Scanned-pass_none own c cs (ok (some e)) h s = (contains-cons c e cs s.0, s.1, (inl h, s.2))
Scanned-pass_none own c cs (err multiple_responses) h (a, b, m, n, k, l, d) =
    (a, b, contains-cons c a cs m, contains-cons c b cs n, k, l, d)
Scanned-pass_none own c cs (err text_only) h s = s
Scanned-pass_none own c cs (err no_output) h s = s
Scanned-pass_none own c cs (err unknown_ids) h s = s
Scanned-pass_none own c cs (err missing_request) h s = s

-- The first candidate that is not the exchange itself.
Scanned-find :
    (own c : ℕ) (cs : List ℕ) (r : Result NoBaseReason (Option ℕ))
    → c ≢ own
    → Scanned own cs (some c) r
    → Scanned own (c ∷ cs) none r
Scanned-find own c cs (ok (some e)) h s = (
  rw (s.0) (contains-head c cs),
  (λ p. h (sym s.0 ∙ p)),
  (inr (sym s.0), subst (λ f. All (λ d. (d ≡ own) ⊎ (d ≡ f)) cs) (sym s.0) s.1),
)
Scanned-find own c cs (err multiple_responses) h (b, m, n, k) =
    (c, b, contains-head c cs, contains-cons c b cs m, h, n, (λ p. k (sym p)))
Scanned-find own c cs (ok none) h s = absurd s
Scanned-find own c cs (err text_only) h s = s
Scanned-find own c cs (err no_output) h s = s
Scanned-find own c cs (err unknown_ids) h s = s
Scanned-find own c cs (err missing_request) h s = s

scan_some : (own f : ℕ) (cs : List ℕ) → Scanned own cs (some f) (scan_emitters own cs (some f))
unfolding scan_emitters
scan_some own f [] = (refl, tt)
scan_some own f (c ∷ cs) = elim (==-cases c own) [
  | inl (p, q) ↦ rw (p, scan_emitters) (Scanned-pass_some own c f cs _ (inl q) (scan_some own f cs))
  | inr (p, q) ↦ elim (==-cases f c) [
    | inl (p', q') ↦
        rw (p, p', scan_emitters)
          (Scanned-pass_some own c f cs _ (inr (sym q')) (scan_some own f cs))
    | inr (p', q') ↦ rw (p, p', scan_emitters) (c, contains-head c cs, q, (λ e. q' (sym e)))
  ]
]

scan_none : (own : ℕ) (cs : List ℕ) → Scanned own cs none (scan_emitters own cs none)
unfolding scan_emitters
scan_none own [] = tt
scan_none own (c ∷ cs) = elim (==-cases c own) [
  | inl (p, q) ↦ rw (p, scan_emitters) (Scanned-pass_none own c cs _ q (scan_none own cs))
  | inr (p, q) ↦ rw (p, scan_emitters) (Scanned-find own c cs _ q (scan_some own c cs))
]

-- All exchanges that emitted one of the identities, as the loops of `only_emitter` meet them.
abbrev pub candidates : ById → List String → List ℕ
candidates by_id [] = []
candidates by_id (id ∷ ids) = emitted_by by_id id ++ candidates by_id ids

scan_emitters-append :
    (own : ℕ) (xs ys : List ℕ) (found : Option ℕ)
    → scan_emitters own (xs ++ ys) found ≡ (scan_emitters own xs found >>= scan_emitters own ys)
unfolding scan_emitters
scan_emitters-append own [] ys found = refl
scan_emitters-append own (x ∷ xs) ys found =
    ground (arith, scan_emitters-append own xs ys found, scan_emitters-append own xs ys (some x))

scan_ids-eq-scan_emitters :
    (own : ℕ) (by_id : ById) (ids : List String) (found : Option ℕ)
    → scan_ids own by_id ids found ≡ scan_emitters own (candidates by_id ids) found
unfolding scan_ids scan_emitters
scan_ids-eq-scan_emitters own by_id [] found = refl
scan_ids-eq-scan_emitters own by_id (id ∷ ids) found =
    ap (λ f. scan_emitters own (emitted_by by_id id) found >>= f)
      (fun_ext (scan_ids-eq-scan_emitters own by_id ids))
    ∙ sym (scan_emitters-append own (emitted_by by_id id) (candidates by_id ids) found)

-- What a result of `only_emitter` says of the candidates.
abbrev pub OnlyEmitter : ℕ → List ℕ → Result NoBaseReason ℕ → Type 0
OnlyEmitter own cs (ok e) = (contains cs e ≡ true) × (e ≢ own) × All (λ c. (c ≡ own) ⊎ (c ≡ e)) cs
OnlyEmitter own cs (err unknown_ids) = All (λ c. c ≡ own) cs
OnlyEmitter own cs (err multiple_responses) =
    (a : ℕ) × (b : ℕ) × (contains cs a ≡ true)
    × (contains cs b ≡ true)
    × (a ≢ own)
    × (b ≢ own)
    × (a ≢ b)
OnlyEmitter own cs (err reason) = ⊥

Scanned-OnlyEmitter :
    (own : ℕ) (cs : List ℕ) (r : Result NoBaseReason (Option ℕ))
    → Scanned own cs none r
    → OnlyEmitter own cs (r >>= λ found. ok_or found unknown_ids)
Scanned-OnlyEmitter own cs (ok none) s = s
Scanned-OnlyEmitter own cs (ok (some e)) s = s
Scanned-OnlyEmitter own cs (err multiple_responses) s = s
Scanned-OnlyEmitter own cs (err unknown_ids) s = absurd s
Scanned-OnlyEmitter own cs (err text_only) s = s
Scanned-OnlyEmitter own cs (err no_output) s = s
Scanned-OnlyEmitter own cs (err missing_request) s = s

-- `only_emitter` answers with the exchange that emitted one of the identities when that is, but
-- for the asking exchange, the only one; with `unknown_ids` when no other exchange emitted any;
-- and with `multiple_responses` when two different other exchanges did. It never fails otherwise.
pub only_emitter-OnlyEmitter :
    (ids : List String) (own : ℕ) (by_id : ById)
    → OnlyEmitter own (candidates by_id ids) (only_emitter ids own by_id)
unfolding only_emitter
only_emitter-OnlyEmitter ids own by_id =
    rw (scan_ids-eq-scan_emitters own by_id ids none, only_emitter)
      (Scanned-OnlyEmitter own (candidates by_id ids) _ (scan_none own (candidates by_id ids)))
