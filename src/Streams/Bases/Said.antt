-- ===== src/Streams/Bases/Said.antt =====
-- The order in which an output said what trails an identity: `said_after` of base.rs.
use mathlib.Core.List.{Sublistᴰ}
use mathlib.Core.List.Sublistᴰ.{slnil, cons, cons-cons}
use abyss_backend.Common.{
  String, true, false, List, [], ◌∷◌, some, ◌≡◌, refl, sym, subst, inl, inr, ◌↔◌, string_eq,
  ==-cases, Option-cases, arith, rposition, ◌++◌, any, rposition-Split, Split-drop,
  rposition-of_split, drop-suc-append,
}
use abyss_backend.Streams.Events.{SkeletonEntry}
use abyss_backend.Streams.Bases.{skip_past, said_in_order, said_after, model_roles_of, holds_key}

skip_past-Sublist :
    (role : String) (trailing said rest : List String)
    → skip_past role said ≡ some rest
    → Sublistᴰ trailing rest
    → Sublistᴰ (role ∷ trailing) said
unfolding skip_past
skip_past-Sublist role trailing [] rest h k = cc
skip_past-Sublist role trailing (x ∷ said) rest h k = elim (==-cases x role) [
  | inl (p, q) ↦
      let e : said ≡ rest = ground arith in cons-cons (sym q) (subst (Sublistᴰ trailing) (sym e) k)
  | inr (p, q) ↦ cons (skip_past-Sublist role trailing said rest (ground arith) k)
]

nil_Sublist {ℓ} : {A : Type ℓ} (xs : List A) → Sublistᴰ [] xs
nil_Sublist [] = slnil
nil_Sublist (x ∷ xs) = cons (nil_Sublist xs)

Sublist-tail {ℓ} : {A : Type ℓ} {a : A} {xs ys : List A} → Sublistᴰ (a ∷ xs) ys → Sublistᴰ xs ys
Sublist-tail (cons k) = cons (Sublist-tail k)
Sublist-tail (cons-cons e k) = cons k

Sublist-skip_past :
    {role : String} {trailing said : List String}
    → Sublistᴰ (role ∷ trailing) said
    → (rest : List String) × (skip_past role said ≡ some rest) × Sublistᴰ trailing rest
unfolding skip_past
Sublist-skip_past {role} (cons {a = x} {l₂ = said} k) = elim (==-cases x role) [
  | inl (p, q) ↦ (said, ground arith, Sublist-tail k)
  | inr (p, q) ↦ let (rest, e, l) = Sublist-skip_past k in (rest, ground arith, l)
]
Sublist-skip_past {role} (cons-cons {b = x} {l₂ = said} e k) =
    (said, ground (arith, string_eq.decides x role), k)

said_in_order-Sublist :
    (trailing said : List String) → said_in_order trailing said ≡ true → Sublistᴰ trailing said
unfolding said_in_order
said_in_order-Sublist [] said h = nil_Sublist said
said_in_order-Sublist (role ∷ trailing) said h = elim (Option-cases (skip_past role said)) [
  | inl e ↦ absurd (ground arith)
  | inr (rest, e) ↦
      skip_past-Sublist role trailing said rest e
        (said_in_order-Sublist trailing rest (ground arith))
]

Sublist-said_in_order :
    (trailing : List String) {said : List String}
    → Sublistᴰ trailing said
    → said_in_order trailing said ≡ true
unfolding said_in_order
Sublist-said_in_order [] k = refl
Sublist-said_in_order (role ∷ trailing) k =
    let (rest, e, l) = Sublist-skip_past k in
    rw (e, said_in_order) (Sublist-said_in_order trailing l)

-- The output holds a model-side entry with the key, and after the last such entry its model-side
-- roles hold all of `trailing`, in order.
pub record SaidAfter (output : List SkeletonEntry) (id : String) (trailing : List String)
    : Type 0 where
  pub before : List SkeletonEntry
  pub held : SkeletonEntry
  pub after : List SkeletonEntry
  pub whole : output ≡ before ++ held ∷ after
  pub keyed : holds_key id held ≡ true
  pub last_keyed : any (holds_key id) after ≡ false
  pub said : Sublistᴰ trailing (model_roles_of after)

-- The greedy scan of `said_after` answers yes exactly when the output holds a model-side entry
-- keyed by the identity and the model-side roles after the last such entry have the trailing roles
-- as a sublist.
pub said_after-SaidAfter :
    (output : List SkeletonEntry) (id : String) (trailing : List String)
    → (said_after output id trailing ≡ true) ↔ SaidAfter output id trailing
unfolding said_after
said_after-SaidAfter output id trailing = (sound, complete)
  where
    sound : said_after output id trailing ≡ true → SaidAfter output id trailing
    sound h = elim (Option-cases (rposition (holds_key id) output)) [
      | inl e ↦ absurd (ground arith)
      | inr (i, e) ↦
          let s = rposition-Split (holds_key id) output i e in
          record {
            before = s.before;
            held = s.here;
            after = s.after;
            whole = s.whole;
            keyed = s.holds;
            last_keyed = s.none_after;
            said =
                said_in_order-Sublist trailing (model_roles_of s.after)
                  (rw (← Split-drop s) (rw (e, said_after) at h));
          }
    ]

    complete : SaidAfter output id trailing → said_after output id trailing ≡ true
    complete s =
        subst (λ o. said_after o id trailing ≡ true) (sym s.whole)
          (rw
            (
              rposition-of_split (holds_key id) s.before s.held s.after s.keyed s.last_keyed,
              said_after,
            )
            (rw (drop-suc-append s.before s.held s.after) (Sublist-said_in_order trailing s.said)))
