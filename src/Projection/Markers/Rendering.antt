-- ===== src/Projection/Markers/Rendering.antt =====
-- `parse_fragment` ends and loses nothing (storage/postgres/search/projection.rs).
use mathlib.Core.List.{append_assoc, append-nil}
use abyss_backend.Common.{
  ℕ, zero, suc, ◌+◌, ◌<◌, true, false, List, [], ◌∷◌, ◌++◌, Option, some, ◌≡◌, ◌≢◌, ◌⊎◌, refl, sym,
  ap, ◌∙◌, inl, inr, arith, length, length-append, drop, Bool-cases, Option-cases, ◌==◌, nat_eq,
  and-eq-true, ==→eq,
}
use abyss_backend.Search.Text.{Text, starts_with, holds}
use abyss_backend.Search.Text.Trimming.{split_once}
use abyss_backend.Search.Pattern.Trigrams.{holds-append}
use abyss_backend.Search.Fragment.{FragmentSegment, push_segment}
use abyss_backend.Projection.Markers.{
  highlight_start, highlight_end, parse_rounds, parse_fragment, render,
}

starts_with-drop :
    (pattern text : Text)
    → starts_with pattern text ≡ true
    → pattern ++ drop (length pattern) text ≡ text
starts_with-drop [] text h = refl
starts_with-drop (p ∷ pattern) [] h = cc
starts_with-drop (p ∷ pattern) (c ∷ text) h =
    let (same, rest) = and-eq-true (p == c) (starts_with pattern text) h in
    cc (==→eq p c same, starts_with-drop pattern text rest)

-- A split puts the text back together.
split_once-append :
    (pattern text before after : Text)
    → split_once pattern text ≡ some (before, after)
    → before ++ (pattern ++ after) ≡ text
unfolding split_once
split_once-append pattern [] before after h = cc
split_once-append pattern (c ∷ text) before after h =
    elim (Bool-cases (starts_with pattern (c ∷ text))) [
      | inl e ↦ ground (arith, starts_with-drop pattern (c ∷ text) e)
      | inr e ↦ elim (Option-cases (split_once pattern text)) [
        | inl none_left ↦ absurd (ground arith)
        | inr (r, f) ↦ ground (arith, split_once-append pattern text r.0 r.1)
      ]
    ]

render-append : (xs ys : List FragmentSegment) → render (xs ++ ys) ≡ render xs ++ render ys
unfolding render
render-append [] ys = refl
render-append (x ∷ xs) ys = rw (render-append xs ys) (sym (append_assoc _ (render xs) (render ys)))

render-push_plain :
    (segments : List FragmentSegment) (text : Text)
    → render (push_segment segments text false) ≡ render segments ++ text
render-push_plain segments [] = sym (append-nil (render segments))
render-push_plain segments (c ∷ text) =
    render-append segments _
    ∙ ap (λ t. render segments ++ t) (unfold render in append-nil (c ∷ text))

render-push_highlighted :
    (segments : List FragmentSegment) (text : Text)
    → text ≢ []
    → render (push_segment segments text true)
      ≡ render segments ++ (highlight_start ++ (text ++ highlight_end))
render-push_highlighted segments [] h = absurd (h refl)
render-push_highlighted segments (c ∷ text) h =
    render-append segments _
    ∙ ap (λ t. render segments ++ t)
        (unfold render in append-nil (highlight_start ++ ((c ∷ text) ++ highlight_end)))

holds-suffix :
    (pattern before after : Text)
    → holds pattern (before ++ after) ≡ false
    → holds pattern after ≡ false
holds-suffix pattern [] after h = h
holds-suffix pattern (c ∷ before) after h = holds-suffix pattern before after (ground arith)

-- A split where the marker is of `n` characters leaves that many less.
split_once-length :
    (pattern text before after : Text)
    → split_once pattern text ≡ some (before, after)
    → length before + (length pattern + length after) ≡ length text
split_once-length pattern text before after h = omega (
  arith,
  ap length (split_once-append pattern text before after h),
  length-append before (pattern ++ after),
  length-append pattern after,
)

regroup : (p s m e a : Text) → (p ++ (s ++ (m ++ e))) ++ a ≡ p ++ (s ++ (m ++ (e ++ a)))
regroup p s m e a = simp append_assoc

regroup_end :
    (r p s m e a : Text) → ((r ++ p) ++ (s ++ (m ++ e))) ++ a ≡ r ++ (p ++ (s ++ (m ++ (e ++ a))))
regroup_end r p s m e a = simp append_assoc

abbrev empty_pair : Text
empty_pair = highlight_start ++ highlight_end

-- What the rounds return, with the segments before it.
abbrev Parsed : List FragmentSegment → Text → Option (List FragmentSegment) → Type 0
Parsed segments remainder result =
    (r : List FragmentSegment) × (result ≡ some r)
    × (holds empty_pair remainder ≡ false → render r ≡ render segments ++ remainder)

module _ (segments : List FragmentSegment) (remainder plain tagged : Text)
    (start : split_once highlight_start remainder ≡ some (plain, tagged)) where
  unclosed :
      render (push_segment (push_segment segments plain false) (highlight_start ++ tagged) false)
      ≡ render segments ++ remainder
  unclosed =
      render-push_plain (push_segment segments plain false) (highlight_start ++ tagged)
      ∙ ap (λ t. t ++ (highlight_start ++ tagged)) (render-push_plain segments plain)
      ∙ append_assoc (render segments) plain (highlight_start ++ tagged)
      ∙ ap (λ t. render segments ++ t)
          (split_once-append highlight_start remainder plain tagged start)

  module _ (matched after : Text)
      (end_found : split_once highlight_end tagged ≡ some (matched, after)) where
    whole : plain ++ (highlight_start ++ (matched ++ (highlight_end ++ after))) ≡ remainder
    whole =
        ap (λ t. plain ++ (highlight_start ++ t))
          (split_once-append highlight_end tagged matched after end_found)
        ∙ split_once-append highlight_start remainder plain tagged start

    matched_nonempty : holds empty_pair remainder ≡ false → matched ≢ []
    matched_nonempty h e =
        let found : holds empty_pair remainder ≡ true =
          ap (holds empty_pair) (
            sym (
              ap (λ m. plain ++ (highlight_start ++ (m ++ (highlight_end ++ after)))) (sym e)
              ∙ whole))
          ∙ holds-append plain empty_pair after in
        cc

    after_clean : holds empty_pair remainder ≡ false → holds empty_pair after ≡ false
    after_clean h =
        holds-suffix empty_pair (plain ++ (highlight_start ++ (matched ++ highlight_end))) after (
          ap (holds empty_pair) (regroup plain highlight_start matched highlight_end after ∙ whole)
          ∙ h)

    rendered :
        holds empty_pair remainder ≡ false
        → render (push_segment (push_segment segments plain false) matched true) ++ after
          ≡ render segments ++ remainder
    rendered h =
        let pushed =
          render-push_highlighted (push_segment segments plain false) matched (matched_nonempty h)
          ∙ ap (λ t. t ++ (highlight_start ++ (matched ++ highlight_end)))
              (render-push_plain segments plain) in
        ap (λ t. t ++ after) pushed
        ∙ regroup_end (render segments) plain highlight_start matched highlight_end after
        ∙ ap (λ t. render segments ++ t) whole

    shorter : length after < length remainder
    shorter = omega (
      arith,
      split_once-length highlight_start remainder plain tagged start,
      split_once-length highlight_end tagged matched after end_found,
    )

parse_rounds-Parsed :
    (fuel : ℕ) (segments : List FragmentSegment) (remainder : Text)
    → length remainder < fuel
    → Parsed segments remainder (parse_rounds fuel segments remainder)
unfolding parse_rounds
parse_rounds-Parsed zero segments remainder h = elim h [ ]
parse_rounds-Parsed (suc fuel) segments remainder h =
    elim (Option-cases (split_once highlight_start remainder)) [
      | inl e ↦ (
        push_segment segments remainder false,
        rw (e, parse_rounds) refl,
        (λ clean. render-push_plain segments remainder),
      )
      | inr ((plain, tagged), e) ↦ elim (Option-cases (split_once highlight_end tagged)) [
        | inl f ↦ (
          push_segment (push_segment segments plain false) (highlight_start ++ tagged) false,
          rw (e, parse_rounds) (rw f refl),
          (λ clean. unclosed segments remainder plain tagged e),
        )
        | inr ((matched, after), f) ↦
            let pushed = push_segment (push_segment segments plain false) matched true in
            let (r, returned, renders) =
              parse_rounds-Parsed fuel pushed after
                (omega (arith, shorter segments remainder plain tagged e matched after f)) in
            (
              r,
              rw (e, parse_rounds) (rw f returned),
              (λ clean.
                  renders (after_clean segments remainder plain tagged e matched after f clean)
                  ∙ rendered segments remainder plain tagged e matched after f clean),
            )
      ]
    ]

-- `parse_fragment` returns for every fragment, whatever markers stand in it: marking its segments
-- again gives the fragment back, or somewhere in it an opening marker is directly followed by a
-- closing one.
pub parse_fragment-render :
    (fragment : Text)
    → (segments : List FragmentSegment) × (parse_fragment fragment ≡ some segments)
      × ((render segments ≡ fragment) ⊎ (holds (highlight_start ++ highlight_end) fragment ≡ true))
unfolding parse_fragment
parse_fragment-render fragment =
    let (r, returned, renders) =
      parse_rounds-Parsed (suc (length fragment)) [] fragment (omega arith) in
    (
      r,
      returned,
      elim (Bool-cases (holds (highlight_start ++ highlight_end) fragment)) [
        | inl pair ↦ inr pair
        | inr clean ↦ inl (renders clean ∙ unfold render in refl)
      ],
    )
