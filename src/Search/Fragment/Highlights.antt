-- ===== src/Search/Fragment/Highlights.antt =====
-- The highlights that `fragment` of fragment.rs shows, and the window.
use abyss_backend.Common.{
  ℕ, ◌≤◌, min, max, ◌&&◌, List, [], ◌∷◌, ◌++◌, inl, inr, ltb, arith, Bool-cases,
}
use abyss_backend.Search.Pattern.{Range, endpoints}
use abyss_backend.Search.Pattern.Offsets.{Rising, Ascending}
use abyss_backend.Search.Fragment.{visible}

-- Sorted ranges without overlap between `from` and `to`.
abbrev pub Within : ℕ → ℕ → List Range → Type 0
Within from to [] = from ≤ to
Within from to ((start, end) ∷ ranges) = (from ≤ start) × (start ≤ end) × Within end to ranges

pub Within-le : (from to : ℕ) (ranges : List Range) → Within from to ranges → from ≤ to
Within-le from to [] h = h
Within-le from to ((start, end) ∷ ranges) h = omega (arith, h.0, h.1, Within-le end to ranges h.2)

pub Within-Rising :
    (from to : ℕ) (ranges : List Range)
    → Within from to ranges
    → Rising from (endpoints ranges ++ to ∷ [])
Within-Rising from to [] h = (h, tt)
Within-Rising from to ((start, end) ∷ ranges) h = (h.0, (h.1, Within-Rising end to ranges h.2))

visible-Within_from :
    (from to before cursor : ℕ) (ranges : List Range)
    → from ≤ to
    → Ascending before ranges
    → cursor ≤ max before from
    → cursor ≤ to
    → from ≤ cursor
    → Within cursor to (visible (from, to) ranges)
unfolding visible
visible-Within_from from to before cursor [] o a h k l = k
visible-Within_from from to before cursor ((start, end) ∷ ranges) o a h k l =
    elim (Bool-cases (ltb start to && ltb from end)) [
      | inl p ↦ rw p (
        omega (arith, a.0, h),
        ground (arith, a.1, p),
        visible-Within_from from to end (min end to) ranges o a.2 (omega arith) (omega arith)
            (ground (arith, p, o)),
      )
      | inr q ↦
          rw q
            (visible-Within_from from to end cursor ranges o a.2 (omega (arith, h, a.0, a.1)) k l)
    ]

pub visible-Within :
    (from to : ℕ) (ranges : List Range)
    → from ≤ to
    → Ascending 0 ranges
    → Within from to (visible (from, to) ranges)
visible-Within from to ranges o a =
    visible-Within_from from to 0 from ranges o a (omega arith) o (omega arith)
