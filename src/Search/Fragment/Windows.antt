-- ===== src/Search/Fragment/Windows.antt =====
-- The bounds of `window` in fragment.rs.
use abyss_backend.Common.{ℕ, ◌-◌, ◌/◌, ◌≤◌, min, max, ◌≡◌, arith}
use abyss_backend.Search.Fragment.{fragment_characters, window}

half-le : (n : ℕ) → n / 2 ≤ n
half-le n = omega arith

-- For an occurrence inside the text, the window is inside the text, holds the whole occurrence, and
-- has 240 characters, or the occurrence's length where that is more, unless the text is shorter.
pub window_lem :
    (start end characters : ℕ)
    → start ≤ end
    → end ≤ characters
    → ((window (start, end) characters).0 ≤ start)
      × (end ≤ (window (start, end) characters).1)
      × ((window (start, end) characters).1 ≤ characters)
      × ((window (start, end) characters).1 - (window (start, end) characters).0
          ≡ min characters (max fragment_characters (end - start)))
unfolding window
window_lem start end characters h k = (omega arith, omega arith, omega arith, omega arith)
