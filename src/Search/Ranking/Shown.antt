-- ===== src/Search/Ranking/Shown.antt =====
-- What `rank_session` of ranking.rs shows of a session.
use mathlib.Core.List.{Perm}
use mathlib.Core.List.Perm
use abyss_backend.Common.{ℕ, Bool, List, length, keep}

module _ {ℓ} {A : Type ℓ} (p : A → Bool) where
  abbrev count_of : List A → ℕ
  count_of xs = length (keep p xs)
