-- ===== src/Errors/Checks.antt =====
-- What an early return that was not taken found.
use abyss_backend.Common.{Bool, true, false, String, ◌≡◌, ◌↔◌, refl, Result, ok, ◌>>◌}
use abyss_backend.Errors.{AppError, reject_if}

pub reject_if-ok {ℓ} :
    {A : Type ℓ} (b : Bool) (message : String) (r : Result AppError A) {a : A}
    → (reject_if b message >> r) ≡ ok a
    → (b ≡ false) × (r ≡ ok a)
reject_if-ok false message r h = (refl, h)
reject_if-ok true message r h = absurd (cc)

-- A chain that starts with an early return gives a value exactly if that return is not taken.
pub reject_if_iff {ℓ} :
    {A : Type ℓ} (b : Bool) (message : String) (r : Result AppError A) (a : A)
    → ((reject_if b message >> r) ≡ ok a) ↔ ((b ≡ false) × (r ≡ ok a))
reject_if_iff false message r a = ((λ h. (refl, h)), (λ h. h.1))
reject_if_iff true message r a = ((λ h. absurd (cc)), (λ h. absurd (cc)))
