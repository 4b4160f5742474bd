-- ===== src/Errors/Responses.antt =====
-- What a client reads of an error.
use abyss_backend.Common.{◌≤◌, ◌<◌, ◌≡◌, refl, ◌⊎◌, inl, inr, arith}
use abyss_backend.Errors.{
  AppError, config, database, pool, not_found, unauthorized, unavailable, validation, internal,
  to_string, generic_message, into_response,
}

-- The response of an error either has the status 500, and its body is the generic message whatever
-- the error says, or it has another status from 400 to 503 and its body is what the error displays.
pub into_response-generic_message :
    (error : AppError)
    → (((into_response error).0 ≡ 500) × ((into_response error).1 ≡ generic_message))
      ⊎ (((into_response error).1 ≡ to_string error)
          × (400 ≤ (into_response error).0)
          × ((into_response error).0 < 504)
          × ((into_response error).0 ≡ 500 → ⊥))
unfolding into_response
into_response-generic_message (config _) = inl (refl, refl)
into_response-generic_message (database _) = inl (refl, refl)
into_response-generic_message (pool _) = inl (refl, refl)
into_response-generic_message (internal _) = inl (refl, refl)
into_response-generic_message (not_found _) =
    inr (refl, omega arith, omega arith, (λ h. omega arith))
into_response-generic_message (unauthorized _) =
    inr (refl, omega arith, omega arith, (λ h. omega arith))
into_response-generic_message (unavailable _) =
    inr (refl, omega arith, omega arith, (λ h. omega arith))
into_response-generic_message (validation _) =
    inr (refl, omega arith, omega arith, (λ h. omega arith))
