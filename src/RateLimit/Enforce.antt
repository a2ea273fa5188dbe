-- ===== src/RateLimit/Enforce.antt =====
-- The limits of api/src/services/rateLimit.ts that routes enforce.
--
-- An attempt is refused with a status and a message, or none. The address, the lower-cased email
-- and the time are arguments. Each call of `consumeRateLimit` has its own reply from Redis.
use Prim.Native.String.{String, ◌++◌}
use critical_path_api.Prelude.{
  ℕ, ◌*◌, Bool, not, ◌||◌, List, [], ◌∷◌, Option, none, some, if◌then◌else◌,
}
use critical_path_api.RateLimit.{
  Limiter, Budget, Reply, window_ms, max_attempts, consume_budgets, consume_rate_limit,
  peek_rate_limit,
}

pub record AppError : Type 0 where
  pub status : ℕ
  pub message : String

abbrev pub hour_ms : ℕ
hour_ms = 60 * 60000

abbrev pub email_window_ms : ℕ
email_window_ms = 15 * 60000

abbrev pub too_many : String → Option AppError
too_many message = some (record { status = 429; message = message })

-- Two limits, each spent whatever the other answers.
abbrev both : Bool → Bool → String → Option AppError
both a b message = if not a || not b then too_many message else none

abbrev unless : Bool → String → Option AppError
unless allowed message = if not allowed then too_many message else none

unfoldable pub enforce_reset_rate_limit :
    Reply → Reply → String → String → ℕ → Limiter → Option AppError × Limiter
enforce_reset_rate_limit reply₁ reply₂ ip email now l =
    let (allowed₁, l₁) = consume_rate_limit reply₁ ("reset-ip:" ++ ip) now 5 hour_ms l in
    let (allowed₂, l₂) = consume_rate_limit reply₂ ("reset-email:" ++ email) now 3 hour_ms l₁ in
    (both allowed₁ allowed₂ "Too many password reset requests, please try again later", l₂)

unfoldable pub enforce_verification_rate_limit :
    Reply → Reply → String → String → ℕ → Limiter → Option AppError × Limiter
enforce_verification_rate_limit reply₁ reply₂ user_id ip now l =
    let (allowed₁, l₁) = consume_rate_limit reply₁ ("verify-user:" ++ user_id) now 3 hour_ms l in
    let (allowed₂, l₂) = consume_rate_limit reply₂ ("verify-ip:" ++ ip) now 10 hour_ms l₁ in
    (both allowed₁ allowed₂ "Too many verification emails, please try again later", l₂)

unfoldable pub enforce_user_search_rate_limit :
    Reply → Reply → String → String → ℕ → Limiter → Option AppError × Limiter
enforce_user_search_rate_limit reply₁ reply₂ user_id ip now l =
    let (allowed₁, l₁) = consume_rate_limit reply₁ ("user-search:" ++ user_id) now 100 hour_ms l in
    let (allowed₂, l₂) = consume_rate_limit reply₂ ("user-search-ip:" ++ ip) now 300 hour_ms l₁ in
    (both allowed₁ allowed₂ "Too many searches, please try again later", l₂)

unfoldable pub enforce_invitation_lookup_rate_limit :
    Reply → String → ℕ → Limiter → Option AppError × Limiter
enforce_invitation_lookup_rate_limit reply user_id now l =
    let (allowed, l') = consume_rate_limit reply ("invite-lookup:" ++ user_id) now 100 hour_ms l in
    (unless allowed "Too many invitations, please try again later", l')

unfoldable pub invite_send_key : String → String
invite_send_key user_id = "invite-send:" ++ user_id

unfoldable pub assert_invitation_send_budget :
    Option (Option ℕ) → String → ℕ → Limiter → Option AppError
unfolding invite_send_key
assert_invitation_send_budget shared user_id now l =
    unless (peek_rate_limit shared (invite_send_key user_id) now 20 l)
      "Too many invitations, please try again later"

unfoldable pub enforce_invitation_send_rate_limit :
    Reply → String → ℕ → Limiter → Option AppError × Limiter
unfolding invite_send_key
enforce_invitation_send_rate_limit reply user_id now l =
    let (allowed, l') = consume_rate_limit reply (invite_send_key user_id) now 20 hour_ms l in
    (unless allowed "Too many invitations, please try again later", l')

unfoldable pub enforce_invitation_resend_rate_limit :
    Reply → String → ℕ → Limiter → Option AppError × Limiter
enforce_invitation_resend_rate_limit reply invitation_id now l =
    let (allowed, l') =
      consume_rate_limit reply ("invite-resend:" ++ invitation_id) now 3 hour_ms l in
    (unless allowed "Too many invitations, please try again later", l')

unfoldable pub auth_budgets : String → String → List Budget
auth_budgets address email =
    record { key = "ip:" ++ (address ++ (":" ++ email)); max = max_attempts; window_ms = window_ms }
    ∷ record { key = "email:" ++ email; max = 30; window_ms = email_window_ms }
    ∷ record { key = "auth-ip:" ++ address; max = 300; window_ms = hour_ms }
    ∷ []

unfoldable pub enforce_auth_rate_limit :
    Reply → String → String → ℕ → Limiter → Option AppError × Limiter
unfolding auth_budgets
enforce_auth_rate_limit reply address email now l =
    let (refused_by, l') = consume_budgets reply now (auth_budgets address email) l in
    (
      elim refused_by [
        | none ↦ none
        | some _ ↦ too_many "Too many attempts, please try again later"
      ],
      l',
    )

unfoldable pub enforce_signup_rate_limit : Reply → String → ℕ → Limiter → Option AppError × Limiter
enforce_signup_rate_limit reply ip now l =
    let (allowed, l') = consume_rate_limit reply ("signup-ip:" ++ ip) now 50 hour_ms l in
    (unless allowed "Too many accounts created, please try again later", l')

unfoldable pub enforce_link_attachment_rate_limit :
    Reply → String → ℕ → Limiter → Option AppError × Limiter
enforce_link_attachment_rate_limit reply user_id now l =
    let (allowed, l') = consume_rate_limit reply ("link-attach:" ++ user_id) now 60 hour_ms l in
    (unless allowed "Too many links, please try again later", l')
