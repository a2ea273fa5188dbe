-- ===== src/RateLimit/Limits.antt =====
-- What the enforced limits spend, and that the look-ahead of a budget agrees with spending it.
use Prim.Native.String.{String, ◌++◌}
use critical_path_api.Prelude.{
  ℕ, zero, suc, ◌∙◌, lt→ltb, ◌≤◌, ◌+◌, ◌≡◌, ◌<◌, ◌⊎◌, inl, inr, false, Option-cases, [], ◌∷◌, none,
  arith, string_eq, ltb, lookup, count, Unique,
}
use critical_path_api.RateLimit.{
  Limiter, Budget, unconfigured, spent, consume_rate_limit, peek_rate_limit,
}
use critical_path_api.RateLimit.Atomic.{FirstFull, consume_budgets-all_or_nothing}
use critical_path_api.RateLimit.Enforce.{too_many, auth_budgets, enforce_auth_rate_limit}

-- The first full one of the budgets is one of the three.
full_of_auth :
    (address email : String) (now n : ℕ) (l : Limiter)
    → FirstFull now l (auth_budgets address email) n
    → (10 ≤ spent now l ("ip:" ++ (address ++ (":" ++ email))))
      ⊎ ((30 ≤ spent now l ("email:" ++ email)) ⊎ (300 ≤ spent now l ("auth-ip:" ++ address)))
unfolding auth_budgets
full_of_auth address email now zero l h = inl h
full_of_auth address email now (suc zero) l h = inr (inl h.1)
full_of_auth address email now (suc (suc zero)) l h = inr (inr h.1.1)
full_of_auth address email now (suc (suc (suc n))) l h = absurd h.1.1.1

-- Without a shared verdict, where no key has two windows, a sign-in attempt that is let through
-- found fewer than 10 attempts by the address for the account, fewer than 30 for the account and
-- fewer than 300 by the address, and is counted under each of the three keys and under no other;
-- one that is refused gets status 429, found one of the three full, and changes at no later time
-- what a key has spent.
pub enforce_auth_rate_limit-atomic :
    (address email : String) (now : ℕ) (l : Limiter)
    → Unique l.windows
    → let (error, l') = enforce_auth_rate_limit unconfigured address email now l in
      let both = "ip:" ++ (address ++ (":" ++ email)) in
      let account = "email:" ++ email in
      let host = "auth-ip:" ++ address in
      ((error ≡ none)
        × (spent now l both < 10)
        × (spent now l account < 30)
        × (spent now l host < 300)
        × ((k : String) → spent now l' k ≡ spent now l k + count (both ∷ account ∷ host ∷ []) k))
      ⊎ ((error ≡ too_many "Too many attempts, please try again later")
          × ((10 ≤ spent now l both) ⊎ ((30 ≤ spent now l account) ⊎ (300 ≤ spent now l host)))
          × ((t : ℕ) (k : String) → now ≤ t → spent t l' k ≡ spent t l k))
unfolding enforce_auth_rate_limit auth_budgets
enforce_auth_rate_limit-atomic address email now l u =
    elim (consume_budgets-all_or_nothing now (auth_budgets address email) l u (omega arith)) [
      | inl (e, a) ↦
          inl (rw (e, enforce_auth_rate_limit), a.room.0, a.room.1.0, a.room.1.1.0, a.taken)
      | inr (n, b, _, e, r) ↦
          inr (rw (e, enforce_auth_rate_limit), full_of_auth address email now n l r.full, r.kept)
    ]

peek_rate_limit-spent :
    (key : String) (now most : ℕ) (l : Limiter)
    → 0 < most
    → peek_rate_limit none key now most l ≡ ltb (spent now l key) most
unfolding peek_rate_limit spent
peek_rate_limit-spent key now most l pos = elim (Option-cases (lookup key l.windows)) [
  | inl e ↦ rw (e, peek_rate_limit, spent) (ground arith)
  | inr (w, e) ↦ rw (e, peek_rate_limit, spent) (ground arith)
]

first_of_one :
    (now n : ℕ) (l : Limiter) (b : Budget)
    → FirstFull now l (b ∷ []) n
    → ltb (spent now l b.key) b.max ≡ false
first_of_one now zero l b h = ground arith
first_of_one now (suc n) l b h = absurd h.1

-- Without a shared verdict, where no key has two windows and neither the maximum nor the window is 0,
-- the look-ahead says what an attempt at the same time would be answered.
pub peek_rate_limit-consume_rate_limit :
    (key : String) (now most span : ℕ) (l : Limiter)
    → 0 < most
    → 0 < span
    → Unique l.windows
    → peek_rate_limit none key now most l ≡ (consume_rate_limit unconfigured key now most span l).0
unfolding consume_rate_limit
peek_rate_limit-consume_rate_limit key now most span l pos long u =
    let b : Budget = record { key = key; max = most; window_ms = span } in
    elim (consume_budgets-all_or_nothing now (b ∷ []) l u (long, tt)) [
      | inl (e, a) ↦
          rw (e, consume_rate_limit)
            (peek_rate_limit-spent key now most l pos ∙ lt→ltb _ _ a.room.0)
      | inr (n, b', at, e, r) ↦
          rw (e, consume_rate_limit)
            (peek_rate_limit-spent key now most l pos ∙ first_of_one now n l b r.full)
    ]
