-- ===== src/RateLimit/Atomic.antt =====
-- Budgets are spent together or not at all, and no key is spent beyond its maximum.
use Prim.Native.String.{String}
use critical_path_api.Prelude.{
  ℕ, zero, suc, ◌+◌, ◌-◌, ◌≤◌, ◌<◌, ◌≡◌, refl, ◌⊎◌, inl, inr, List, [], ◌∷◌, foldl, map, none, some,
  arith, string_eq, leb, get_elem?, count, Unique, Bool-cases,
}
use critical_path_api.RateLimit.{
  Limiter, Budget, unconfigured, sweep, spent, first_full, spend, refund, consume_budgets_local,
  refused_budget, consume_budgets, refund_budgets,
}
use critical_path_api.RateLimit.Spend.{spent-sweep, spend-Unique, spent-spend, spent-refund}

abbrev pub keys : List Budget → List String
keys = map (λ b. b.key)

-- Every budget has room.
abbrev pub HasRoom : ℕ → Limiter → List Budget → Type 0
HasRoom now l [] = Unit {0}
HasRoom now l (b ∷ bs) = (spent now l b.key < b.max) × HasRoom now l bs

-- The code gives no budget an empty window.
abbrev pub HasSpan : List Budget → Type 0
HasSpan [] = Unit {0}
HasSpan (b ∷ bs) = (0 < b.window_ms) × HasSpan bs

-- The budget at an index is full, and those before it have room.
abbrev pub FirstFull : ℕ → Limiter → List Budget → ℕ → Type 0
FirstFull now l [] n = ⊥
FirstFull now l (b ∷ bs) zero = b.max ≤ spent now l b.key
FirstFull now l (b ∷ bs) (suc n) = (spent now l b.key < b.max) × FirstFull now l bs n

pub first_full_cases :
    (now : ℕ) (l : Limiter) (bs : List Budget) (i : ℕ)
    → ((first_full now l bs i ≡ 0) × HasRoom now l bs)
      ⊎ ((n : ℕ) × (first_full now l bs i ≡ i + n + 1) × FirstFull now l bs n)
unfolding first_full
first_full_cases now l [] i = inl (refl, tt)
first_full_cases now l (b ∷ bs) i = elim (Bool-cases (leb b.max (spent now l b.key))) [
  | inl full ↦ inr (0, rw (full, first_full) (omega arith), ground arith)
  | inr free ↦ elim (first_full_cases now l bs (i + 1)) [
    | inl (e, room) ↦ inl (rw (free, first_full) e, (ground arith, room))
    | inr (n, e, f) ↦ inr (suc n, rw (free, first_full) (omega (arith, e)), (ground arith, f))
  ]
]

spent-spends :
    (now : ℕ) (l : Limiter) (bs : List Budget) (k : String)
    → HasSpan bs
    → spent now (foldl (spend now) l bs) k ≡ spent now l k + count (keys bs) k
unfolding count
spent-spends now l [] k h = omega arith
spent-spends now l (b ∷ bs) k h =
    ground (arith, spent-spends now (spend now l b) bs k h.1, spent-spend now l b k h.0)

pub spends-Unique :
    (now : ℕ) (l : Limiter) (bs : List Budget)
    → Unique l.windows
    → Unique (foldl (spend now) l bs).windows
spends-Unique now l [] u = u
spends-Unique now l (b ∷ bs) u = spends-Unique now (spend now l b) bs (spend-Unique now l b u)

-- What an attempt does: every budget had room and each is spent once for each time that it is
-- named, or the first full one is named and nothing is spent.
pub record Admits (now : ℕ) (bs : List Budget) (l l' : Limiter) : Type 0 where
  pub room : HasRoom now l bs
  pub taken : (k : String) → spent now l' k ≡ spent now l k + count (keys bs) k

pub record Refuses (now : ℕ) (bs : List Budget) (l l' : Limiter) (n : ℕ) : Type 0 where
  pub full : FirstFull now l bs n
  pub kept : (t : ℕ) (k : String) → now ≤ t → spent t l' k ≡ spent t l k

HasRoom-sweep :
    (now : ℕ) (l : Limiter) (bs : List Budget)
    → Unique l.windows
    → HasRoom now (sweep now l) bs
    → HasRoom now l bs
HasRoom-sweep now l [] u h = tt
HasRoom-sweep now l (b ∷ bs) u h =
    ground (arith, HasRoom-sweep now l bs u h.1, spent-sweep now now l b.key, u)

FirstFull-sweep :
    (now : ℕ) (l : Limiter) (bs : List Budget) (n : ℕ)
    → Unique l.windows
    → FirstFull now (sweep now l) bs n
    → FirstFull now l bs n
FirstFull-sweep now l [] n u h = h
FirstFull-sweep now l (b ∷ bs) zero u h = ground (arith, spent-sweep now now l b.key, u)
FirstFull-sweep now l (b ∷ bs) (suc n) u h =
    ground (arith, FirstFull-sweep now l bs n u h.1, spent-sweep now now l b.key, u)

FirstFull-get :
    (now : ℕ) (l : Limiter) (bs : List Budget) (n : ℕ)
    → FirstFull now l bs n
    → (b : Budget) × (get_elem? bs n ≡ some b)
FirstFull-get now l [] n h = absurd h
FirstFull-get now l (b ∷ bs) zero h = (b, refl)
FirstFull-get now l (b ∷ bs) (suc n) h = FirstFull-get now l bs n h.1

pub local_admit :
    (now : ℕ) (bs : List Budget) (l : Limiter)
    → first_full now (sweep now l) bs 0 ≡ 0
    → consume_budgets_local now bs l ≡ (0, foldl (spend now) (sweep now l) bs)
unfolding consume_budgets_local
local_admit now bs l e = rw e

pub local_refuse :
    (now : ℕ) (bs : List Budget) (l : Limiter) (n : ℕ)
    → first_full now (sweep now l) bs 0 ≡ 0 + n + 1
    → consume_budgets_local now bs l ≡ (suc n, sweep now l)
unfolding consume_budgets_local
local_refuse now bs l n e =
    let e' : first_full now (sweep now l) bs 0 ≡ suc n = omega (arith, e) in rw e' (ground arith)

refused_budget-suc :
    (n : ℕ) (bs : List Budget) (b : Budget)
    → get_elem? bs n ≡ some b
    → refused_budget (suc n) bs ≡ some b
refused_budget-suc n bs b at = let m : suc n - 1 ≡ n = omega arith in rw m (ground arith)

-- Without a shared verdict, where no key has two windows and no budget an empty one, an attempt at a
-- set of budgets is answered with `null` after spending each of them, when all have room, and else
-- with the first full one, after spending none.
pub consume_budgets-all_or_nothing :
    (now : ℕ) (bs : List Budget) (l : Limiter)
    → Unique l.windows
    → HasSpan bs
    → let (refused, l') = consume_budgets unconfigured now bs l in
      ((refused ≡ none) × Admits now bs l l')
      ⊎ ((n : ℕ) × (b : Budget) × (get_elem? bs n ≡ some b)
          × (refused ≡ some b)
          × Refuses now bs l l' n)
unfolding consume_budgets
consume_budgets-all_or_nothing now bs l u span = elim (first_full_cases now (sweep now l) bs 0) [
  | inl (e, room) ↦ rw (local_admit now bs l e) (
      inl (
        refl,
        record {
          room = HasRoom-sweep now l bs u room;
          taken = λ k. omega (
            arith,
            spent-spends now (sweep now l) bs k span,
            spent-sweep now now l k (omega arith) u,
          );
        },
      ))
  | inr (n, e, full) ↦
      let (b, at) = FirstFull-get now (sweep now l) bs n full in
      rw (local_refuse now bs l n e) (
        inr (
          n,
          b,
          at,
          refused_budget-suc n bs b at,
          record {
            full = FirstFull-sweep now l bs n u full;
            kept = λ t k le. spent-sweep now t l k le u;
          },
        ))
]

refunds :
    (now : ℕ) (l : Limiter) (bs : List Budget) (k : String)
    → spent now (foldl (refund now) l bs) k ≡ spent now l k - count (keys bs) k
unfolding count
refunds now l [] k = omega arith
refunds now l (b ∷ bs) k = ground (arith, refunds now (refund now l b) bs k, spent-refund now l b k)

-- Without a shared verdict, where no key has two windows and no budget an empty one, to refund the
-- budgets of an attempt that was admitted, at the same time, gives every key back what it had
-- spent.
pub refund_budgets-consume_budgets :
    (now : ℕ) (bs : List Budget) (l : Limiter) (k : String)
    → Unique l.windows
    → HasSpan bs
    → (consume_budgets unconfigured now bs l).0 ≡ none
    → spent now (refund_budgets unconfigured now bs (consume_budgets unconfigured now bs l).1) k
      ≡ spent now l k
unfolding refund_budgets
refund_budgets-consume_budgets now bs l k u span ok =
    elim (consume_budgets-all_or_nothing now bs l u span) [
      | inl (_, a) ↦
          omega (arith, a.taken k, refunds now (consume_budgets unconfigured now bs l).1 bs k)
      | inr (n, b, _, e, _) ↦ cc
    ]
