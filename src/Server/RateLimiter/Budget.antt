-- ===== src/Server/RateLimiter/Budget.antt =====
-- How many calls of one key a RateLimiter lets through in any stretch as long as its window.
use kung_fu_chess.Prelude.{
  string_eq_self, ℕ, ◌+◌, ◌-◌, ◌*◌, ◌≤◌, ◌<◌, ◌≡◌, refl, ap, ◌∙◌, inl, inr, Bool, true, false, leb,
  Bool-cases, List, [], ◌∷◌, arith,
}
use kung_fu_chess.Server.Audience.{Name}
use kung_fu_chess.Server.RateLimiter.Defs.{
  Bucket, RateLimiter, is_expired, bucket_or_new, charge, put, spend, allow_all,
}
use kung_fu_chess.Server.RateLimiter.Sweeping.{spend_all, Rising, allow_all-spend_all}

-- How many of the answers are yes.
abbrev pub count_allowed : List Bool → ℕ
count_allowed [] = 0
count_allowed (true ∷ answers) = 1 + count_allowed answers
count_allowed (false ∷ answers) = count_allowed answers

abbrev pub calls_of : Name → List ℕ → List (Name × ℕ)
calls_of key [] = []
calls_of key (t ∷ ts) = (key, t) ∷ calls_of key ts

-- Times that do not fall, from `lo` on and before `hi`.
abbrev pub Between : ℕ → ℕ → List ℕ → Type 0
Between lo hi [] = Unit
Between lo hi (t ∷ ts) = (lo ≤ t) × (t < hi) × Between t hi ts

Between-Rising :
    (key : Name) (lo hi : ℕ) (ts : List ℕ) → Between lo hi ts → Rising lo (calls_of key ts)
Between-Rising key lo hi [] b = tt
Between-Rising key lo hi (t ∷ ts) (x, y, b) = (x, Between-Rising key t hi ts b)

-- The answers to one key depend on its bucket alone.
abbrev answers : ℕ → ℕ → List ℕ → Bucket → List Bool
answers cap span [] b = []
answers cap span (t ∷ ts) b =
    leb (charge span t b).count cap ∷ answers cap span ts (charge span t b)

spend_all-answers :
    (key : Name) (ts : List ℕ) (l : RateLimiter)
    → spend_all (calls_of key ts) l
      ≡ answers l.max_attempts l.window ts (bucket_or_new (l.buckets key))
unfolding spend put
spend_all-answers key [] l = refl
spend_all-answers key (t ∷ ts) l =
    let next = spend_all-answers key ts (spend key t l).1 in
    ap (λ rest. leb (charge l.window t (bucket_or_new (l.buckets key))).count l.max_attempts ∷ rest)
      (rw (string_eq_self key) at next)

module _ (cap span hi : ℕ) where
  -- No reset is left.
  rest_of_window :
      (ts : List ℕ) (lo : ℕ) (b : Bucket)
      → Between lo hi ts
      → hi ≤ b.window_start + span
      → count_allowed (answers cap span ts b) ≤ cap - b.count
  unfolding charge
  rest_of_window [] lo b h w = omega arith
  rest_of_window (t ∷ ts) lo b (x, y, h) w =
      let live : is_expired span t b ≡ false = ground arith in
      let next = rest_of_window ts t (record b { count = b.count + 1 }) h w in
      rw live (ground (arith, next))

  two_windows :
      (ts : List ℕ) (lo : ℕ) (b : Bucket)
      → Between lo hi ts
      → hi ≤ lo + span
      → count_allowed (answers cap span ts b) ≤ (cap - b.count) + cap
  unfolding charge
  two_windows [] lo b h w = omega arith
  two_windows (t ∷ ts) lo b (x, y, h) w = elim (Bool-cases (is_expired span t b)) [
    | inl old ↦
        let next =
          rest_of_window ts t (record { count = 1; window_start = t }) h (omega (arith, x, w)) in
        rw old (ground (arith, next))
    | inr live ↦
        let next = two_windows ts t (record b { count = b.count + 1 }) h (omega (arith, x, w)) in
        rw live (ground (arith, next))
  ]

-- Calls of one key, at times that do not fall within a stretch no longer than the window: at most
-- twice the allowed attempts are let through, whatever the bucket of the key was before.
pub budget_lem :
    (key : Name) (ts : List ℕ) (lo hi : ℕ) (l : RateLimiter)
    → Between lo hi ts
    → hi ≤ lo + l.window
    → count_allowed (allow_all (calls_of key ts) l) ≤ 2 * l.max_attempts
budget_lem key ts lo hi l b w =
    let bound = two_windows l.max_attempts l.window hi ts lo (bucket_or_new (l.buckets key)) b w in
    rw
      (allow_all-spend_all (calls_of key ts) lo l (Between-Rising key lo hi ts b)
        ∙ spend_all-answers key ts l)
      (omega (arith, bound))
