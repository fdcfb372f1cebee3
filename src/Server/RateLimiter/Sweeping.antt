-- ===== src/Server/RateLimiter/Sweeping.antt =====
-- The sweep of a RateLimiter only reclaims memory: against a limiter that never sweeps.
use kung_fu_chess.Prelude.{
  string_eq, ℕ, ◌+◌, ◌≤◌, ◌≡◌, refl, sym, subst, ap, ◌∙◌, ◌⊎◌, inl, inr, Bool, true, leb,
  Bool-cases, Option, none, some, List, [], ◌∷◌, arith,
}
use kung_fu_chess.Server.Audience.{Name}
use kung_fu_chess.Server.RateLimiter.Defs.{
  Bucket, RateLimiter, is_expired, keep_live, evict_expired, count_call, bucket_or_new, charge, put,
  spend, allow, allow_all, sweep_every_n_calls,
}

-- The answers of a limiter that never sweeps.
abbrev pub spend_all : List (Name × ℕ) → RateLimiter → List Bool
spend_all [] l = []
spend_all ((key, now) ∷ cs) l = let (answer, after) = spend key now l in answer ∷ spend_all cs after

-- The clock does not go back.
abbrev pub Rising : ℕ → List (Name × ℕ) → Type 0
Rising now [] = Unit
Rising now ((_, at) ∷ cs) = (now ≤ at) × Rising at cs

-- Two buckets that answer every later call alike: equal, or both expired.
abbrev Alike : ℕ → ℕ → Bucket → Bucket → Type 0
Alike span now b c = (b ≡ c) ⊎ (is_expired span now b ≡ true) × (is_expired span now c ≡ true)

abbrev Agrees : ℕ → RateLimiter → RateLimiter → Type 0
Agrees now l p =
    (l.window ≡ p.window)
    × (l.max_attempts ≡ p.max_attempts)
    × ((k : Name) → Alike p.window now (bucket_or_new (l.buckets k)) (bucket_or_new (p.buckets k)))

Alike-later : (span now at : ℕ) (b c : Bucket) → now ≤ at → Alike span now b c → Alike span at b c
Alike-later span now at b c h (inl e) = inl e
Alike-later span now at b c h (inr (x, y)) = inr (ground arith, ground arith)

expired-Alike :
    (span now : ℕ) (b c : Bucket)
    → Alike span now b c
    → is_expired span now b ≡ true
    → is_expired span now c ≡ true
expired-Alike span now b c (inl e) h = subst (λ d. is_expired span now d ≡ true) e h
expired-Alike span now b c (inr (_, k)) h = k

keep_live-Alike :
    (span now : ℕ) (o : Option Bucket) (c : Bucket)
    → Alike span now (bucket_or_new o) c
    → Alike span now (bucket_or_new (keep_live span now o)) c
keep_live-Alike span now none c a = a
keep_live-Alike span now (some b) c a = elim (Bool-cases (is_expired span now b)) [
  | inl old ↦ rw old (inr (ground arith, expired-Alike span now b c a old))
  | inr live ↦ rw live a
]

count_call-Agrees : (now : ℕ) (l p : RateLimiter) → Agrees now l p → Agrees now (count_call now l) p
unfolding count_call evict_expired
count_call-Agrees now l p (w, m, a) =
    elim (Bool-cases (leb sweep_every_n_calls (l.calls_since_sweep + 1))) [
      | inl due ↦ simp due (
        w,
        m,
        λ k.
            subst
              (λ s.
                Alike p.window now (bucket_or_new (keep_live s now (l.buckets k)))
                  (bucket_or_new (p.buckets k)))
              (sym w)
              (keep_live-Alike p.window now (l.buckets k) (bucket_or_new (p.buckets k)) (a k)),
      )
      | inr early ↦ simp early (w, m, a)
    ]

charge-Alike :
    (span now : ℕ) (b c : Bucket) → Alike span now b c → charge span now b ≡ charge span now c
unfolding charge
charge-Alike span now b c (inl e) = ap (λ d. charge span now d) e
charge-Alike span now b c (inr (x, y)) = rw (x, y) refl

spend-Agrees :
    (key : Name) (now : ℕ) (l p : RateLimiter)
    → Agrees now l p
    → ((spend key now l).0 ≡ (spend key now p).0)
      × Agrees now (spend key now l).1 (spend key now p).1
unfolding spend put
spend-Agrees key now l p (w, m, a) =
    let same : charge l.window now (bucket_or_new (l.buckets key))
        ≡ charge p.window now (bucket_or_new (p.buckets key)) =
      ap (λ s. charge s now (bucket_or_new (l.buckets key))) w
      ∙ charge-Alike p.window now (bucket_or_new (l.buckets key)) (bucket_or_new (p.buckets key))
          (a key) in
    (
      rw (same, m) refl,
      (
        w,
        m,
        λ k. elim (Bool-cases (string_eq key k)) [
          | inl here ↦ rw here (inl same)
          | inr there ↦ rw there (a k)
        ],
      ),
    )

allow_all-Agrees :
    (cs : List (Name × ℕ)) (now : ℕ) (l p : RateLimiter)
    → Rising now cs
    → Agrees now l p
    → allow_all cs l ≡ spend_all cs p
unfolding allow_all allow
allow_all-Agrees [] now l p r a = refl
allow_all-Agrees ((key, at) ∷ cs) now l p r (w, m, a) =
    let counted = count_call-Agrees at l p (w, m, λ k. Alike-later p.window now at _ _ r.0 (a k)) in
    let (same, next) = spend-Agrees key at (count_call at l) p counted in
    rw (same, allow_all-Agrees cs at (spend key at (count_call at l)).1 (spend key at p).1 r.1 next)
      refl

-- While the clock does not go back, a limiter answers every sequence of calls, of any keys and
-- however long, as one that never sweeps: an evicted bucket would have been reset by its next call.
pub allow_all-spend_all :
    (cs : List (Name × ℕ)) (now : ℕ) (l : RateLimiter)
    → Rising now cs
    → allow_all cs l ≡ spend_all cs l
allow_all-spend_all cs now l r = allow_all-Agrees cs now l l r (refl, refl, λ k. inl refl)
