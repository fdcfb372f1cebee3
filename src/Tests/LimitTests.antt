-- ===== src/Tests/LimitTests.antt =====
-- A limiter of two attempts in ten units.
use kung_fu_chess.Prelude.{string_eq, ℕ, ◌*◌, ◌≤◌, ◌≡◌, refl, List, [], ◌∷◌, true, false, arith}
use kung_fu_chess.Server.Audience.{Name}
use kung_fu_chess.Server.RateLimiter.{
  new_limiter, allow_all, allow, spend, count_call, evict_expired, charge, put,
}
use kung_fu_chess.Server.RateLimiter.Sweeping.{spend_all, allow_all-spend_all}
use kung_fu_chess.Server.RateLimiter.Budget.{count_allowed, calls_of, budget_lem}

abbrev guest : Name
guest = 71 ∷ []

abbrev host : Name
host = 72 ∷ []

-- The last call before the end of a window, and the first ones after it.
abbrev bursts : List ℕ
bursts = 8 ∷ 9 ∷ 9 ∷ 10 ∷ 11 ∷ 12 ∷ []

bursts_run :
    allow_all (calls_of guest bursts) (new_limiter 2 10)
    ≡ true ∷ true ∷ false ∷ true ∷ true ∷ false ∷ []
unfolding allow_all allow spend count_call evict_expired charge put string_eq new_limiter
bursts_run = refl

allow_all-spend_all_example :
    allow_all ((guest, 1) ∷ (host, 2) ∷ (guest, 40) ∷ []) (new_limiter 2 10)
    ≡ spend_all ((guest, 1) ∷ (host, 2) ∷ (guest, 40) ∷ []) (new_limiter 2 10)
allow_all-spend_all_example =
    allow_all-spend_all ((guest, 1) ∷ (host, 2) ∷ (guest, 40) ∷ []) 0 (new_limiter 2 10)
      (omega arith, (omega arith, (omega arith, tt)))

budget_lem_example :
    count_allowed (allow_all (calls_of guest bursts) (new_limiter 2 10))
    ≤ 2 * (new_limiter 2 10).max_attempts
unfolding new_limiter
budget_lem_example = budget_lem guest bursts 8 18 (new_limiter 2 10) (ground arith) (omega arith)
