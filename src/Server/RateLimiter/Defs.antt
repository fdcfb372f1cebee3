-- ===== src/Server/RateLimiter/Defs.antt =====
-- rate_limiter.cpp: a budget of calls for each key and window. The unordered map is a function from
-- keys; times and the window are of one unit of the steady clock, whose epoch is 0.
use kung_fu_chess.Prelude.{
  string_eq, ℕ, ◌+◌, Bool, leb, if◌then◌else◌, Option, none, some, List, [], ◌∷◌,
}
use kung_fu_chess.Server.Audience.{Name}

pub record Bucket : Type 0 where
  pub count : ℕ
  pub window_start : ℕ

abbrev pub Buckets : Type 0
Buckets = Name → Option Bucket

pub record RateLimiter : Type 0 where
  pub max_attempts : ℕ
  pub window : ℕ
  pub buckets : Buckets
  pub calls_since_sweep : ℕ

unfoldable pub new_limiter : ℕ → ℕ → RateLimiter
new_limiter attempts span = record {
  max_attempts = attempts;
  window = span;
  buckets = λ key. none;
  calls_since_sweep = 0;
}

abbrev pub sweep_every_n_calls : ℕ
sweep_every_n_calls = 1000

-- now - window_start >= window.
abbrev pub is_expired : ℕ → ℕ → Bucket → Bool
is_expired span now b = leb (b.window_start + span) now

abbrev pub keep_live : ℕ → ℕ → Option Bucket → Option Bucket
keep_live span now none = none
keep_live span now (some b) = if is_expired span now b then none else some b

unfoldable pub evict_expired : ℕ → RateLimiter → RateLimiter
evict_expired now l = record l { buckets = λ key. keep_live l.window now (l.buckets key) }

unfoldable pub count_call : ℕ → RateLimiter → RateLimiter
unfolding evict_expired
count_call now l =
    if leb sweep_every_n_calls (l.calls_since_sweep + 1)
    then evict_expired now (record l { calls_since_sweep = 0 })
    else record l { calls_since_sweep = l.calls_since_sweep + 1 }

-- A key that is not there is given a bucket of count 0 at the epoch.
abbrev pub bucket_or_new : Option Bucket → Bucket
bucket_or_new none = record { count = 0; window_start = 0 }
bucket_or_new (some b) = b

unfoldable pub charge : ℕ → ℕ → Bucket → Bucket
charge span now b =
    if is_expired span now b
    then record { count = 1; window_start = now }
    else record b { count = b.count + 1 }

unfoldable pub put : Name → Bucket → Buckets → Buckets
unfolding string_eq
put key b bs = λ k. if string_eq key k then some b else bs k

unfoldable pub spend : Name → ℕ → RateLimiter → Bool × RateLimiter
unfolding charge put
spend key now l =
    let b = charge l.window now (bucket_or_new (l.buckets key)) in
    (leb b.count l.max_attempts, record l { buckets = put key b l.buckets })

unfoldable pub allow : Name → ℕ → RateLimiter → Bool × RateLimiter
unfolding count_call spend
allow key now l = spend key now (count_call now l)

unfoldable pub allow_all : List (Name × ℕ) → RateLimiter → List Bool
unfolding allow
allow_all [] l = []
allow_all ((key, now) ∷ cs) l = let (answer, after) = allow key now l in answer ∷ allow_all cs after
