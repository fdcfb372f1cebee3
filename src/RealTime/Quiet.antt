-- ===== src/RealTime/Quiet.antt =====
-- Steps of `advance_time` in which motions do not arrive.
use kung_fu_chess.Prelude.{
  ℕ, ◌+◌, ◌<◌, ◌≡◌, refl, none, List, [], ◌∷◌, All, false, Bool-cases, inl, inr, arith, Result, ok,
  err, ◌>>=◌,
}
use kung_fu_chess.RealTime.Factory.{Motion}
use kung_fu_chess.RealTime.Arbiter.{
  Cooldowns, age_cooldowns, is_due, pending_arrivals, still_active, find_motion, drop_moves_of,
  contains_id,
}

-- None of the motions is over after `ms` more.
abbrev pub IsQuiet : ℕ → List Motion → Type 0
IsQuiet ms = All (λ m. m.elapsed_ms + ms < m.duration_ms)

pub pending_arrivals-IsQuiet :
    (ms : ℕ) (l : List Motion) → IsQuiet ms l → pending_arrivals ms l ≡ []
unfolding pending_arrivals
pending_arrivals-IsQuiet ms [] h = refl
pending_arrivals-IsQuiet ms (m ∷ l) h =
    let rest = pending_arrivals-IsQuiet ms l h.1 in
    let later : is_due ms m ≡ false = ground (arith, h.0) in rw later rest

-- A piece that is in no flight is in none later.
pub find_motion-still_active :
    (id ms : ℕ) (l : List Motion)
    → find_motion id l ≡ none
    → find_motion id (still_active ms l) ≡ none
unfolding find_motion still_active
find_motion-still_active id ms [] h = refl
find_motion-still_active id ms (m ∷ l) h =
    let rest = find_motion-still_active id ms l in
    elim (Bool-cases (is_due ms m)) [
      | inl e ↦ rw e (ground (arith, h, rest))
      | inr e ↦ rw e (ground (arith, h, rest))
    ]

pub drop_moves_of-nothing : (l : List Motion) → drop_moves_of [] l ≡ l
unfolding drop_moves_of contains_id
drop_moves_of-nothing [] = refl
drop_moves_of-nothing (m ∷ l) = rw (drop_moves_of-nothing l) refl

-- Cooldowns that age by `a` and then by `b` have aged by `a + b`.
pub age_cooldowns-add :
    (a b : ℕ) (l : Cooldowns) → age_cooldowns b (age_cooldowns a l) ≡ age_cooldowns (a + b) l
unfolding age_cooldowns
age_cooldowns-add a b [] = refl
age_cooldowns-add a b ((i, t) ∷ l) = ground (arith, age_cooldowns-add a b l)

-- What is in flight after `a` and then `b` is what is in flight after `a + b`.
pub still_active-add :
    (a b : ℕ) (l : List Motion) → still_active b (still_active a l) ≡ still_active (a + b) l
unfolding still_active
still_active-add a b [] = refl
still_active-add a b (m ∷ l) = ground (arith, still_active-add a b l)

-- The same continuation of whatever there is to continue.
pub >>=-same :
    {A B : Type 0} (o : Result A) (f g : A → Result B)
    → ((a : A) → f a ≡ g a)
    → (o >>= f) ≡ (o >>= g)
>>=-same (ok a) f g h = h a
>>=-same (err e) f g h = refl
