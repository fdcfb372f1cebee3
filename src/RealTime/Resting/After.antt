-- ===== src/RealTime/Resting/After.antt =====
-- A step of `advance_time` whose last part brings no arrival: who has landed rests on.
use kung_fu_chess.Prelude.{
  ℕ, ◌+◌, ◌-◌, ◌≤◌, ◌<◌, ◌≡◌, ◌≢◌, refl, ◌⊎◌, List, [], ◌∷◌, Bool, false, true, ltb, leb, ◌==◌,
  Bool-cases, inl, inr, none, All, not, ◌&&◌, if◌then◌else◌, arith,
}
use kung_fu_chess.RealTime.Factory.{Motion, is_jump}
use kung_fu_chess.RealTime.Arbiter.{
  Cooldowns, PendingArrival, is_due, pending_arrivals, still_active, advance_motion, arrival_time,
  insert_pending, sort_pending, rest_after, age_cooldowns, set_cooldown, find_cooldown,
  erase_cooldown, erase_cooldowns, drop_moves_of, contains_id,
}
use kung_fu_chess.RealTime.Quiet.{IsQuiet}

-- No arrival falls between `a` and `a + b`.
abbrev pub IsSettled : ℕ → ℕ → List Motion → Type 0
IsSettled a b =
    All (λ m. (m.duration_ms ≤ m.elapsed_ms + a) ⊎ (m.elapsed_ms + (a + b) < m.duration_ms))

abbrev pub flown : ℕ → PendingArrival → PendingArrival
flown b p = record p { motion = advance_motion b p.motion }

abbrev pub all_flown : ℕ → List PendingArrival → List PendingArrival
all_flown b [] = []
all_flown b (p ∷ ps) = flown b p ∷ all_flown b ps

pub pending_arrivals-flown :
    (a b : ℕ) (l : List Motion)
    → IsSettled a b l
    → pending_arrivals (a + b) l ≡ all_flown b (pending_arrivals a l)
unfolding pending_arrivals
pending_arrivals-flown a b [] h = refl
pending_arrivals-flown a b (m ∷ l) (h, hs) =
    let rest = pending_arrivals-flown a b l hs in
    elim (Bool-cases (is_due a m)) [
      | inl e ↦
          let on_time : is_due (a + b) m ≡ true = ground (arith, e) in
          let instant : arrival_time (a + b) m ≡ arrival_time a m = ground (arith, e) in
          let same : advance_motion (a + b) m ≡ advance_motion b (advance_motion a m) =
            ground arith in
          rw (e, on_time, instant, same, rest) refl
      | inr e ↦
          let not_yet : is_due (a + b) m ≡ false = ground (arith, e, h) in
          rw (e, not_yet, rest) refl
    ]

insert_pending-flown :
    (b : ℕ) (p : PendingArrival) (l : List PendingArrival)
    → insert_pending (flown b p) (all_flown b l) ≡ all_flown b (insert_pending p l)
unfolding insert_pending
insert_pending-flown b p [] = refl
insert_pending-flown b p (q ∷ l) =
    let rest = insert_pending-flown b p l in
    elim (Bool-cases (ltb q.time_into_tick_ms p.time_into_tick_ms)) [
      | inl e ↦ rw (e, rest) refl
      | inr e ↦ rw e refl
    ]

pub sort_pending-flown :
    (b : ℕ) (l : List PendingArrival) → sort_pending (all_flown b l) ≡ all_flown b (sort_pending l)
unfolding sort_pending
sort_pending-flown b [] = refl
sort_pending-flown b (p ∷ l) =
    rw (sort_pending-flown b l) (insert_pending-flown b p (sort_pending l))

pub still_active-IsQuiet :
    (a b : ℕ) (l : List Motion) → IsSettled a b l → IsQuiet b (still_active a l)
unfolding still_active
still_active-IsQuiet a b [] h = tt
still_active-IsQuiet a b (m ∷ l) (h, hs) = elim (Bool-cases (is_due a m)) [
  | inl e ↦ rw (e, still_active) (still_active-IsQuiet a b l hs)
  | inr e ↦ rw (e, still_active) (ground (arith, e, h), still_active-IsQuiet a b l hs)
]

-- Dropping the moves of the captured, before time passes or after.
pub drop_moves_of-IsQuiet :
    (ids : List ℕ) (b : ℕ) (l : List Motion) → IsQuiet b l → IsQuiet b (drop_moves_of ids l)
unfolding drop_moves_of
drop_moves_of-IsQuiet ids b [] h = tt
drop_moves_of-IsQuiet ids b (m ∷ l) h =
    let rest = drop_moves_of-IsQuiet ids b l h.1 in
    elim (Bool-cases (contains_id m.moving_piece.id ids && not (is_jump m.kind))) [
      | inl e ↦ rw e rest
      | inr e ↦ rw e (h.0, rest)
    ]

pub still_active-drop_moves_of :
    (ids : List ℕ) (b : ℕ) (l : List Motion)
    → drop_moves_of ids (still_active b l) ≡ still_active b (drop_moves_of ids l)
unfolding drop_moves_of still_active
still_active-drop_moves_of ids b [] = refl
still_active-drop_moves_of ids b (m ∷ l) =
    let rest = still_active-drop_moves_of ids b l in
    elim (Bool-cases (contains_id m.moving_piece.id ids && not (is_jump m.kind))) [
      | inl e ↦ elim (Bool-cases (is_due b m)) [
        | inl d ↦ rw (e, still_active, d) rest
        | inr d ↦ rw (e, still_active, d, drop_moves_of, e) rest
      ]
      | inr e ↦ elim (Bool-cases (is_due b m)) [
        | inl d ↦ rw (e, still_active, d) rest
        | inr d ↦ rw (e, still_active, d, drop_moves_of, e, rest) refl
      ]
    ]

erase_cooldown-age :
    (id b : ℕ) (l : Cooldowns)
    → erase_cooldown id (age_cooldowns b l) ≡ age_cooldowns b (erase_cooldown id l)
unfolding erase_cooldown age_cooldowns
erase_cooldown-age id b [] = refl
erase_cooldown-age id b ((i, t) ∷ l) = ground (arith, erase_cooldown-age id b l)

pub erase_cooldowns-age :
    (ids : List ℕ) (b : ℕ) (l : Cooldowns)
    → erase_cooldowns ids (age_cooldowns b l) ≡ age_cooldowns b (erase_cooldowns ids l)
unfolding erase_cooldowns
erase_cooldowns-age [] b l = refl
erase_cooldowns-age (id ∷ ids) b l =
    rw (erase_cooldown-age id b l) (erase_cooldowns-age ids b (erase_cooldown id l))

pub find_cooldown-age :
    (id b : ℕ) (l : Cooldowns)
    → find_cooldown id l ≡ none
    → find_cooldown id (age_cooldowns b l) ≡ none
unfolding find_cooldown age_cooldowns
find_cooldown-age id b [] h = refl
find_cooldown-age id b ((i, t) ∷ l) h = ground (arith, find_cooldown-age id b l, h)

-- A cooldown that begins and then ages.
age_set_cooldown :
    (id t b : ℕ) (l : Cooldowns)
    → find_cooldown id l ≡ none
    → age_cooldowns b (set_cooldown id t l)
      ≡ (if leb t b then age_cooldowns b l else set_cooldown id (t - b) (age_cooldowns b l))
unfolding find_cooldown age_cooldowns set_cooldown
age_set_cooldown id t b [] h = refl
age_set_cooldown id t b ((i, u) ∷ l) h =
    let rest = age_set_cooldown id t b l in
    elim (Bool-cases (i == id)) [
      | inl e ↦ absurd (ground (arith, e, h))
      | inr e ↦
          let others : find_cooldown id l ≡ none = ground (arith, e, h) in
          let tail = rest others in
          elim (Bool-cases (leb u b)) [
            | inl d ↦ rw (e, age_cooldowns, d) tail
            | inr d ↦ elim (Bool-cases (leb t b)) [
              | inl c ↦ ground (arith, e, d, c, tail)
              | inr c ↦ ground (arith, e, d, c, tail)
            ]
          ]
    ]

-- A rest that begins before time passes, and one that begins when it has passed.
pub rest_after-age :
    (a b : ℕ) (p : PendingArrival) (arrived : Bool) (l : Cooldowns)
    → p.time_into_tick_ms ≤ a
    → find_cooldown p.motion.moving_piece.id l ≡ none
    → rest_after (a + b) (flown b p) arrived (age_cooldowns b l)
      ≡ age_cooldowns b (rest_after a p arrived l)
unfolding rest_after
rest_after-age a b p arrived l h fresh = elim (Bool-cases arrived) [
  | inr away ↦ rw away refl
  | inl here ↦
      let t = p.time_into_tick_ms in
      let c = p.motion.cooldown_ms in
      elim (Bool-cases (ltb (a - t) c)) [
        | inr over ↦
            let over' : ltb (a + b - t) c ≡ false = ground (arith, over, h) in
            rw (here, over, over') refl
        | inl rests ↦
            let begun = age_set_cooldown p.motion.moving_piece.id (c - (a - t)) b l fresh in
            elim (Bool-cases (ltb (a + b - t) c)) [
              | inl on ↦
                  let long : leb (c - (a - t)) b ≡ false = ground (arith, on, h) in
                  let left : c - (a + b - t) ≡ (c - (a - t)) - b = omega (arith, h) in
                  rw (here, rests, on, begun, long, left) refl
              | inr off ↦
                  let short : leb (c - (a - t)) b ≡ true = ground (arith, off, h) in
                  rw (here, rests, off, begun, short) refl
            ]
      ]
]

find_cooldown-set_cooldown :
    (id j t : ℕ) (l : Cooldowns)
    → id ≢ j
    → find_cooldown id l ≡ none
    → find_cooldown id (set_cooldown j t l) ≡ none
unfolding find_cooldown set_cooldown
find_cooldown-set_cooldown id j t [] other h = ground (arith, other)
find_cooldown-set_cooldown id j t ((i, u) ∷ l) other h =
    ground (arith, other, h, find_cooldown-set_cooldown id j t l other)

pub find_cooldown-rest_after :
    (id a : ℕ) (p : PendingArrival) (arrived : Bool) (l : Cooldowns)
    → id ≢ p.motion.moving_piece.id
    → find_cooldown id l ≡ none
    → find_cooldown id (rest_after a p arrived l) ≡ none
unfolding rest_after
find_cooldown-rest_after id a p arrived l other h =
    elim (Bool-cases (arrived && ltb (a - p.time_into_tick_ms) p.motion.cooldown_ms)) [
      | inl e ↦ rw e (
          find_cooldown-set_cooldown id p.motion.moving_piece.id
            (p.motion.cooldown_ms - (a - p.time_into_tick_ms)) l other h)
      | inr e ↦ rw e h
    ]
