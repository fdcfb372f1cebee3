-- ===== src/Server/Audience/Watchers.antt =====
-- What any sequence of visits keeps of an audience.
use kung_fu_chess.Prelude.{
  has_value, ℕ, suc, ◌+◌, ◌≤◌, ◌<◌, ◌≡◌, refl, ◌⊎◌, inl, inr, Bool, true, false, ◌==◌, leb, Option,
  none, some, List, [], ◌∷◌, length, arith, Bool-cases, Option-cases,
}
use kung_fu_chess.Model.{PieceColor, white, black}
use kung_fu_chess.Server.Audience.Defs.{
  Watcher, MatchAudience, max_spectators, seat, watch, without, publish, unwatch, reseat, Visit,
  seats, watches, leaves, reseats, visit, visit_all, Name, SendFn, CloseFn, both_seats_taken,
}

-- Ids fall along the list, which is newest first, and are between 1 and the next one to be given.
abbrev pub Falling : ℕ → List Watcher → Type 0
Falling bound [] = Unit
Falling bound (w ∷ ws) = (1 ≤ w.id) × (w.id < bound) × Falling w.id ws

pub record Kept (ws : List Watcher) (count next : ℕ) : Type 0 where
  pub counted : count ≡ length ws
  pub bounded : count ≤ max_spectators
  pub ids : Falling next ws
  pub nonzero : 1 ≤ next

abbrev pub IsKept : MatchAudience → Type 0
IsKept a = Kept a.watchers a.watcher_count a.next_watcher_id

Falling-le : (m n : ℕ) (ws : List Watcher) → m ≤ n → Falling m ws → Falling n ws
Falling-le m n [] h f = tt
Falling-le m n (w ∷ ws) h f = (f.0, omega (arith, f.1), f.2)

without-Falling :
    (id bound : ℕ) (ws vs : List Watcher)
    → Falling bound ws
    → without id ws ≡ some vs
    → Falling bound vs × (length ws ≡ suc (length vs))
unfolding without
without-Falling id bound [] vs f e = cc
without-Falling id bound (w ∷ ws) vs f e = elim (Bool-cases (w.id == id)) [
  | inl same ↦
      let k : some ws ≡ some vs = rw same at e in
      let got : ws ≡ vs = cc in rw (← got) (Falling-le w.id bound ws (omega (arith, f.1)) f.2, refl)
  | inr other ↦ elim (Option-cases (without id ws)) [
    | inl gone ↦ absurd (cc (other, gone, e))
    | inr (us, kept) ↦
        let (g, n) = without-Falling id w.id ws us f.2 kept in
        let k : some (w ∷ us) ≡ some vs = rw (other, kept) at e in
        let got : w ∷ us ≡ vs = cc in rw (← got) ((f.0, f.1, g), omega (arith, n))
  ]
]

watch-IsKept :
    (send : SendFn) (close : CloseFn) (a : MatchAudience) → IsKept a → IsKept (watch send close a).1
unfolding watch
watch-IsKept send close a k = elim (Bool-cases (leb max_spectators a.watcher_count)) [
  | inl full ↦ simp full k
  | inr room ↦ simp room (record {
    counted = omega (arith, k.counted);
    bounded = ground arith;
    ids = (k.nonzero, omega arith, k.ids);
    nonzero = omega arith;
  })
]

publish-IsKept :
    (id : ℕ) (o : Option (List Watcher)) (a : MatchAudience)
    → without id a.watchers ≡ o
    → IsKept a
    → IsKept (publish o a)
unfolding publish
publish-IsKept id none a e k = k
publish-IsKept id (some ws) a e k =
    let (f, n) = without-Falling id a.next_watcher_id a.watchers ws k.ids e in
    record {
      counted = omega (arith, k.counted, n);
      bounded = omega (arith, k.bounded);
      ids = f;
      nonzero = k.nonzero;
    }

visit-IsKept : (v : Visit) (a : MatchAudience) → IsKept a → IsKept (visit v a)
unfolding visit seat unwatch reseat
visit-IsKept (seats name rating send close) a k = ground (arith, k)
visit-IsKept (watches send close) a k = watch-IsKept send close a k
visit-IsKept (leaves id) a k = publish-IsKept id (without id a.watchers) a refl k
visit-IsKept (reseats white send close) a k = k
visit-IsKept (reseats black send close) a k = k

-- However players and watchers come, go and return, from an audience where this holds: the count is
-- the length of the list of watchers and never above the limit, and no two watchers have one id and
-- none has the id 0, since ids fall strictly along the list below the next one to be given.
visit_all-IsKept : (vs : List Visit) (a : MatchAudience) → IsKept a → IsKept (visit_all vs a)
unfolding visit_all
visit_all-IsKept [] a k = k
visit_all-IsKept (v ∷ vs) a k = visit_all-IsKept vs (visit v a) (visit-IsKept v a k)

-- Nobody sits at black before white, and the counter counts the seats.
abbrev pub one_if : Bool → ℕ
one_if true = 1
one_if false = 0

abbrev pub IsSeated : MatchAudience → Type 0
IsSeated a =
    (has_value a.black_send ≡ true → has_value a.white_send ≡ true)
    × (a.seats_filled ≡ one_if (has_value a.white_send) + one_if (has_value a.black_send))

-- What the next player to ask for a seat is given.
abbrev pub Seated :
    Name → ℕ → SendFn → CloseFn → MatchAudience → Option PieceColor × MatchAudience → Type 0
Seated name rating send close a (given, v) =
    ((a.seats_filled ≡ 0)
      × (given ≡ some white)
      × (v.white_send ≡ some send)
      × (v.white_username ≡ name)
      × (v.white_rating ≡ rating)
      × (v.black_send ≡ a.black_send)
      × (both_seats_taken v ≡ false))
    ⊎ ((a.seats_filled ≡ 1)
        × (given ≡ some black)
        × (v.black_send ≡ some send)
        × (v.black_username ≡ name)
        × (v.black_rating ≡ rating)
        × (v.white_send ≡ a.white_send)
        × (v.white_username ≡ a.white_username)
        × (both_seats_taken v ≡ true))
    ⊎ ((a.seats_filled ≡ 2) × (given ≡ none) × (v ≡ a))

-- Where nobody sits at black before white and the counter counts the taken seats: the first player
-- is given white and the second black, under their own name and rating and on their own socket, the
-- other seat is left alone, only the second fills the match, and a third is turned away with
-- nothing changed.
seat_lem :
    (name : Name) (rating : ℕ) (send : SendFn) (close : CloseFn) (a : MatchAudience)
    → IsSeated a
    → IsSeated (seat name rating send close a).1
      × Seated name rating send close a (seat name rating send close a)
unfolding seat
seat_lem name rating send close a (order, count) = elim (Bool-cases (has_value a.white_send)) [
  | inl w ↦ elim (Bool-cases (has_value a.black_send)) [
    | inl b ↦ simp (w, b) ((λ h. refl, ground arith), inr (inr (ground arith, refl, refl)))
    | inr b ↦
        simp (w, b)
          (
            (λ h. refl, ground arith),
            inr (inl (ground arith, refl, refl, refl, refl, refl, refl, ground arith)),
          )
  ]
  | inr w ↦ elim (Bool-cases (has_value a.black_send)) [
    | inl b ↦ absurd (cc (w, order b))
    | inr b ↦
        simp w (
          (λ h. refl, ground arith),
          inl (ground arith, refl, refl, refl, refl, refl, ground arith),
        )
  ]
]
