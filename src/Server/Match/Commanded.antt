-- ===== src/Server/Match/Commanded.antt =====
-- Every command of a player is reported and latched as Reports has it.
use kung_fu_chess.Prelude.{
  ℕ, ◌≡◌, refl, sym, subst, false, Bool-cases, inl, inr, Option, none, some, List, [], ◌∷◌, ◌++◌,
  Result, ok, err, ◌>>=◌, arith,
}
use kung_fu_chess.Model.{PieceColor}
use kung_fu_chess.RealTime.{Motion, motion_for}
use kung_fu_chess.Engine.{GameCore, MoveResult}
use kung_fu_chess.Server.Messages.{ClientMessage, motion_started}
use kung_fu_chess.Server.Match.State.{Match, MatchState, finished, Effect, state, broadcast_and_log}
use kung_fu_chess.Server.Match.Cases.{command_cases, apply_in_cases}
use kung_fu_chess.Server.Match.Apply.{
  resigns, announce_motion, answer, command, apply_in, apply, apply_all,
}
use kung_fu_chess.Server.Match.Reports.{
  Follows, Follows-trans, quiet-Follows, broadcast-Follows, reject-Follows,
}

-- Stated of a result: of whatever it returns.
abbrev pub OkFollows : Match → Result (List Effect × Match) → Type 0
OkFollows m x = (r : List Effect × Match) → x ≡ ok r → Follows m r

pub ok-inj : {A : Type 0} (a b : A) → Result.ok a ≡ ok b → a ≡ b
ok-inj a b e = cc

pub ok-Follows : (m : Match) (v : List Effect × Match) → Follows m v → OkFollows m (ok v)
ok-Follows m v f r e = subst (λ w. Follows m w) (ok-inj v r e) f

announce_motion-Follows : (id : Option ℕ) (m : Match) → Follows m (announce_motion id m, m)
unfolding announce_motion
announce_motion-Follows none m = quiet-Follows m [] refl
announce_motion-Follows (some id) m = found (motion_for m.core.arbiter id)
  where
    found :
        (o : Option Motion)
        → Follows m
            (elim o [ none ↦ [] | some motion ↦ broadcast_and_log (motion_started motion) m ], m)
    found none = quiet-Follows m [] refl
    found (some motion) = broadcast-Follows (motion_started motion) m

-- While the match is on, a new core is no breach.
answer-Follows :
    (from : PieceColor) (id : Option ℕ) (m : Match) (r : MoveResult × GameCore)
    → m.game_over ≡ false
    → Follows m (answer from id m r)
unfolding answer
answer-Follows from id m (result, core) on =
    let after = record m { core = core } in
    elim (Bool-cases result.is_accepted) [
      | inl e ↦
          let f = announce_motion-Follows id after in
          simp e
            (record { reported = f.reported; stays_over = f.stays_over; rests = λ o. cc (on, o) })
      | inr e ↦
          let f = reject-Follows from result.reason after in
          simp e
            (record { reported = f.reported; stays_over = f.stays_over; rests = λ o. cc (on, o) })
    ]

pub bind-Follows :
    {A : Type 0} (m : Match) (x : Result A) (f : A → List Effect × Match)
    → ((a : A) → Follows m (f a))
    → OkFollows m (x >>= λ a. ok (f a))
bind-Follows m (ok a) f h r e = subst (λ v. Follows m v) (ok-inj (f a) r e) (h a)
bind-Follows m (err _) f h r e = cc

command-Follows :
    (from : PieceColor) (message : ClientMessage) (m : Match)
    → m.game_over ≡ false
    → OkFollows m (command from message m)
command-Follows from message m on =
    command_cases (OkFollows m) from m (ok-Follows m _ (quiet-Follows m [] refl))
      (λ why. ok-Follows m _ (reject-Follows from why m)) message
      (λ id x. bind-Follows m x _ (λ r. answer-Follows from id m r on))

running-on : (m : Match) (s : MatchState) → state m ≡ s → ¬ (s ≡ finished) → m.game_over ≡ false
unfolding state
running-on m s e h = elim (Bool-cases m.game_over) [
  | inl o ↦ let k : finished ≡ s = simp o at e in absurd (h (sym k))
  | inr o ↦ o
]

resigns-Follows : (from : PieceColor) (m : Match) → m.game_over ≡ false → Follows m (resigns from m)
unfolding resigns
resigns-Follows from m on = record {
  reported = omega arith;
  stays_over = λ o. refl;
  rests = λ o. refl;
}

apply_in-Follows :
    (s : MatchState) (from : PieceColor) (message : ClientMessage) (m : Match)
    → state m ≡ s
    → OkFollows m (apply_in s from message m)
apply_in-Follows s from message m e =
    apply_in_cases (OkFollows m) from m (ok-Follows m _ (quiet-Follows m [] refl))
      (λ why. ok-Follows m _ (reject-Follows from why m)) s message
      (λ on. ok-Follows m _ (resigns-Follows from m (running-on m s e on)))
      (λ runs. command-Follows from message m (running-on m s e (λ k. cc (runs, k))))

-- Two calls, one after the other.
pub seq-Follows :
    (m : Match) (x : Result (List Effect × Match)) (f : Match → Result (List Effect × Match))
    → OkFollows m x
    → ((n : Match) → OkFollows n (f n))
    → OkFollows m (x >>= λ r. f r.1 >>= λ s. ok (r.0 ++ s.0, s.1))
seq-Follows m (err _) f h g r e = cc
seq-Follows m (ok (es, n)) f h g r e = second (f n) (g n) e
  where
    second :
        (y : Result (List Effect × Match))
        → OkFollows n y
        → (y >>= λ s. ok (es ++ s.0, s.1)) ≡ ok r
        → Follows m r
    second (err _) k e = cc
    second (ok s) k e =
        subst (λ v. Follows m v) (ok-inj (es ++ s.0, s.1) r e)
          (Follows-trans m n es s (h (es, n) refl) (k s refl))

pub apply_all-Follows :
    (cs : List (PieceColor × ClientMessage)) (m : Match) → OkFollows m (apply_all cs m)
unfolding apply_all apply
apply_all-Follows [] m = ok-Follows m _ (quiet-Follows m [] refl)
apply_all-Follows ((from, message) ∷ cs) m =
    seq-Follows m _ (apply_all cs) (apply_in-Follows (state m) from message m refl)
      (apply_all-Follows cs)
