-- ===== src/Server/Match/Seating.antt =====
-- Who sits where: the seats of a match as a number of them, through whatever may happen to it.
use kung_fu_chess.Prelude.{
  has_value, ℕ, ◌≤◌, ◌≡◌, refl, ◌∙◌, subst, ltb, Option, none, some, List, [], ◌∷◌, ◌++◌, Result,
  ok, err, ◌>>=◌, arith,
}
use kung_fu_chess.Model.{PieceColor, white, black}
use kung_fu_chess.Engine.{GameCore, MoveResult}
use kung_fu_chess.Server.Messages.{ClientMessage}
use kung_fu_chess.Server.Match.State.{Match, MatchState, Effect, state}
use kung_fu_chess.Server.Match.Commanded.{ok-inj}
use kung_fu_chess.Server.Match.Cases.{command_cases, apply_in_cases}
use kung_fu_chess.Server.Match.Apply.{reject, resigns, answer, command, apply_in, apply, apply_all}

-- White takes the first seat and Black the second.
abbrev pub Taken : ℕ → PieceColor → Type 0
Taken n white = 1 ≤ n
Taken n black = 2 ≤ n

abbrev pub TakenBy : ℕ → Option PieceColor → Type 0
TakenBy n none = Unit
TakenBy n (some color) = Taken n color

-- The audience has the first `n` seats taken, and only their players are counted down for.
pub record Seated (n : ℕ) (m : Match) : Type 0 where
  pub first : has_value m.audience.white_send ≡ ltb 0 n
  pub second : has_value m.audience.black_send ≡ ltb 1 n
  pub at_most : n ≤ 2
  pub dropped : TakenBy n m.disconnect_watch.pending
  pub counted : TakenBy n m.disconnect_watch.watching

-- What the seats depend on.
abbrev pub SameSeats : Match → Match → Type 0
SameSeats m k = (k.audience ≡ m.audience) × (k.disconnect_watch ≡ m.disconnect_watch)

pub SameSeats-Seated : (n : ℕ) (m k : Match) → SameSeats m k → Seated n m → Seated n k
SameSeats-Seated n m k (a, w) s = record {
  first = rw a s.first;
  second = rw a s.second;
  at_most = s.at_most;
  dropped = rw w s.dropped;
  counted = rw w s.counted;
}

-- Of whatever a result returns.
abbrev pub IfOk {ℓ κ} : {A : Type ℓ} → (A → Type κ) → Result A → Type (ℓ ⊔ κ)
IfOk {A} P x = (a : A) → x ≡ ok a → P a

pub ok-IfOk : {A : Type 0} (P : A → Type 0) (a : A) → P a → IfOk P (ok a)
ok-IfOk P a p b e = subst P (ok-inj a b e) p

pub bind-IfOk :
    {A B : Type 0} (P : B → Type 0) (x : Result A) (f : A → Result B)
    → ((a : A) → x ≡ ok a → IfOk P (f a))
    → IfOk P (x >>= f)
bind-IfOk P (ok a) f h b e = h a refl b e
bind-IfOk P (err _) f h b e = absurd (cc)

abbrev pub SameAfter : Match → List Effect × Match → Type 0
SameAfter m r = SameSeats m r.1

answer-SameSeats :
    (from : PieceColor) (id : Option ℕ) (m : Match) (r : MoveResult × GameCore)
    → SameAfter m (answer from id m r)
unfolding answer reject
answer-SameSeats from id m (result, core) = ground arith

answered-SameSeats :
    (from : PieceColor) (id : Option ℕ) (m : Match) (x : Result (MoveResult × GameCore))
    → IfOk (λ r. SameAfter m r) (x >>= λ r. ok (answer from id m r))
answered-SameSeats from id m x =
    bind-IfOk (λ r. SameAfter m r) x (λ r. ok (answer from id m r))
      (λ a _. ok-IfOk (λ r. SameAfter m r) (answer from id m a) (answer-SameSeats from id m a))

command-SameSeats :
    (from : PieceColor) (message : ClientMessage) (m : Match)
    → IfOk (λ r. SameAfter m r) (command from message m)
unfolding reject
command-SameSeats from message m =
    command_cases (IfOk (λ r. SameAfter m r)) from m (ok-IfOk (λ r. SameAfter m r) _ (refl, refl))
      (λ why. ok-IfOk (λ r. SameAfter m r) _ (refl, refl)) message
      (λ id x. answered-SameSeats from id m x)

apply_in-SameSeats :
    (s : MatchState) (from : PieceColor) (message : ClientMessage) (m : Match)
    → IfOk (λ r. SameAfter m r) (apply_in s from message m)
unfolding reject resigns
apply_in-SameSeats s from message m =
    apply_in_cases (IfOk (λ r. SameAfter m r)) from m (ok-IfOk (λ r. SameAfter m r) _ (refl, refl))
      (λ why. ok-IfOk (λ r. SameAfter m r) _ (refl, refl)) s message
      (λ _. ok-IfOk (λ r. SameAfter m r) _ (refl, refl)) (λ _. command-SameSeats from message m)

pub apply_all-SameSeats :
    (cs : List (PieceColor × ClientMessage)) (m : Match)
    → IfOk (λ r. SameAfter m r) (apply_all cs m)
unfolding apply_all apply
apply_all-SameSeats [] m = ok-IfOk (λ r. SameAfter m r) _ (refl, refl)
apply_all-SameSeats ((from, message) ∷ cs) m =
    bind-IfOk (λ r. SameAfter m r) (apply_in (state m) from message m) _
      (λ a e.
        bind-IfOk (λ r. SameAfter m r) (apply_all cs a.1) (λ b. ok (a.0 ++ b.0, b.1))
          (λ b f.
            let g = apply_in-SameSeats (state m) from message m a e in
            let h = apply_all-SameSeats cs a.1 b f in
            ok-IfOk (λ r. SameAfter m r) (a.0 ++ b.0, b.1) (h.0 ∙ g.0, h.1 ∙ g.1)))
