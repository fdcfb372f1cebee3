-- ===== src/Server/Match/Forfeit.antt =====
-- A player who drops out and does not return: the match comes to its end.
use kung_fu_chess.Prelude.{
  ℕ, ◌+◌, ◌*◌, ◌≤◌, ◌≡◌, refl, inr, true, not, ◌||◌, none, some, List, [], ◌∷◌, ◌++◌, ok, All,
  All-append, Returns, arith,
}
use kung_fu_chess.Model.{PieceColor}
use kung_fu_chess.Server.DisconnectWatch.{advance, open_countdown, report_disconnect}
use kung_fu_chess.Server.Match.State.{Match}
use kung_fu_chess.Server.Match.Members.{Happening, drops, ticks, on_disconnect, happen, happen_all}
use kung_fu_chess.Server.Match.Seating.{IfOk, ok-IfOk, bind-IfOk}
use kung_fu_chess.Server.Match.Steady.{IsSteady}
use kung_fu_chess.Server.Match.Safety.{HasClose, happen_all-IsSteady}
use kung_fu_chess.Server.Match.Verdicts.{is_told, IsSettled, happen-IsSettled}
use kung_fu_chess.Server.Match.Counting.{
  Counts, Looks, ticks-Ticked, Counts-Looks, IsAbsent, happen-Counts,
}

-- One happening, and then the others.
then_all :
    (P Q : Match → Type 0) (h : Happening) (hs : List Happening) (m : Match)
    → IfOk (λ r. P r.1) (happen h m)
    → ((k : Match) → P k → IfOk (λ r. Q r.1) (happen_all hs k))
    → IfOk (λ r. Q r.1) (happen_all (h ∷ hs) m)
unfolding happen_all
then_all P Q h hs m first rest =
    bind-IfOk (λ r. Q r.1) (happen h m) _
      (λ a e.
        bind-IfOk (λ r. Q r.1) (happen_all hs a.1) (λ b. ok (a.0 ++ b.0, b.1))
          (λ b f. ok-IfOk (λ r. Q r.1) (a.0 ++ b.0, b.1) (rest a.1 (first a e) b f)))

-- A drop that the next tick will find.
drop-Looks :
    (color : PieceColor) (now : ℕ) (m : Match)
    → m.disconnect_watch.watching ≡ none
    → Looks color (now + m.disconnect_watch.grace_ms * 1000000) now (on_disconnect color m)
unfolding on_disconnect report_disconnect advance open_countdown
drop-Looks color now m e = inr (
  record m.disconnect_watch {
    frozen = true;
    pending = none;
    watching = some color;
    deadline = now + m.disconnect_watch.grace_ms * 1000000;
    last_reported_second = none;
  },
  rw e refl,
  (refl, refl),
)

abbrev Finished : Match → Type 0
Finished m = (m.game_over ≡ true) × (is_told m ≡ true)

module _ (color : PieceColor) (deadline last ms : ℕ) (late : deadline ≤ last) where
  abbrev Goes : Match → Type 0
  Goes m = Counts color deadline m × IsSettled m

  counts-Finished :
      (hs : List Happening) (m : Match)
      → All (IsAbsent color) hs
      → Goes m
      → IfOk (λ r. Finished r.1) (happen_all (hs ++ ticks last ms ∷ []) m)
  unfolding happen_all
  counts-Finished [] m a (c, s) =
      then_all Finished Finished (ticks last ms) [] m
        (λ r e.
          let over =
            (ticks-Ticked color deadline last ms m (Counts-Looks color deadline last m c) r e).1
              (omega (arith, late)) in
          (over, (happen-IsSettled (ticks last ms) m s r e).1 over))
        (λ k f. ok-IfOk (λ r. Finished r.1) ([], k) f)
  counts-Finished (h ∷ hs) m a (c, s) =
      then_all Goes Finished h (hs ++ ticks last ms ∷ []) m
        (λ r e. (happen-Counts color deadline h m a.0 c r e, happen-IsSettled h m s r e))
        (λ k g. counts-Finished hs k a.1 g)

dropped :
    (color : PieceColor) (m : Match) (now : ℕ)
    → m.disconnect_watch.watching ≡ none
    → IfOk
        (λ r. Looks color (now + m.disconnect_watch.grace_ms * 1000000) now r.1)
        (happen (drops color) m)
unfolding happen
dropped color m now idle =
    ok-IfOk (λ r. Looks color (now + m.disconnect_watch.grace_ms * 1000000) now r.1)
      ([], on_disconnect color m) (drop-Looks color now m idle)

drop-ends :
    (color : PieceColor) (m : Match) (first ms : ℕ) (hs : List Happening) (last ms' : ℕ)
    → IsSettled m
    → m.disconnect_watch.watching ≡ none
    → All (IsAbsent color) hs
    → first + m.disconnect_watch.grace_ms * 1000000 ≤ last
    → IfOk
        (λ r. Finished r.1)
        (happen_all (drops color ∷ ticks first ms ∷ (hs ++ ticks last ms' ∷ [])) m)
drop-ends color m first ms hs last ms' settled idle absent late =
    let deadline = first + m.disconnect_watch.grace_ms * 1000000 in
    then_all (λ k. Looks color deadline first k × IsSettled k) Finished (drops color) _ m
      (λ r e. (dropped color m first idle r e, happen-IsSettled (drops color) m settled r e))
      (λ k (l, s).
        then_all (Goes color deadline last ms' late) Finished (ticks first ms) _ k
          (λ r e. (
            (ticks-Ticked color deadline first ms k l r e).0,
            happen-IsSettled (ticks first ms) k s r e,
          ))
          (λ j g. counts-Finished color deadline last ms' late hs j absent g))

-- A match whose board is sound, whose seats can be let go, which has no resignation waiting and has
-- reported its result if it is over, and in which nobody is counted down for: a player drops out, and a
-- tick finds it. Whatever else happens then, in any order and number, but for that player's return, and
-- if everyone who is seated meanwhile can be let go: all of it returns, and a tick that comes when the grace has
-- passed since leaves the match over, with its result reported if there is anyone to report it to.
pub drop-Finishes :
    (color : PieceColor) (m : Match) (first ms : ℕ) (hs : List Happening) (last ms' : ℕ)
    → IsSteady m
    → IsSettled m
    → m.disconnect_watch.watching ≡ none
    → All HasClose hs
    → All (IsAbsent color) hs
    → first + m.disconnect_watch.grace_ms * 1000000 ≤ last
    → Returns {0, 0}
        (λ (effects, k). (k.game_over ≡ true) × (k.result_reported || not k.has_on_result ≡ true))
        (happen_all (drops color ∷ ticks first ms ∷ (hs ++ ticks last ms' ∷ [])) m)
drop-Finishes color m first ms hs last ms' steady settled idle closes absent late =
    let (r, e, _) =
      happen_all-IsSteady (drops color ∷ ticks first ms ∷ (hs ++ ticks last ms' ∷ [])) m
        (tt, (tt, All-append HasClose hs (ticks last ms' ∷ []) closes (tt, tt))) steady in
    (r, e, drop-ends color m first ms hs last ms' settled idle absent late r e)
