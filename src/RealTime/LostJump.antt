-- ===== src/RealTime/LostJump.antt =====
-- A jumper that was passed through has left the board; if a friend has taken its square by the time
-- that it lands, `resolve_arrival` takes the friend for an obstacle and never puts the jumper back.
use kung_fu_chess.Prelude.{
  ℕ, ◌+◌, ◌≤◌, ◌≡◌, ◌≢◌, refl, sym, ◌∙◌, true, Bool-cases, none, some, List, [], ◌∷◌, Returns,
  arith, inl, inr,
}
use kung_fu_chess.Model.{Position, Piece, idle, position_eq}
use kung_fu_chess.Model.Board.{
  Board, piece_at, IsValid, Writes, set_piece_state-Writes, piece_at-Inside,
}
use kung_fu_chess.RealTime.Factory.{Motion}
use kung_fu_chess.RealTime.Collision.{resolve, ArrivalEvent}
use kung_fu_chess.RealTime.Arbiter.{
  ResolvedArrival, is_blocked, block_arrival, blocked_report, resolve_arrival, RealTimeArbiter,
  PendingArrival, record_arrival, first_batch, after_batch, find_motion, motion_for, is_due,
  advance_motion, arrival_time, pending_arrivals, sort_pending, insert_pending, still_active,
  contains_id, resolve_one, resolve_all, advance_time,
}
use kung_fu_chess.RealTime.Quiet.{
  IsQuiet, pending_arrivals-IsQuiet, find_motion-still_active, drop_moves_of-nothing,
}

-- The piece stands on no square.
abbrev pub IsMissing : Board → Piece → Type 0
IsMissing b x = (q : Position) (y : Piece) → piece_at b q ≡ some y → y.id ≢ x.id

friend-blocks :
    (mover friend : Piece)
    → friend.id ≢ mover.id
    → friend.color ≡ mover.color
    → is_blocked (resolve mover (some friend)).kind ≡ true
unfolding resolve
friend-blocks mover friend other same = ground arith

abbrev freed : Piece → Piece
freed friend = record friend { state = idle }

-- The branch of a friend in the way.
lands_on_friend :
    (b : Board) (m : Motion) (friend : Piece)
    → IsValid b
    → m.destination ≡ m.source
    → IsMissing b m.moving_piece
    → piece_at b m.source ≡ some friend
    → friend.color ≡ m.moving_piece.color
    → Returns
        (λ (r : ResolvedArrival × Board).
          (r.0 ≡ blocked_report m)
          × Writes b m.source (some (freed friend)) r.1
          × IsMissing r.1 m.moving_piece)
        (resolve_arrival m b)
unfolding resolve_arrival block_arrival
lands_on_friend b m friend valid here missing at same =
    let (c, r, w) =
      set_piece_state-Writes b m.source valid (piece_at-Inside b m.source at) idle friend at in
    let stop = friend-blocks m.moving_piece friend (missing m.source friend at) same in
    ((blocked_report m, c), rw (here, at, stop, r), (refl, w, λ q y e. absent c w q y e))
  where
    absent :
        (c : Board)
        → Writes b m.source (some (record friend { state = idle })) c
        → IsMissing c m.moving_piece
    absent c w q y e = elim (Bool-cases (position_eq q m.source)) [
      | inl on ↦
          let found : some y ≡ some (record friend { state = idle }) = sym e ∙ w.square q ∙ rw on in
          λ i. missing m.source friend at (ground arith)
      | inr off ↦
          let found : piece_at b q ≡ some y = sym (rw (w.square q, off)) ∙ e in missing q y found
    ]

-- The piece of the motion `m` is lost: one event tells that it went back to its square, captured by
-- nobody, and it is neither on the board nor in flight; its square holds the friend.
pub record IsLost (b : Board) (m : Motion) (friend : Piece)
    (r : List ArrivalEvent × Board × RealTimeArbiter) : Type 0 where
  pub event : ArrivalEvent
  pub told : r.0 ≡ event ∷ []
  pub of_mover : event.moved_piece ≡ record m.moving_piece { state = idle }
  pub goes_back : event.destination ≡ m.source
  pub not_captured : event.captured_piece ≡ none
  pub board : Writes b m.source (some (freed friend)) r.1
  pub missing : IsMissing r.1 m.moving_piece
  pub lands : motion_for r.2 m.moving_piece.id ≡ none

-- A step in which one motion is over, and any others go on; that motion ends on the square where it began,
-- its piece stands on no square and has no other motion, and a friend stands on that square. The step returns
-- with one event, of the piece going back to the square without being captured; the friend stands there,
-- idle, and no other square has changed. The piece stands on no square and is in no flight any more.
pub lands_on_friend-IsMissing :
    (ms : ℕ) (b : Board) (a : RealTimeArbiter) (m : Motion) (others : List Motion) (friend : Piece)
    → IsValid b
    → a.active_motions ≡ m ∷ others
    → m.duration_ms ≤ m.elapsed_ms + ms
    → IsQuiet ms others
    → find_motion m.moving_piece.id others ≡ none
    → m.destination ≡ m.source
    → IsMissing b m.moving_piece
    → piece_at b m.source ≡ some friend
    → friend.color ≡ m.moving_piece.color
    → Returns (IsLost b m friend) (advance_time ms b a)
unfolding advance_time resolve_all resolve_one sort_pending insert_pending pending_arrivals
    contains_id still_active motion_for
lands_on_friend-IsMissing ms b a m others friend valid all over quiet single here missing at same =
    let due : is_due ms m ≡ true = ground (arith, over) in
    let (r, run, (report, wrote, gone)) =
      lands_on_friend b (advance_motion ms m) friend valid here missing at same in
    let p : PendingArrival = record {
      motion = advance_motion ms m;
      time_into_tick_ms = arrival_time ms m;
    } in
    let batch = record_arrival a.clock_ms ms p (first_batch ms b a) r.0 r.1 in
    (
      (batch.events, batch.board, after_batch ms a batch),
      rw (all, due, pending_arrivals-IsQuiet ms others quiet, run) refl,
      record {
        event = record r.0.event { arrived_at_ms = a.clock_ms + arrival_time ms m };
        told = refl;
        of_mover = rw report refl;
        goes_back = rw report refl;
        not_captured = rw report refl;
        board = wrote;
        missing = gone;
        lands =
            rw (report, all, due, drop_moves_of-nothing)
              (find_motion-still_active m.moving_piece.id ms others single);
      },
    )
