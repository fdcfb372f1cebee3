-- ===== src/RealTime/Safety/Batch.antt =====
-- The loop of `advance_time` over the arrivals of a tick.
use kung_fu_chess.Prelude.{
  ℕ, ◌≡◌, ◌≢◌, refl, inl, inr, Bool-cases, Option, none, some, List, [], ◌∷◌, ◌++◌, All, Returns,
  >>=-Returns, arith,
}
use kung_fu_chess.Model.Board.{Board}
use kung_fu_chess.Model.{Piece}
use kung_fu_chess.RealTime.Factory.{Motion, move}
use kung_fu_chess.RealTime.Arbiter.{
  PendingArrival, ResolvedArrival, Batch, contains_id, captured_ids, record_arrival, resolve_one,
  resolve_all,
}
use kung_fu_chess.RealTime.Safety.Invariant.{IsCoherent, IsAnchored, Fresh, Survives}
use kung_fu_chess.RealTime.Safety.Upkeep.{Arrives, resolve_arrival-Arrives}
use kung_fu_chess.RealTime.Safety.Sorting.{piece_id, FreshPending, DistinctPending}

-- The loop's invariant, with `still` in flight and `ps` yet to arrive.
pub record Loop (still : List Motion) (ps : List PendingArrival) (batch : Batch) : Type 0 where
  pub board : IsCoherent batch.board
  pub waiting :
      All (λ p. Survives batch.captured_this_batch p.motion → IsAnchored batch.board p.motion) ps
  pub flying : All (λ m. Survives batch.captured_this_batch m → IsAnchored batch.board m) still
  pub distinct : DistinctPending ps
  pub apart : All (λ p. Fresh (piece_id p) still) ps

-- A motion that survives one more capture survived before, and a Move is not the captured one's.
Survives-more :
    (o : Option Piece) (ids : List ℕ) (n : Motion)
    → Survives (captured_ids o ++ ids) n
    → Survives ids n × (n.kind ≡ move → (p : Piece) → o ≡ some p → p.id ≢ n.moving_piece.id)
unfolding contains_id
Survives-more none ids n s = (s, λ k p e. cc)
Survives-more (some x) ids n s = (ground arith, ground arith)

module _ (b c : Board) (m : Motion) (r : ResolvedArrival) (ids : List ℕ)
    (arrives : Arrives b m r c) where
  abbrev now : List ℕ
  now = captured_ids r.event.captured_piece ++ ids

  keeps_one :
      (n : Motion)
      → n.moving_piece.id ≢ m.moving_piece.id
      → (Survives ids n → IsAnchored b n)
      → Survives now n
      → IsAnchored c n
  keeps_one n apart before s =
      let (old, spared) = Survives-more r.event.captured_piece ids n s in
      arrives.others n apart spared (before old)

  keeps_pending :
      (ps : List PendingArrival)
      → FreshPending m.moving_piece.id ps
      → All (λ p. Survives ids p.motion → IsAnchored b p.motion) ps
      → All (λ p. Survives now p.motion → IsAnchored c p.motion) ps
  keeps_pending [] f h = tt
  keeps_pending (p ∷ ps) f h = (keeps_one p.motion f.0 h.0, keeps_pending ps f.1 h.1)

  keeps_flying :
      (ms : List Motion)
      → Fresh m.moving_piece.id ms
      → All (λ n. Survives ids n → IsAnchored b n) ms
      → All (λ n. Survives now n → IsAnchored c n) ms
  keeps_flying [] f h = tt
  keeps_flying (n ∷ ms) f h = (keeps_one n f.0 h.0, keeps_flying ms f.1 h.1)

resolve_one-Loop :
    (start ms : ℕ) (still : List Motion) (p : PendingArrival) (ps : List PendingArrival)
    (batch : Batch)
    → Loop still (p ∷ ps) batch
    → Returns (Loop still ps) (resolve_one start ms p batch)
unfolding resolve_one
resolve_one-Loop start ms still p ps batch l =
    elim (Bool-cases (contains_id (piece_id p) batch.captured_this_batch)) [
      | inl gone ↦ (
        batch,
        rw gone,
        record {
          board = l.board;
          waiting = l.waiting.1;
          flying = l.flying;
          distinct = l.distinct.1;
          apart = l.apart.1;
        },
      )
      | inr here ↦
          let anchored = l.waiting.0 (ground arith) in
          let ((r, c), e, arrives) =
            resolve_arrival-Arrives batch.board p.motion l.board anchored in
          (
            record_arrival start ms p batch r c,
            rw (here, e),
            record {
              board = arrives.board;
              waiting =
                  keeps_pending batch.board c p.motion r batch.captured_this_batch arrives ps
                    l.distinct.0 l.waiting.1;
              flying =
                  keeps_flying batch.board c p.motion r batch.captured_this_batch arrives still
                    l.apart.0 l.flying;
              distinct = l.distinct.1;
              apart = l.apart.1;
            },
          )
    ]

pub resolve_all-Loop :
    (start ms : ℕ) (still : List Motion) (ps : List PendingArrival) (batch : Batch)
    → Loop still ps batch
    → Returns (Loop still []) (resolve_all start ms ps batch)
unfolding resolve_all
resolve_all-Loop start ms still [] batch l = (batch, refl, l)
resolve_all-Loop start ms still (p ∷ ps) batch l =
    >>=-Returns (resolve_one start ms p batch) (resolve_all start ms ps)
      (resolve_one-Loop start ms still p ps batch l) (resolve_all-Loop start ms still ps)
