-- ===== src/RealTime/Safety/Upkeep.antt =====
-- What an arrival does to the invariant: the board stays coherent and the others stay anchored.
use kung_fu_chess.Prelude.{
  ◌≡◌, ◌≢◌, refl, sym, ◌∙◌, ◌⊎◌, inl, inr, false, Bool-cases, none, some, Returns, arith,
}
use kung_fu_chess.Model.{
  Position, Piece, PieceState, idle, position_eq, position_eq_iff, is_airborne,
}
use kung_fu_chess.Model.Board.{Board, piece_at, Writes}
use kung_fu_chess.RealTime.Factory.{Motion, move}
use kung_fu_chess.RealTime.Collision.{resolve, taken}
use kung_fu_chess.RealTime.Arbiter.{ResolvedArrival, is_blocked, resolve_arrival, blocked_report}
use kung_fu_chess.RealTime.Safety.Invariant.{IsCoherent, IsAnchored}
use kung_fu_chess.RealTime.Safety.Arrival.{
  Lands, land-Landed, block-Returns, resolve-facts, collision, MotionKind-cases,
}

-- `c` is `b` but for the state of the piece `x` on the square `s`.
module _ (b c : Board) (s : Position) (x : Piece) (state : PieceState) (at : piece_at b s ≡ some x)
    (w : Writes b s (some (record x { state = state })) c) where
  -- Whatever stands on `c` stands on `b`, up to its state.
  stands :
      (q : Position) (y : Piece)
      → piece_at c q ≡ some y
      → (z : Piece) × (piece_at b q ≡ some z) × (z.id ≡ y.id) × (z.cell ≡ y.cell)
  stands q y e = elim (Bool-cases (position_eq q s)) [
    | inl same ↦
        let here : some y ≡ some (record x { state = state }) = sym e ∙ w.square q ∙ rw same in
        (x, rw ((position_eq_iff q s).0 same) at, ground arith, ground arith)
    | inr other ↦
        let here : piece_at b q ≡ some y = sym (rw (w.square q, other)) ∙ e in (y, here, refl, refl)
  ]

  pub restate-IsCoherent : IsCoherent b → IsCoherent c
  restate-IsCoherent v = record {
    valid = w.valid;
    placed = λ q y e. let (z, f, i, j) = stands q y e in sym j ∙ v.placed q z f;
    unique = λ p q y y' e e' i.
        let (z, f, iz, jz) = stands p y e in
        let (z', f', iz', jz') = stands q y' e' in v.unique p q z z' f f' (iz ∙ i ∙ sym iz');
  }

  -- Either the piece of `n` is not `x`, or the new state is not in the air.
  pub restate-IsAnchored :
      (n : Motion)
      → (x.id ≢ n.moving_piece.id) ⊎ (is_airborne state ≡ false)
      → IsAnchored b n
      → IsAnchored c n
  restate-IsAnchored n apart a = record {
    source_inside = w.bounds n.source ∙ a.source_inside;
    destination_inside = w.bounds n.destination ∙ a.destination_inside;
    in_place = a.in_place;
    nowhere_else = λ q y e i. let (z, f, iz, _) = stands q y e in a.nowhere_else q z f (iz ∙ i);
    present = λ k.
        let (y, e, i, air) = a.present k in
        elim (Bool-cases (position_eq n.source s)) [
          | inl same ↦
              let here : some x ≡ some y =
                sym at ∙ (rw (← (position_eq_iff n.source s).0 same) e) in
              (
                record x { state = state },
                rw (w.square n.source, same),
                ground arith,
                ground (arith, apart),
              )
          | inr other ↦ (y, rw (w.square n.source, other) e, i, air)
        ];
  }

module _ (b c : Board) (m : Motion) (arrived : Piece) (v : IsCoherent b) (a : IsAnchored b m)
    (w : Lands b m arrived c) (id : arrived.id ≡ m.moving_piece.id)
    (cell : arrived.cell ≡ m.destination) where
  -- Whatever stands on `c` is the arrived piece, or stood on `b` at the same square.
  stands_after :
      (q : Position) (y : Piece)
      → piece_at c q ≡ some y
      → ((q ≡ m.destination) × (y ≡ arrived))
        ⊎ (q ≢ m.destination) × (q ≢ m.source) × (piece_at b q ≡ some y)
  stands_after q y e = elim (Bool-cases (position_eq q m.destination)) [
    | inl to ↦
        let here : some y ≡ some arrived = sym e ∙ w.square q ∙ rw to in
        inl ((position_eq_iff q m.destination).0 to, cc)
    | inr away ↦ elim (Bool-cases (position_eq q m.source)) [
      | inl from ↦ let here : none ≡ some y = sym (rw (w.square q, away, from)) ∙ e in absurd (cc)
      | inr off ↦
          let here : piece_at b q ≡ some y = sym (rw (w.square q, away, off)) ∙ e in
          inr (
            λ s. cc (away, (position_eq_iff q m.destination).1 s),
            λ s. cc (off, (position_eq_iff q m.source).1 s),
            here,
          )
    ]
  ]

  pub land-IsCoherent : IsCoherent c
  land-IsCoherent = record {
    valid = w.valid;
    placed = λ q y e. elim (stands_after q y e) [
      | inl (to, same) ↦ rw (same, to) cell
      | inr (_, _, f) ↦ v.placed q y f
    ];
    unique = λ p q y z e f i. elim (stands_after p y e) [
      | inl (to, same) ↦ elim (stands_after q z f) [
        | inl (to', same') ↦ to ∙ sym to'
        | inr (_, off, g) ↦ absurd (off (a.nowhere_else q z g (sym i ∙ rw same id)))
      ]
      | inr (_, off, g) ↦ elim (stands_after q z f) [
        | inl (to', same') ↦ absurd (off (a.nowhere_else p y g (i ∙ rw same' id)))
        | inr (_, _, g') ↦ v.unique p q y z g g' i
      ]
    ];
  }

  -- A motion of another piece stays anchored, if its piece is not the one that was captured.
  pub land-IsAnchored :
      is_blocked (collision b m v a).kind ≡ false
      → (n : Motion) → n.moving_piece.id ≢ m.moving_piece.id
      → (n.kind ≡ move
          → (x : Piece) → (collision b m v a).captured_piece ≡ some (taken x)
          → x.id ≢ n.moving_piece.id)
      → IsAnchored b n
      → IsAnchored c n
  land-IsAnchored open_way n apart spared an = record {
    source_inside = w.bounds n.source ∙ an.source_inside;
    destination_inside = w.bounds n.destination ∙ an.destination_inside;
    in_place = an.in_place;
    nowhere_else = λ q y e i. elim (stands_after q y e) [
      | inl (_, same) ↦ absurd (apart (sym i ∙ rw same id))
      | inr (_, _, f) ↦ an.nowhere_else q y f i
    ];
    present = λ k.
        let (x, at, i, air) = an.present k in
        let off_source : n.source ≢ m.source = λ s. elim (MotionKind-cases m.kind) [
          | inl mk ↦
              let (y, at', j, _) = a.present mk in
              let same : some x ≡ some y = sym at ∙ (rw s at') in
              apart (sym i ∙ (let e : x ≡ y = cc in rw e j))
          | inr mk ↦ taken_there x at i air k (s ∙ sym (a.in_place mk))
        ] in
        (
          x,
          w.square n.source
              ∙ rw
                  (
                    neq_test n.source m.destination (taken_there x at i air k),
                    neq_test n.source m.source off_source,
                  )
                  at,
          i,
          air,
        );
  }
    where
      neq_test : (p q : Position) → p ≢ q → position_eq p q ≡ false
      neq_test p q ne = elim (Bool-cases (position_eq p q)) [
        | inl e ↦ absurd (ne ((position_eq_iff p q).0 e))
        | inr e ↦ e
      ]

      -- On the destination the other piece would have been captured.
      taken_there :
          (x : Piece)
          → piece_at b n.source ≡ some x
          → x.id ≡ n.moving_piece.id
          → is_airborne x.state ≡ false
          → n.kind ≡ move
          → n.source ≢ m.destination
      taken_there x at i air k s =
          spared k x
            ((resolve-facts m.moving_piece (piece_at b m.destination)).2 open_way x (rw s at at)
              (λ e. apart (sym i ∙ e)) air)
            i

-- What one arrival has to keep.
pub record Arrives (b : Board) (m : Motion) (r : ResolvedArrival) (c : Board) : Type 0 where
  pub board : IsCoherent c
  pub mover : r.event.moved_piece.id ≡ m.moving_piece.id
  pub others :
      (n : Motion)
      → n.moving_piece.id ≢ m.moving_piece.id
      → (n.kind ≡ move → (p : Piece) → r.event.captured_piece ≡ some p → p.id ≢ n.moving_piece.id)
      → IsAnchored b n
      → IsAnchored c n

abbrev pub ArrivesTo : Board → Motion → ResolvedArrival × Board → Type 0
ArrivesTo b m (r, c) = Arrives b m r c

-- On a coherent board an anchored motion arrives without an exception. The board stays coherent,
-- the report is about the mover, and every motion of another piece stays anchored, but for a Move
-- whose piece the arrival captured.
pub resolve_arrival-Arrives :
    (b : Board) (m : Motion)
    → IsCoherent b
    → IsAnchored b m
    → Returns (ArrivesTo b m) (resolve_arrival m b)
unfolding resolve_arrival
resolve_arrival-Arrives b m v a =
    elim (Bool-cases (is_blocked (resolve m.moving_piece (piece_at b m.destination)).kind)) [
      | inl stop ↦
          let (x, c, at, r, w) = block-Returns b m v a stop in
          (
            (blocked_report m, c),
            rw stop r,
            record {
              board = restate-IsCoherent b c m.source x idle at w v;
              mover = refl;
              others =
                  λ n apart spared an. restate-IsAnchored b c m.source x idle at w n (inr refl) an;
            },
          )
      | inr go ↦
          let ((r, c), e, (w, id, cell, took)) = land-Landed b m v a go in
          (
            (r, c),
            rw go e,
            record {
              board = land-IsCoherent b c m r.event.moved_piece v a w id cell;
              mover = id;
              others = λ n apart spared an.
                  land-IsAnchored b c m r.event.moved_piece v a w id cell go n apart
                    (λ k x t. spared k (taken x) (took ∙ t)) an;
            },
          )
    ]
