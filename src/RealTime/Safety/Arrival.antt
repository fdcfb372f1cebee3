-- ===== src/RealTime/Safety/Arrival.antt =====
-- One arrival: it returns, keeps the board coherent, and keeps the other motions anchored.
use kung_fu_chess.Prelude.{
  ◌≡◌, ◌≢◌, refl, ◌∙◌, ◌⊎◌, inl, inr, true, false, ◌&&◌, Bool-cases, Option-cases, if◌then◌else◌,
  Option, none, some, ok, Returns, arith,
}
use kung_fu_chess.Model.{Position, Piece, idle, position_eq, position_eq_iff, is_airborne}
use kung_fu_chess.Model.Board.{
  Board, in_bounds, piece_at, remove_piece, IsValid, Inside, Writes, add_piece-Writes,
  remove_piece-Writes, set_piece_state-Writes,
}
use kung_fu_chess.RealTime.Factory.{Motion, MotionKind, move, jump_in_place}
use kung_fu_chess.RealTime.Collision.{CollisionResult, resolve, apply_pawn_promotion, taken}
use kung_fu_chess.RealTime.Arbiter.{
  ResolvedArrival, clears_destination, landed, block_arrival, land, is_blocked, landed_report,
  blocked_report,
}
use kung_fu_chess.RealTime.Safety.Invariant.{IsCoherent, IsAnchored}

-- The board after a landing, square by square.
pub record Lands (b : Board) (m : Motion) (arrived : Piece) (c : Board) : Type 0 where
  pub valid : IsValid c
  pub bounds : (q : Position) → in_bounds c q ≡ in_bounds b q
  pub square :
      (q : Position)
      → piece_at c q ≡ (
          if position_eq q m.destination
          then some arrived
          else if position_eq q m.source
          then none
          else piece_at b q)

pub apply_pawn_promotion-keeps :
    (x : Piece) (b : Board)
    → ((apply_pawn_promotion x b).0.id ≡ x.id) × ((apply_pawn_promotion x b).0.cell ≡ x.cell)
unfolding apply_pawn_promotion
apply_pawn_promotion-keeps x b = (ground arith, ground arith)

-- What the collision tells about the destination.
pub resolve-facts :
    (mover : Piece) (o : Option Piece)
    → let r = resolve mover o in
      (is_blocked r.kind ≡ true → (x : Piece) × (o ≡ some x))
      × (is_blocked r.kind ≡ false
          → clears_destination r.kind ≡ false
          → (x : Piece) → o ≡ some x
          → x.id ≡ mover.id)
      × (is_blocked r.kind ≡ false
          → (x : Piece) → o ≡ some x
          → x.id ≢ mover.id
          → is_airborne x.state ≡ false
          → r.captured_piece ≡ some (taken x))
unfolding resolve
resolve-facts mover none = (λ e. cc, λ e f x g. cc, λ e x f. cc)
resolve-facts mover (some occupant) = (λ e. (occupant, refl), ground arith, ground arith)

position_eq_refl : (p : Position) → position_eq p p ≡ true
position_eq_refl p = (position_eq_iff p p).1 refl

pub MotionKind-cases : (k : MotionKind) → (k ≡ move) ⊎ (k ≡ jump_in_place)
MotionKind-cases move = inl refl
MotionKind-cases jump_in_place = inr refl

module _ (b : Board) (m : Motion) (ok_board : IsCoherent b) (anchored : IsAnchored b m) where
  open m use {source, destination}

  abbrev pub collision : CollisionResult
  collision = resolve m.moving_piece (piece_at b destination)

  record Cleared (c : Board) : Type 0 where
    valid : IsValid c
    bounds : (q : Position) → in_bounds c q ≡ in_bounds b q
    square :
        (q : Position)
        → piece_at c q ≡ (
            if position_eq q destination && clears_destination collision.kind
            then none
            else piece_at b q)

  clear-Cleared :
      Returns Cleared
        (if clears_destination collision.kind then remove_piece b destination else ok b)
  clear-Cleared = elim (Bool-cases (clears_destination collision.kind)) [
    | inl e ↦
        let (c, r, w) =
          remove_piece-Writes b destination ok_board.valid anchored.destination_inside in
        (
          c,
          rw e r,
          record { valid = w.valid; bounds = w.bounds; square = λ q. ground (arith, w.square q) },
        )
    | inr e ↦
        (b, rw e, record { valid = ok_board.valid; bounds = λ q. refl; square = λ q. ground arith })
  ]

  -- Nothing is left on the destination once the square is cleared and the source is empty.
  destination-free :
      is_blocked collision.kind ≡ false
      → (c d : Board) → Cleared c
      → Writes c source none d
      → piece_at d destination ≡ none
  destination-free open_way c d cleared w = elim (Bool-cases (position_eq destination source)) [
    | inl e ↦ rw (w.square destination, e)
    | inr e ↦
        rw (w.square destination, e, cleared.square destination, position_eq_refl destination)
          (elim (Bool-cases (clears_destination collision.kind)) [
            | inl k ↦ rw k
            | inr k ↦ rw k (elim (Option-cases (piece_at b destination)) [
              | inl vacant ↦ vacant
              | inr (x, at) ↦
                  let same =
                    (resolve-facts m.moving_piece (piece_at b destination)).1 open_way k x at in
                  absurd (
                    let there = anchored.nowhere_else destination x at same in
                    cc (e, (position_eq_iff destination source).1 there))
            ])
          ])
  ]

  abbrev pub Landed : ResolvedArrival × Board → Type 0
  Landed (r, c) =
      Lands b m r.event.moved_piece c
      × (r.event.moved_piece.id ≡ m.moving_piece.id)
      × (r.event.moved_piece.cell ≡ destination)
      × (r.event.captured_piece ≡ collision.captured_piece)

  pub land-Landed : is_blocked collision.kind ≡ false → Returns Landed (land m collision b)
  unfolding land
  land-Landed open_way =
      let (c, rc, cleared) = clear-Cleared in
      let (d, rd, emptied) =
        remove_piece-Writes c source cleared.valid
          (cleared.bounds source ∙ anchored.source_inside) in
      let arrived = (apply_pawn_promotion (landed m) d).0 in
      let keeps = apply_pawn_promotion-keeps (landed m) d in
      let inside : Inside d arrived.cell =
        rw keeps.1
          (emptied.bounds destination ∙ cleared.bounds destination ∙ anchored.destination_inside) in
      let vacant : piece_at d arrived.cell ≡ none =
        rw keeps.1 (destination-free open_way c d cleared emptied) in
      let (e, re, added) = add_piece-Writes d arrived emptied.valid inside vacant in
      (
        (landed_report m collision (apply_pawn_promotion (landed m) d), e),
        rw (rc, rd, re),
        (
          record {
            valid = added.valid;
            bounds = λ q. added.bounds q ∙ emptied.bounds q ∙ cleared.bounds q;
            square = λ q.
                rw (added.square q, keeps.1, emptied.square q, cleared.square q)
                  (elim (Bool-cases (position_eq q destination)) [
                    | inl at ↦ rw at
                    | inr at ↦ rw at
                  ]);
          },
          keeps.0,
          keeps.1,
          refl,
        ),
      )

  -- A blocked mover's source is occupied: by the mover, or by the friend that it would land on.
  source_piece : is_blocked collision.kind ≡ true → (x : Piece) × (piece_at b source ≡ some x)
  source_piece stopped = elim (MotionKind-cases m.kind) [
    | inl e ↦ let (x, at, _, _) = anchored.present e in (x, at)
    | inr e ↦
        let (x, at) = (resolve-facts m.moving_piece (piece_at b destination)).0 stopped in
        (x, rw (anchored.in_place e) at at)
  ]

  pub block-Returns :
      is_blocked collision.kind ≡ true
      → (x : Piece) × (c : Board) × (piece_at b source ≡ some x)
        × (block_arrival m b ≡ ok (blocked_report m, c))
        × Writes b source (some (record x { state = idle })) c
  unfolding block_arrival
  block-Returns stopped =
      let (x, at) = source_piece stopped in
      let (c, r, w) =
        set_piece_state-Writes b source ok_board.valid anchored.source_inside idle x at in
      (x, c, at, rw r, w)
