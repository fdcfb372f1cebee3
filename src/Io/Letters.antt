-- ===== src/Io/Letters.antt =====
-- Tokens and pieces are each other's inverse.
use kung_fu_chess.Prelude.{
  ℕ, ◌≡◌, refl, sym, subst, ap, ◌∙◌, Option-cases, ◌↔◌, ◌==◌, none, some, [], ◌∷◌, arith,
  Bool-cases, inl, inr,
}
use kung_fu_chess.Model.{
  PieceColor, white, black, PieceKind, king, queen, rook, bishop, knight, pawn, drone,
}
use kung_fu_chess.Io.Tokens.{
  Text, PieceToken, letter_for_kind, kind_for_letter, parse_piece_token, piece_token_text,
  with_color,
}

letter_back : (c : ℕ) (k : PieceKind) → kind_for_letter c ≡ some k → c ≡ letter_for_kind k
unfolding kind_for_letter letter_for_kind
letter_back c king e = ground arith
letter_back c queen e = ground arith
letter_back c rook e = ground arith
letter_back c bishop e = ground arith
letter_back c knight e = ground arith
letter_back c pawn e = ground arith
letter_back c drone e = ground arith

pub text_back :
    (color : PieceColor) (k : PieceKind)
    → parse_piece_token (piece_token_text color k) ≡ some (record { color = color; kind = k })
unfolding parse_piece_token piece_token_text letter_for_kind kind_for_letter
text_back white king = refl
text_back white queen = refl
text_back white rook = refl
text_back white bishop = refl
text_back white knight = refl
text_back white pawn = refl
text_back white drone = refl
text_back black king = refl
text_back black queen = refl
text_back black rook = refl
text_back black bishop = refl
text_back black knight = refl
text_back black pawn = refl
text_back black drone = refl

colored :
    (color : PieceColor) (k : ℕ) (t : PieceToken)
    → with_color color (kind_for_letter k) ≡ some t
    → (color ≡ t.color) × (k ≡ letter_for_kind t.kind)
colored color k t e = elim (Option-cases (kind_for_letter k)) [
  | inl gone ↦ let f : none ≡ some t = rw gone at e in absurd (cc)
  | inr (q, found) ↦
      let f : some (record { color = color; kind = q }) ≡ some t = rw found at e in
      let g : record { color = color; kind = q } ≡ t = cc in
      (
        ap (λ (z : PieceToken). z.color) g,
        letter_back k q found ∙ ap (λ (z : PieceToken). letter_for_kind z.kind) g,
      )
]

accepted_is_text :
    (s : Text) (t : PieceToken) → parse_piece_token s ≡ some t → s ≡ piece_token_text t.color t.kind
unfolding parse_piece_token piece_token_text
accepted_is_text [] t e = absurd (cc)
accepted_is_text (c ∷ []) t e = absurd (cc)
accepted_is_text (c ∷ k ∷ d ∷ s) t e = absurd (cc)
accepted_is_text (c ∷ k ∷ []) t e = elim (Bool-cases (c == 119)) [
  | inl w ↦
      let (f, g) = colored white k t (rw w at e) in
      rw (← f, ← g) (ap (λ z. z ∷ k ∷ []) (ground arith))
  | inr nw ↦ elim (Bool-cases (c == 98)) [
    | inl b ↦
        let (f, g) = colored black k t (rw (nw, b) at e) in
        rw (← f, ← g) (ap (λ z. z ∷ k ∷ []) (ground arith))
    | inr nb ↦ let f : none ≡ some t = rw (nw, nb) at e in absurd (cc)
  ]
]

-- A text is accepted as a token, and as which one, exactly when it is the text of that piece.
parse_piece_token_iff :
    (s : Text) (t : PieceToken)
    → (parse_piece_token s ≡ some t) ↔ (s ≡ piece_token_text t.color t.kind)
parse_piece_token_iff s t = (
  accepted_is_text s t,
  λ e. subst (λ u. parse_piece_token u ≡ some t) (sym e) (text_back t.color t.kind),
)
