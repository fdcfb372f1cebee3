-- ===== src/Protocol/RoundTrip.antt =====
-- A client's message that is written as text, and read again.
use kung_fu_chess.Prelude.{
  string_eq, ℕ, ◌≤◌, ◌≡◌, refl, false, ltb, Option, some, List, [], ◌∷◌, length, arith,
}
use kung_fu_chess.Model.{Position}
use kung_fu_chess.Server.{
  ClientMessage, login, play, create_room, resign, join_room, move_request, jump_request,
}
use kung_fu_chess.Server.Audience.{Name}
use kung_fu_chess.Protocol.Library.{JsonLibrary, find_name}
use kung_fu_chess.Protocol.Values.{
  longest_message, then_read, read_text, read_position, position_json, position_at, envelope,
  parse_envelope,
}
use kung_fu_chess.Protocol.ValuesBack.{read_field_back, position_back}
use kung_fu_chess.Protocol.Client.{client_json, encode_client, read_client, decode_client_message}
use kung_fu_chess.Protocol.Keys.{type_key, payload_key}

module _ (L : JsonLibrary) where
  open L use {
    Json, of_object, of_text, of_int, of_array, find_field, to_text, to_natural, to_bool, dump,
    parse,
  }

  -- A text that is written of an envelope is an envelope of that type and payload.
  pub envelope_back :
      {M : Type 0} (read : Name → Json → Option M) (type : Name) (payload : Json) (text : List ℕ)
      (m : M)
      → dump (envelope L type payload) ≡ some text
      → length text ≤ longest_message
      → read type payload ≡ some m
      → then_read (parse_envelope L text) (λ j.
        then_read
          (read_text L type_key j)
          (λ name. then_read (find_field payload_key j) (read name)))
        ≡ some m
  unfolding parse_envelope envelope string_eq
  envelope_back read type payload text m e x r =
      let fits : ltb longest_message (length text) ≡ false = ground (arith, x) in
      let fields : List (Name × Json) = (type_key, of_text type) ∷ (payload_key, payload) ∷ [] in
      rw
        (
          fits,
          L.parse_back (of_object fields) text e,
          read_field_back L type_key to_text fields (of_text type) type refl (L.text_back type),
          L.object_back payload_key fields,
        )
        r

  position_field :
      (key : Name) (p : Position) (fields : List (Name × Json))
      → find_name key fields ≡ some (position_json L p)
      → position_at L key (of_object fields) ≡ some p
  position_field key p fields e =
      read_field_back L key (read_position L) fields _ p e (position_back L p)

  pub text_field :
      (key s : Name) (fields : List (Name × Json))
      → find_name key fields ≡ some (of_text s)
      → read_text L key (of_object fields) ≡ some s
  text_field key s fields e = read_field_back L key to_text fields _ s e (L.text_back s)

  -- A message that a client writes, and whose text is not too long, is the message that the server reads.
  pub decode-encode_client :
      (m : ClientMessage) (text : List ℕ)
      → encode_client L m ≡ some text
      → length text ≤ longest_message
      → decode_client_message L text ≡ some m
  unfolding encode_client client_json decode_client_message read_client string_eq
  decode-encode_client (login u p) text e x =
      envelope_back (read_client L) _ _ text _ e x
        (rw (text_field _ u _ refl, text_field _ p _ refl) refl)
  decode-encode_client (move_request s d) text e x =
      envelope_back (read_client L) _ _ text _ e x
        (rw (position_field _ s _ refl, position_field _ d _ refl) refl)
  decode-encode_client (jump_request c) text e x =
      envelope_back (read_client L) _ _ text _ e x (rw (position_field _ c _ refl) refl)
  decode-encode_client resign text e x = envelope_back (read_client L) _ _ text _ e x refl
  decode-encode_client play text e x = envelope_back (read_client L) _ _ text _ e x refl
  decode-encode_client create_room text e x = envelope_back (read_client L) _ _ text _ e x refl
  decode-encode_client (join_room n) text e x =
      envelope_back (read_client L) _ _ text _ e x (rw (text_field _ n _ refl) refl)
