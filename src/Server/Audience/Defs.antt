-- ===== src/Server/Audience/Defs.antt =====
-- match_audience.cpp: the seats and the watchers of a match. A published roster is immutable in the
-- source and every operation on it holds the mutex, so each is one step from a roster to the next.
use kung_fu_chess.Prelude.{
  has_value, ℕ, ◌+◌, ◌-◌, Bool, ◌==◌, leb, if◌then◌else◌, Option, none, some, List, [], ◌∷◌, ◌++◌,
  map, Result, ok, err, ◌>>=◌, bad_function_call,
}
use kung_fu_chess.Model.{PieceColor, white, black}

-- A callback is the socket that it writes to or closes. A CloseFn may be an empty std::function.
abbrev pub SendFn : Type 0
SendFn = ℕ

abbrev pub CloseFn : Type 0
CloseFn = Option ℕ

-- Character codes.
abbrev pub Name : Type 0
Name = List ℕ

pub record Watcher : Type 0 where
  pub id : ℕ
  pub send : SendFn
  pub close : CloseFn

-- The roster, and beside it what the source keeps next to the pointer to it.
pub record MatchAudience : Type 0 where
  pub white_send : Option SendFn
  pub black_send : Option SendFn
  pub white_close : Option CloseFn
  pub black_close : Option CloseFn
  pub white_username : Name
  pub black_username : Name
  pub white_rating : ℕ
  pub black_rating : ℕ
  pub watchers : List Watcher
  pub watcher_count : ℕ
  pub seats_filled : ℕ
  pub next_watcher_id : ℕ

abbrev pub new_audience : MatchAudience
new_audience = record {
  white_send = none;
  black_send = none;
  white_close = none;
  black_close = none;
  white_username = [];
  black_username = [];
  white_rating = 0;
  black_rating = 0;
  watchers = [];
  watcher_count = 0;
  seats_filled = 0;
  next_watcher_id = 1;
}

abbrev pub max_spectators : ℕ
max_spectators = 5000

unfoldable pub seat :
    Name → ℕ → SendFn → CloseFn → MatchAudience → Option PieceColor × MatchAudience
seat name rating send close a =
    if has_value a.white_send
    then (if has_value a.black_send then (none, a) else (
      some black,
      record a {
        black_send = some send;
        black_close = some close;
        black_username = name;
        black_rating = rating;
        seats_filled = a.seats_filled + 1;
      },
    ))
    else (
      some white,
      record a {
        white_send = some send;
        white_close = some close;
        white_username = name;
        white_rating = rating;
        seats_filled = a.seats_filled + 1;
      },
    )

-- 0 says that nobody was added.
unfoldable pub watch : SendFn → CloseFn → MatchAudience → ℕ × MatchAudience
watch send close a = if leb max_spectators a.watcher_count then (0, a) else (
  a.next_watcher_id,
  record a {
    watchers = record { id = a.next_watcher_id; send = send; close = close } ∷ a.watchers;
    watcher_count = a.watcher_count + 1;
    next_watcher_id = a.next_watcher_id + 1;
  },
)

-- The list without its first node of this id, or none when it has no such node.
unfoldable pub without : ℕ → List Watcher → Option (List Watcher)
without id [] = none
without id (w ∷ ws) =
    let rest = without id ws in
    if w.id == id then some ws else elim rest [ none ↦ none | some vs ↦ some (w ∷ vs) ]

-- An unknown id changes nothing.
unfoldable pub publish : Option (List Watcher) → MatchAudience → MatchAudience
publish none a = a
publish (some ws) a = record a { watchers = ws; watcher_count = a.watcher_count - 1 }

unfoldable pub unwatch : ℕ → MatchAudience → MatchAudience
unfolding publish without
unwatch id a = publish (without id a.watchers) a

unfoldable pub reseat : PieceColor → SendFn → CloseFn → MatchAudience → MatchAudience
reseat white send close a = record a { white_send = some send; white_close = some close }
reseat black send close a = record a { black_send = some send; black_close = some close }

abbrev pub both_seats_taken : MatchAudience → Bool
both_seats_taken a = a.seats_filled == 2

unfoldable pub username_of : PieceColor → MatchAudience → Name
username_of white a = a.white_username
username_of black a = a.black_username

unfoldable pub rating_of : PieceColor → MatchAudience → ℕ
rating_of white a = a.white_rating
rating_of black a = a.black_rating

abbrev pub to_list : {A : Type 0} → Option A → List A
to_list none = []
to_list (some a) = a ∷ []

-- The sockets that `broadcast` writes to, in its order.
unfoldable pub broadcast : MatchAudience → List SendFn
broadcast a = to_list a.white_send ++ (to_list a.black_send ++ map (λ w. w.send) a.watchers)

-- The sockets that `send_to` writes to.
unfoldable pub send_to : PieceColor → MatchAudience → List SendFn
send_to white a = to_list a.white_send
send_to black a = to_list a.black_send

-- A seat's close is called whether or not there is a function in it.
unfoldable pub close_seat : Option CloseFn → Result (List ℕ)
close_seat none = ok []
close_seat (some none) = err bad_function_call
close_seat (some (some socket)) = ok (socket ∷ [])

-- A watcher's close is called only if there is one.
unfoldable pub close_watchers : List Watcher → List ℕ
close_watchers [] = []
close_watchers (w ∷ ws) = to_list w.close ++ close_watchers ws

-- The sockets that are closed, in order.
unfoldable pub release_all : MatchAudience → Result (List ℕ)
unfolding close_seat close_watchers
release_all a = do
  white_closed ← close_seat a.white_close
  black_closed ← close_seat a.black_close
  ok (white_closed ++ (black_closed ++ close_watchers a.watchers))

pub data Visit : Type 0 where
  seats : Name → ℕ → SendFn → CloseFn → Visit
  watches : SendFn → CloseFn → Visit
  leaves : ℕ → Visit
  reseats : PieceColor → SendFn → CloseFn → Visit

unfoldable pub visit : Visit → MatchAudience → MatchAudience
unfolding seat watch unwatch reseat
visit (seats name rating send close) a = (seat name rating send close a).1
visit (watches send close) a = (watch send close a).1
visit (leaves id) a = unwatch id a
visit (reseats color send close) a = reseat color send close a

unfoldable pub visit_all : List Visit → MatchAudience → MatchAudience
unfolding visit
visit_all [] a = a
visit_all (v ∷ vs) a = visit_all vs (visit v a)
