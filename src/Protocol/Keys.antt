-- ===== src/Protocol/Keys.antt =====
-- The keys and the type names of protocol/src/kfc/protocol/json.cpp, each the list of its characters' codes.
use kung_fu_chess.Prelude.{[], ◌∷◌}
use kung_fu_chess.Server.Audience.{Name}

abbrev pub type_key : Name
type_key = 116 ∷ 121 ∷ 112 ∷ 101 ∷ []

abbrev pub payload_key : Name
payload_key = 112 ∷ 97 ∷ 121 ∷ 108 ∷ 111 ∷ 97 ∷ 100 ∷ []

abbrev pub source_key : Name
source_key = 115 ∷ 111 ∷ 117 ∷ 114 ∷ 99 ∷ 101 ∷ []

abbrev pub destination_key : Name
destination_key = 100 ∷ 101 ∷ 115 ∷ 116 ∷ 105 ∷ 110 ∷ 97 ∷ 116 ∷ 105 ∷ 111 ∷ 110 ∷ []

abbrev pub cell_key : Name
cell_key = 99 ∷ 101 ∷ 108 ∷ 108 ∷ []

abbrev pub row_key : Name
row_key = 114 ∷ 111 ∷ 119 ∷ []

abbrev pub col_key : Name
col_key = 99 ∷ 111 ∷ 108 ∷ []

abbrev pub id_key : Name
id_key = 105 ∷ 100 ∷ []

abbrev pub color_key : Name
color_key = 99 ∷ 111 ∷ 108 ∷ 111 ∷ 114 ∷ []

abbrev pub kind_key : Name
kind_key = 107 ∷ 105 ∷ 110 ∷ 100 ∷ []

abbrev pub state_key : Name
state_key = 115 ∷ 116 ∷ 97 ∷ 116 ∷ 101 ∷ []

abbrev pub has_moved_key : Name
has_moved_key = 104 ∷ 97 ∷ 115 ∷ 95 ∷ 109 ∷ 111 ∷ 118 ∷ 101 ∷ 100 ∷ []

abbrev pub moved_piece_key : Name
moved_piece_key = 109 ∷ 111 ∷ 118 ∷ 101 ∷ 100 ∷ 95 ∷ 112 ∷ 105 ∷ 101 ∷ 99 ∷ 101 ∷ []

abbrev pub was_promotion_key : Name
was_promotion_key = 119 ∷ 97 ∷ 115 ∷ 95 ∷ 112 ∷ 114 ∷ 111 ∷ 109 ∷ 111 ∷ 116 ∷ 105 ∷ 111 ∷ 110 ∷ []

abbrev pub arrived_at_key : Name
arrived_at_key = 97 ∷ 114 ∷ 114 ∷ 105 ∷ 118 ∷ 101 ∷ 100 ∷ 95 ∷ 97 ∷ 116 ∷ 95 ∷ 109 ∷ 115 ∷ []

abbrev pub captured_piece_key : Name
captured_piece_key =
    99 ∷ 97 ∷ 112 ∷ 116 ∷ 117 ∷ 114 ∷ 101 ∷ 100 ∷ 95 ∷ 112 ∷ 105 ∷ 101 ∷ 99 ∷ 101 ∷ []

abbrev pub moving_piece_key : Name
moving_piece_key = 109 ∷ 111 ∷ 118 ∷ 105 ∷ 110 ∷ 103 ∷ 95 ∷ 112 ∷ 105 ∷ 101 ∷ 99 ∷ 101 ∷ []

abbrev pub duration_key : Name
duration_key = 100 ∷ 117 ∷ 114 ∷ 97 ∷ 116 ∷ 105 ∷ 111 ∷ 110 ∷ 95 ∷ 109 ∷ 115 ∷ []

abbrev pub elapsed_key : Name
elapsed_key = 101 ∷ 108 ∷ 97 ∷ 112 ∷ 115 ∷ 101 ∷ 100 ∷ 95 ∷ 109 ∷ 115 ∷ []

abbrev pub cooldown_key : Name
cooldown_key = 99 ∷ 111 ∷ 111 ∷ 108 ∷ 100 ∷ 111 ∷ 119 ∷ 110 ∷ 95 ∷ 109 ∷ 115 ∷ []

abbrev pub width_key : Name
width_key = 119 ∷ 105 ∷ 100 ∷ 116 ∷ 104 ∷ []

abbrev pub height_key : Name
height_key = 104 ∷ 101 ∷ 105 ∷ 103 ∷ 104 ∷ 116 ∷ []

abbrev pub pieces_key : Name
pieces_key = 112 ∷ 105 ∷ 101 ∷ 99 ∷ 101 ∷ 115 ∷ []

abbrev pub username_key : Name
username_key = 117 ∷ 115 ∷ 101 ∷ 114 ∷ 110 ∷ 97 ∷ 109 ∷ 101 ∷ []

abbrev pub password_key : Name
password_key = 112 ∷ 97 ∷ 115 ∷ 115 ∷ 119 ∷ 111 ∷ 114 ∷ 100 ∷ []

abbrev pub name_key : Name
name_key = 110 ∷ 97 ∷ 109 ∷ 101 ∷ []

abbrev pub login_type : Name
login_type = 76 ∷ 111 ∷ 103 ∷ 105 ∷ 110 ∷ []

abbrev pub move_type : Name
move_type = 77 ∷ 111 ∷ 118 ∷ 101 ∷ []

abbrev pub jump_type : Name
jump_type = 74 ∷ 117 ∷ 109 ∷ 112 ∷ []

abbrev pub resign_type : Name
resign_type = 82 ∷ 101 ∷ 115 ∷ 105 ∷ 103 ∷ 110 ∷ []

abbrev pub play_type : Name
play_type = 80 ∷ 108 ∷ 97 ∷ 121 ∷ []

abbrev pub create_room_type : Name
create_room_type = 67 ∷ 114 ∷ 101 ∷ 97 ∷ 116 ∷ 101 ∷ 82 ∷ 111 ∷ 111 ∷ 109 ∷ []

abbrev pub join_room_type : Name
join_room_type = 74 ∷ 111 ∷ 105 ∷ 110 ∷ 82 ∷ 111 ∷ 111 ∷ 109 ∷ []

abbrev pub assigned_color_key : Name
assigned_color_key =
    97 ∷ 115 ∷ 115 ∷ 105 ∷ 103 ∷ 110 ∷ 101 ∷ 100 ∷ 95 ∷ 99 ∷ 111 ∷ 108 ∷ 111 ∷ 114 ∷ []

abbrev pub board_key : Name
board_key = 98 ∷ 111 ∷ 97 ∷ 114 ∷ 100 ∷ []

abbrev pub spectator_key : Name
spectator_key = 115 ∷ 112 ∷ 101 ∷ 99 ∷ 116 ∷ 97 ∷ 116 ∷ 111 ∷ 114 ∷ []

abbrev pub room_key : Name
room_key = 114 ∷ 111 ∷ 111 ∷ 109 ∷ []

abbrev pub history_key : Name
history_key = 104 ∷ 105 ∷ 115 ∷ 116 ∷ 111 ∷ 114 ∷ 121 ∷ []

abbrev pub revision_key : Name
revision_key = 114 ∷ 101 ∷ 118 ∷ 105 ∷ 115 ∷ 105 ∷ 111 ∷ 110 ∷ []

abbrev pub white_username_key : Name
white_username_key =
    119 ∷ 104 ∷ 105 ∷ 116 ∷ 101 ∷ 95 ∷ 117 ∷ 115 ∷ 101 ∷ 114 ∷ 110 ∷ 97 ∷ 109 ∷ 101 ∷ []

abbrev pub black_username_key : Name
black_username_key =
    98 ∷ 108 ∷ 97 ∷ 99 ∷ 107 ∷ 95 ∷ 117 ∷ 115 ∷ 101 ∷ 114 ∷ 110 ∷ 97 ∷ 109 ∷ 101 ∷ []

abbrev pub white_rating_key : Name
white_rating_key = 119 ∷ 104 ∷ 105 ∷ 116 ∷ 101 ∷ 95 ∷ 114 ∷ 97 ∷ 116 ∷ 105 ∷ 110 ∷ 103 ∷ []

abbrev pub black_rating_key : Name
black_rating_key = 98 ∷ 108 ∷ 97 ∷ 99 ∷ 107 ∷ 95 ∷ 114 ∷ 97 ∷ 116 ∷ 105 ∷ 110 ∷ 103 ∷ []

abbrev pub motion_key : Name
motion_key = 109 ∷ 111 ∷ 116 ∷ 105 ∷ 111 ∷ 110 ∷ []

abbrev pub arrival_events_key : Name
arrival_events_key =
    97 ∷ 114 ∷ 114 ∷ 105 ∷ 118 ∷ 97 ∷ 108 ∷ 95 ∷ 101 ∷ 118 ∷ 101 ∷ 110 ∷ 116 ∷ 115 ∷ []

abbrev pub reason_key : Name
reason_key = 114 ∷ 101 ∷ 97 ∷ 115 ∷ 111 ∷ 110 ∷ []

abbrev pub winner_key : Name
winner_key = 119 ∷ 105 ∷ 110 ∷ 110 ∷ 101 ∷ 114 ∷ []

abbrev pub seconds_key : Name
seconds_key =
    115 ∷ 101 ∷ 99 ∷ 111 ∷ 110 ∷ 100 ∷ 115 ∷ 95 ∷ 114 ∷ 101 ∷ 109 ∷ 97 ∷ 105 ∷ 110 ∷ 105 ∷ 110 ∷ 103
    ∷ []

abbrev pub url_key : Name
url_key = 117 ∷ 114 ∷ 108 ∷ []

abbrev pub welcome_type : Name
welcome_type = 87 ∷ 101 ∷ 108 ∷ 99 ∷ 111 ∷ 109 ∷ 101 ∷ []

abbrev pub motion_started_type : Name
motion_started_type = 77 ∷ 111 ∷ 116 ∷ 105 ∷ 111 ∷ 110 ∷ 83 ∷ 116 ∷ 97 ∷ 114 ∷ 116 ∷ 101 ∷ 100 ∷ []

abbrev pub board_update_type : Name
board_update_type = 66 ∷ 111 ∷ 97 ∷ 114 ∷ 100 ∷ 85 ∷ 112 ∷ 100 ∷ 97 ∷ 116 ∷ 101 ∷ []

abbrev pub move_rejected_type : Name
move_rejected_type = 77 ∷ 111 ∷ 118 ∷ 101 ∷ 82 ∷ 101 ∷ 106 ∷ 101 ∷ 99 ∷ 116 ∷ 101 ∷ 100 ∷ []

abbrev pub game_over_type : Name
game_over_type = 71 ∷ 97 ∷ 109 ∷ 101 ∷ 79 ∷ 118 ∷ 101 ∷ 114 ∷ []

abbrev pub opponent_disconnected_type : Name
opponent_disconnected_type =
    79 ∷ 112 ∷ 112 ∷ 111 ∷ 110 ∷ 101 ∷ 110 ∷ 116 ∷ 68 ∷ 105 ∷ 115 ∷ 99 ∷ 111 ∷ 110 ∷ 110 ∷ 101 ∷ 99
    ∷ 116 ∷ 101 ∷ 100 ∷ []

abbrev pub match_start_type : Name
match_start_type = 77 ∷ 97 ∷ 116 ∷ 99 ∷ 104 ∷ 83 ∷ 116 ∷ 97 ∷ 114 ∷ 116 ∷ []

abbrev pub join_failed_type : Name
join_failed_type = 74 ∷ 111 ∷ 105 ∷ 110 ∷ 70 ∷ 97 ∷ 105 ∷ 108 ∷ 101 ∷ 100 ∷ []

abbrev pub join_redirect_type : Name
join_redirect_type = 74 ∷ 111 ∷ 105 ∷ 110 ∷ 82 ∷ 101 ∷ 100 ∷ 105 ∷ 114 ∷ 101 ∷ 99 ∷ 116 ∷ []

abbrev pub login_failed_type : Name
login_failed_type = 76 ∷ 111 ∷ 103 ∷ 105 ∷ 110 ∷ 70 ∷ 97 ∷ 105 ∷ 108 ∷ 101 ∷ 100 ∷ []

abbrev pub opponent_reconnected_type : Name
opponent_reconnected_type =
    79 ∷ 112 ∷ 112 ∷ 111 ∷ 110 ∷ 101 ∷ 110 ∷ 116 ∷ 82 ∷ 101 ∷ 99 ∷ 111 ∷ 110 ∷ 110 ∷ 101 ∷ 99 ∷ 116
    ∷ 101 ∷ 100 ∷ []
