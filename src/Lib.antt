-- ===== src/Lib.antt =====
-- Verification of Kung Fu Chess: the simulation core of the game and its text-driven program (logic/),
-- the server that plays matches over it (server/), and the messages between it and its clients (protocol/).
--
-- The program. Pieces move without turns: a move takes time, a piece rests after it, and what it
-- meets is decided when it arrives. Board keeps the pieces; the movement rules and RuleEngine say
-- where a piece may go; RealTimeArbiter keeps the motions in flight and the cooldowns, and touches
-- the board when a motion starts and when it arrives; GameEngine is the boundary at which moves,
-- jumps and time come in, and GameCore holds all of these. A Match of the server owns a GameCore,
-- a MatchAudience of two seats and the spectators, a DisconnectWatch, and a queue of commands that
-- only a tick applies. A RoomManager keeps a Match for each room, pairs players by rating or by a
-- room's name, and gives each match to a worker of its MatchScheduler. A ClientSession is one
-- connection: it logs in under a lease of the SessionRegistry, asks the RoomManager for a seat, and
-- passes its commands on to that seat's match. The program kfc_app plays one game from a script of
-- clicks, jumps and waits.
--
-- Files and sources:
--   Prelude: names and lemmas that the others share; exceptions are values of `Result`, and Strings and Options
--     have the comparison of two std::strings and the test of a std::optional.
--   Model: logic/include/kfc/model/{position,piece}.hpp; Model/Board: logic/src/kfc/model/board.cpp
--     (make_board, in_bounds, piece_at, add_piece, set_piece_state, remove_piece, move_piece).
--   Rules: logic/src/kfc/rules: Geometry is movement_geometry.cpp, Pieces the rule classes, the pawn
--     rule and the registry, Engine is rule_engine.cpp; the other files are proofs.
--   RealTime: logic/src/kfc/realtime: Factory is motion_factory.cpp with its policies, Collision is
--     collision_resolver.cpp and pawn_promotion.hpp, Arbiter is real_time_arbiter.cpp (State,
--     Arrivals, Steps), Observers are game_over_observer.cpp and score_observer.cpp; the other files are proofs.
--   Engine: Core is logic/src/kfc/engine/{game_engine,game_core}.cpp; the other files are proofs.
--   Server: DisconnectWatch is server/src/kfc/server/disconnect_watch.cpp, Audience is
--     match_audience.cpp, Match is match.cpp (State its fields, Apply the commands, Ticking the tick,
--     Members the rest; the other files are proofs), RateLimiter is rate_limiter.cpp, Messages is `snapshot_of` and
--     protocol/include/kfc/protocol/messages.hpp. MatchScheduler is match_scheduler.cpp, Rooms is
--     room_manager.cpp (State, Waiting, Opening, Joining, Leaving; the other files of Rooms are proofs, of
--     which Invariant states what holds between operations), SessionRegistry is session_registry.cpp,
--     AuthTokens is auth_token_store.cpp, and ClientSession is client_session.cpp (Defs, Handling).
--   Input: logic/src/kfc/input: Mapper is board_mapper.cpp, Clicking is controller.cpp, which takes the
--     engine through the interface MoveRequester; Selection is proofs.
--   Io: logic/src/kfc/io: Tokens is piece_token.cpp and text_tokenizer.cpp, Parser is board_parser.cpp,
--     Printer is board_printer.cpp; MoveLog is logic/src/kfc/realtime/move_log_observer.cpp; the other
--     files are proofs.
--   Scripts: Reader is logic/src/kfc/texttests/input_reader.cpp, Game is texttests/game.cpp, Bus is
--     logic/include/kfc/events/event_bus.hpp with logic/src/kfc/audio/sound_board.cpp, Turns composes the two to a
--     whole game, of which a player of sounds is the listener, Processor is texttests/command_processor.cpp and
--     logic/apps/kfc_app/main.cpp; the other files are proofs.
--   Protocol: protocol/src/kfc/protocol/json.cpp: Keys are its names, Values its values, Client and Host
--     the messages of a client and of a server, Redaction is what the log gets of a text; Library is what
--     it uses of nlohmann::json, as an interface. Delivery composes it with server/src/kfc/server/client_session.cpp,
--     whose `on_text` decodes the text and handles the message. The other files are proofs.
--   Tests: runs on small boards and texts, and each theorem at inputs that meet its hypotheses.
--
-- How the code is modelled. Coordinates are signed integers, and board sizes, ids, ratings and times
-- natural numbers, all without a width, but for the revision of a match, which wraps at 64 bits. A
-- step of time is not negative, as the callers have it. Durations are quotients of millimetres and
-- millimetres per second where the source has doubles. Objects that hold references to one another
-- are one state that is passed along. The unordered map of cooldowns is an association list. A
-- walk over the board has the fuel height + width + 1, more than the squares of any straight line
-- on it. An operation that holds a mutex is one step, and a sequence of happenings is any order
-- of such steps; the finer interleavings of a tick with other threads, or of one RoomManager operation's
-- critical sections with another's, are not modelled. What a match sends, closes or reports is a list of
-- effects, its messages not yet encoded. A handler on
-- the bus of events is a function of the state that it refers to; that it might throw, or publish in its
-- turn, is left out. A text is the list of its characters' codes. The redaction of a
-- text has as much fuel as the text has characters and one more, since each turn passes a key, and the
-- printing of a number n has n + 1, since each turn divides by ten.
--
-- Not modelled: logging, apart from the redaction of what is logged; sockets, HTTP and the database,
-- which are calls of third-party libraries; the threads of the scheduler; the metrics; the
-- client and its drawing.
pub mod Prelude
pub mod Model
pub mod Rules
pub mod RealTime
pub mod Engine
pub mod Server
pub mod Input
pub mod Io
pub mod Protocol
pub mod Scripts
pub mod Tests
