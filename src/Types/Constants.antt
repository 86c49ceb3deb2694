-- ===== src/Types/Constants.antt =====
-- types/src/casino/constants.rs, and the limits of execution/src/layer/mod.rs.
use supersociety_battleware.Base.{ℕ}

abbrev pub PublicKey : Type 0
PublicKey = ℕ

abbrev pub starting_chips : ℕ
starting_chips = 1000

abbrev pub starting_shields : ℕ
starting_shields = 3

abbrev pub starting_doubles : ℕ
starting_doubles = 3

abbrev pub initial_chips : ℕ
initial_chips = 1000

abbrev pub total_supply : ℕ
total_supply = 1_000_000_000

abbrev pub annual_emission_rate_bps : ℕ
annual_emission_rate_bps = 500

abbrev pub reward_pool_bps : ℕ
reward_pool_bps = 2500

abbrev pub tournaments_per_day : ℕ
tournaments_per_day = 240

abbrev pub three_card_progressive_base_jackpot : ℕ
three_card_progressive_base_jackpot = 10_000

abbrev pub uth_progressive_base_jackpot : ℕ
uth_progressive_base_jackpot = 10_000

abbrev pub tournament_duration_secs : ℕ
tournament_duration_secs = 300

abbrev pub error_player_already_registered : ℕ
error_player_already_registered = 1

abbrev pub error_player_not_found : ℕ
error_player_not_found = 2

abbrev pub error_insufficient_funds : ℕ
error_insufficient_funds = 3

abbrev pub error_invalid_bet : ℕ
error_invalid_bet = 4

abbrev pub error_session_exists : ℕ
error_session_exists = 5

abbrev pub error_session_not_found : ℕ
error_session_not_found = 6

abbrev pub error_session_not_owned : ℕ
error_session_not_owned = 7

abbrev pub error_session_complete : ℕ
error_session_complete = 8

abbrev pub error_invalid_move : ℕ
error_invalid_move = 9

abbrev pub error_rate_limited : ℕ
error_rate_limited = 10

abbrev pub error_tournament_not_registering : ℕ
error_tournament_not_registering = 11

abbrev pub error_already_in_tournament : ℕ
error_already_in_tournament = 12

abbrev pub error_tournament_limit_reached : ℕ
error_tournament_limit_reached = 13
