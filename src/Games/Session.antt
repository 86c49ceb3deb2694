-- ===== src/Games/Session.antt =====
-- What a move of a game leaves alone of its session.
use supersociety_battleware.Base.{◌≡◌}
use supersociety_battleware.Types.{GameSession}

-- The session is the same one, with the same bet.
abbrev pub SameGame : GameSession → GameSession → Type 0
SameGame s s' =
    (s'.id ≡ s.id)
    × (s'.player ≡ s.player)
    × (s'.bet ≡ s.bet)
    × (s'.is_tournament ≡ s.is_tournament)
