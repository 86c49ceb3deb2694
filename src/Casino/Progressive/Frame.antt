-- ===== src/Casino/Progressive/Frame.antt =====
-- The meters are no accounts.
use supersociety_battleware.Base.{arith}
use supersociety_battleware.Types.{PublicKey, GameSession}
use supersociety_battleware.Layer.{Layer, Leaves}
use supersociety_battleware.Layer.Frame.{IsSound, Keeps, frame_laws}
use supersociety_battleware.Casino.Progressive.{
  apply_three_card_progressive_meter, apply_uth_progressive_meter, apply_progressive_meters,
}
use supersociety_battleware.Casino.Interface.{GameResult}

pub apply_three_card_progressive_meter-Keeps :
    (q : PublicKey) (session : GameSession) (result : GameResult) (l : Layer)
    → IsSound l
    → Leaves (apply_three_card_progressive_meter session result l) (Keeps q l)
unfolding apply_three_card_progressive_meter
apply_three_card_progressive_meter-Keeps q session result l s = grind (arith, frame_laws)

pub apply_uth_progressive_meter-Keeps :
    (q : PublicKey) (session : GameSession) (result : GameResult) (l : Layer)
    → IsSound l
    → Leaves (apply_uth_progressive_meter session result l) (Keeps q l)
unfolding apply_uth_progressive_meter
apply_uth_progressive_meter-Keeps q session result l s = grind (arith, frame_laws)

pub apply_progressive_meters-Keeps :
    (q : PublicKey) (session : GameSession) (result : GameResult) (l : Layer)
    → IsSound l
    → Leaves (apply_progressive_meters session result l) (Keeps q l)
unfolding apply_progressive_meters
apply_progressive_meters-Keeps q session result l s = grind (
  arith,
  frame_laws,
  apply_three_card_progressive_meter-Keeps q,
  apply_uth_progressive_meter-Keeps q,
)
