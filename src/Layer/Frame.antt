-- ===== src/Layer/Frame.antt =====
-- What the handlers leave alone: the accounts, the state under the layer, and that each key is
-- pending once.
use supersociety_battleware.Base.{◌≡◌, refl}
use supersociety_battleware.Types.{PublicKey, Key, Value}
use supersociety_battleware.Layer.Store.{Layer, Status, insert}
use supersociety_battleware.Layer.Views.{load_account, load_account-insert, view_laws}
use supersociety_battleware.Layer.Commit.{IsDistinct, IsDistinct-pending_insert}

-- Each key is pending once.
unfoldable pub IsSound : Layer → Type 0
IsSound l = IsDistinct l.pending

pub insert-IsSound : (k : Key) (v : Value) (l : Layer) → IsSound l → IsSound (insert k v l)
unfolding IsSound insert
insert-IsSound k v l s = IsDistinct-pending_insert k (Status.update v) l.pending s

pub state-insert : (k : Key) (v : Value) (l : Layer) → (insert k v l).state ≡ l.state
unfolding insert
state-insert k v l = refl

-- The account is as it was, and so is the state below.
abbrev pub Keeps : PublicKey → Layer → Layer → Type 0
Keeps q l l' = (load_account q l' ≡ load_account q l) × (l'.state ≡ l.state) × IsSound l'

pub ruleset frame_laws = (view_laws, insert-IsSound, state-insert)
