-- ===== src/Sse.antt =====
-- internal/sse/bus.go. A channel is known by the number that it was made with; each method is one
-- critical section.
pub mod Delivery
mod Tests
use clamav_webui.Prelude.{
  ℕ, suc, String, Bool, true, false, Option, none, some, List, [], ◌∷◌, ◌==◌, nat_eq,
}
use clamav_webui.Prelude.Map
use clamav_webui.Prelude.Map.{Map, insert, delete}
use clamav_webui.Prelude.Channel.{offer}

pub record Event (D : Type 0) : Type 0 where
  pub kind : String
  pub payload : D

abbrev pub subscriber_cap : ℕ
subscriber_cap = 64

-- `subs` has what waits in the buffer of each subscribed channel; `made` counts the channels.
pub record Bus (D : Type 0) : Type 0 where
  pub subs : Map ℕ (List (Event D))
  pub made : ℕ

module _ {D : Type 0} where
  unfoldable pub new_bus : Bus D
  new_bus = record { subs = Map.empty; made = 0 }

  unfoldable pub subscribe : Bus D → Bus D × ℕ
  subscribe b = (record { subs = insert b.made [] b.subs; made = suc b.made }, b.made)

  -- The function that `Subscribe` returns. `once` makes its second call do nothing, and so does the
  -- removal of a key that is not there.
  unfoldable pub cancel : ℕ → Bus D → Bus D
  cancel ch b = record b { subs = delete ch b.subs }

  offer_to : Event D → Option (List (Event D)) → Option (List (Event D))
  offer_to ev none = none
  offer_to ev (some q) = some (offer subscriber_cap ev q).0

  unfoldable pub publish : Event D → Bus D → Bus D
  unfolding offer_to
  publish ev b = record b { subs = λ ch. offer_to ev (b.subs ch) }

  take_from : ℕ → Option (List (Event D)) → Bus D → Bus D × Option (Event D)
  take_from ch none b = (b, none)
  take_from ch (some []) b = (b, none)
  take_from ch (some (ev ∷ q)) b = (record b { subs = insert ch q b.subs }, some ev)

  -- A receive by the subscriber
  unfoldable pub receive : ℕ → Bus D → Bus D × Option (Event D)
  unfolding take_from
  receive ch b = take_from ch (b.subs ch) b
