-- ===== src/NodeState/Channel.antt =====
-- The notification channels of internal/controller/nodestate/impl.go, and the `select` that sends on
-- one without waiting.
use openshift_update_experie.Prelude.{
  ℕ, String, Bool, true, not, ◌&&◌, ◌||◌, List, [], ◌∷◌, ◌++◌, if◌then◌else◌, ltb, length,
}

-- A channel of events with a buffer; of an event's object only the name is used.
pub record Channel : Type 0 where
  pub queue : List String
  pub closed : Bool

-- `defaultChannelBufferSize`.
abbrev pub default_channel_buffer_size : ℕ
default_channel_buffer_size = 1024

-- What a `select` finds: whether the context is done, and, if it is and the send can proceed too,
-- whether the send is the case picked.
pub record Select : Type 0 where
  pub done : Bool
  pub picks_send : Bool

pub data Notified : Type 0 where
  delivered : Channel → Notified
  cancelled dropped send_panics : Notified

-- `NotifyNodeInsightControllers` and `NotifyMCPInsightControllers`. A send on a closed channel can
-- proceed, by a panic.
unfoldable pub notify : Select → Channel → String → Notified
notify s ch name =
    let can_send = ch.closed || ltb (length ch.queue) default_channel_buffer_size in
    if can_send && (not s.done || s.picks_send)
    then (if ch.closed
        then send_panics
        else delivered (record ch { queue = ch.queue ++ name ∷ [] }))
    else if s.done
    then cancelled
    else dropped

abbrev pub close : Channel → Channel
close ch = record ch { closed = true }
