-- ===== src/NodeState/Controller/Sends.antt =====
-- What a notification does to its channel (internal/controller/nodestate/impl.go).
use openshift_update_experie.Prelude.{◌≤◌, ◌<◌, String, ◌≡◌, false, [], ◌∷◌, ◌++◌, length, arith}
use openshift_update_experie.NodeState.Channel.{
  Channel, Select, notify, delivered, dropped, default_channel_buffer_size,
}

-- An event is delivered on an open channel only, at the end of its queue, and only if there was room.
pub notify-delivered :
    (s : Select) (ch after : Channel) (name : String)
    → notify s ch name ≡ delivered after
    → (after ≡ record ch { queue = ch.queue ++ name ∷ [] })
      × (ch.closed ≡ false)
      × (length ch.queue < default_channel_buffer_size)
unfolding notify
notify-delivered s ch after name h = ground (arith)

-- A notification never waits: a channel that is open and has room takes the event while the context
-- is not done; a full one drops it.
pub notify_open :
    (s : Select) (ch : Channel) (name : String)
    → s.done ≡ false
    → ch.closed ≡ false
    → ((length ch.queue < default_channel_buffer_size
          → notify s ch name ≡ delivered (record ch { queue = ch.queue ++ name ∷ [] }))
        × (default_channel_buffer_size ≤ length ch.queue → notify s ch name ≡ dropped))
unfolding notify
notify_open s ch name h k = (λ l. ground arith, λ l. ground arith)
