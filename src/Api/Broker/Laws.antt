-- ===== src/Api/Broker/Laws.antt =====
-- What the broker promises: bounded channels, and to each client the events in order.
use fin_base.Base.{◌≤◌, length, All}
use fin_base.Api.Broker.{Subscriber, SseBroker}

-- The channels hold no more than they can.
abbrev pub IsBounded : SseBroker → Type 0
IsBounded b =
    (length b.broadcast ≤ 100) × All (λ (c : Subscriber). length c.message_chan ≤ 10) b.clients
