-- ===== src/Api/Broker.antt =====
-- `SSEBroker` of api/api.go. Its channels are lists: the broadcast channel holds 100 events, each
-- client's channel 10. A client is the number of its channel; what `listen` does for one message, a
-- broadcast from elsewhere and a client's read of its channel are one step each.
pub mod Laws
pub mod Order
pub mod Channels
pub mod Sublists
use fin_base.Base.{
  ℕ, String, Bool, true, false, not, List, [], ◌∷◌, ◌++◌, Option, none, some, if◌then◌else◌, ltb,
  ◌==◌, length, any, find, keep,
}

pub record SseLogMessage : Type 0 where
  pub timestamp : ℕ
  pub ticker : String
  pub status : String
  pub message : String

-- The `any` that an event carries: a log message, or a company as its JSON.
pub data SseData : Type 0 where
  log_message : SseLogMessage → SseData
  company_json : String → SseData

pub record SseEvent : Type 0 where
  pub event : String
  pub event_data : SseData

pub record Subscriber : Type 0 where
  pub id : ℕ
  pub message_chan : List SseEvent

pub record SseBroker : Type 0 where
  pub clients : List Subscriber
  pub broadcast : List SseEvent

unfoldable pub new_sse_broker : SseBroker
new_sse_broker = record { clients = []; broadcast = [] }

-- `select { case ch <- event: default: }` on a channel of size `n`.
abbrev pub try_send : ℕ → SseEvent → List SseEvent → List SseEvent
try_send n e ch = if ltb (length ch) n then ch ++ e ∷ [] else ch

abbrev pub with_broadcast : SseEvent → SseBroker → SseBroker
with_broadcast e b = record b { broadcast = try_send 100 e b.broadcast }

-- The log message's `Timestamp` is the moment `now`.
unfoldable pub broadcast_log : ℕ → String → String → String → SseBroker → SseBroker
broadcast_log now ticker status message = with_broadcast (record {
  event = "log";
  event_data =
      log_message (record { timestamp = now; ticker = ticker; status = status; message = message });
})

unfoldable pub broadcast_update : String → SseBroker → SseBroker
broadcast_update json =
    with_broadcast (record { event = "company_update"; event_data = company_json json })

abbrev pub is_client : ℕ → Subscriber → Bool
is_client id c = c.id == id

-- `b.clients[s] = true`, for the new channel `id`.
unfoldable pub subscribe : ℕ → SseBroker → SseBroker
subscribe id b =
    if any (is_client id) b.clients
    then b
    else record b { clients = record { id = id; message_chan = [] } ∷ b.clients }

-- `delete(b.clients, s)`
unfoldable pub unsubscribe : ℕ → SseBroker → SseBroker
unsubscribe id b = record b { clients = keep (λ c. not (is_client id c)) b.clients }

-- The loop over the clients: a slow one misses the event.
unfoldable pub send_all : SseEvent → List Subscriber → List Subscriber
send_all e [] = []
send_all e (c ∷ cs) = record c { message_chan = try_send 10 e c.message_chan } ∷ send_all e cs

relay_from : List SseEvent → SseBroker → SseBroker
unfolding send_all
relay_from [] b = b
relay_from (e ∷ es) b = record { clients = send_all e b.clients; broadcast = es }

-- `case event := <-b.broadcast`
unfoldable pub relay : SseBroker → SseBroker
unfolding relay_from
relay b = relay_from b.broadcast b

abbrev pub rest_of : List SseEvent → List SseEvent
rest_of [] = []
rest_of (e ∷ es) = es

-- `case event, ok := <-messageChan` of `ServeHTTP`
unfoldable pub take_message : ℕ → List Subscriber → List Subscriber
take_message id [] = []
take_message id (c ∷ cs) =
    (if is_client id c then record c { message_chan = rest_of c.message_chan } else c)
    ∷ take_message id cs

pub data Op : Type 0 where
  logs : ℕ → String → String → String → Op
  updates : String → Op
  joins : ℕ → Op
  leaves : ℕ → Op
  relays : Op
  reads : ℕ → Op

unfoldable pub take_step : Op → SseBroker → SseBroker
unfolding broadcast_log broadcast_update subscribe unsubscribe relay take_message
take_step (logs now ticker status message) b = broadcast_log now ticker status message b
take_step (updates json) b = broadcast_update json b
take_step (joins id) b = subscribe id b
take_step (leaves id) b = unsubscribe id b
take_step relays b = relay b
take_step (reads id) b = record b { clients = take_message id b.clients }

unfoldable pub run_ops : SseBroker → List Op → SseBroker
unfolding take_step
run_ops b [] = b
run_ops b (op ∷ ops) = run_ops (take_step op b) ops
