-- ===== src/Api/Broker/Order.antt =====
-- A client sees events in the order in which they were broadcast, with gaps where a channel was full.
use mathlib.Core.List.{append_assoc, append-nil}
use fin_base.Base.{
  ℕ, ◌≡◌, refl, sym, subst, inl, inr, List, [], ◌∷◌, ◌++◌, arith, if◌then◌else◌, ltb, ◌==◌, length,
  Bool-cases,
}
use fin_base.Api.Broker.Sublists.{
  Sublist, nothing, Sublist_trans, Sublist_same_end, Sublist_longer, Sublist_start, Sublist_moved,
  Sublist_dropped,
}
use fin_base.Api.Broker.{
  SseEvent, log_message, company_json, SseBroker, new_sse_broker, try_send, broadcast_log,
  broadcast_update, subscribe, unsubscribe, relay_from, relay, Op, logs, updates, joins, leaves,
  relays, reads, take_step,
}
use fin_base.Api.Broker.Channels.{
  chan_of, first_of, send_all-chan_of, take_message-chan_of_ne, keep-chan_of_self, keep-chan_of_ne,
  subscribe-chan_of, take_message-chan_of_eq,
}

-- What the step gives to `broadcast`, moves on to the clients, and shows to client `id`.
sent_at : Op → List SseEvent
sent_at (logs now ticker status message) =
    record {
      event = "log";
      event_data =
          log_message
            (record { timestamp = now; ticker = ticker; status = status; message = message });
    }
    ∷ []
sent_at (updates json) = record { event = "company_update"; event_data = company_json json } ∷ []
sent_at (joins id) = []
sent_at (leaves id) = []
sent_at relays = []
sent_at (reads id) = []

relayed_at : Op → SseBroker → List SseEvent
relayed_at (logs now ticker status message) b = []
relayed_at (updates json) b = []
relayed_at (joins id) b = []
relayed_at (leaves id) b = []
relayed_at relays b = first_of b.broadcast
relayed_at (reads id) b = []

read_at : ℕ → Op → SseBroker → List SseEvent
read_at id (logs now ticker status message) b = []
read_at id (updates json) b = []
read_at id (joins k) b = []
read_at id (leaves k) b = []
read_at id relays b = []
read_at id (reads k) b = if k == id then first_of (chan_of id b.clients) else []

unfoldable pub sent : List Op → List SseEvent
unfolding sent_at
sent [] = []
sent (op ∷ ops) = sent_at op ++ sent ops

unfoldable relayed : SseBroker → List Op → List SseEvent
unfolding relayed_at
relayed b [] = []
relayed b (op ∷ ops) = relayed_at op b ++ relayed (take_step op b) ops

unfoldable pub seen_by : ℕ → SseBroker → List Op → List SseEvent
unfolding read_at
seen_by id b [] = []
seen_by id b (op ∷ ops) = read_at id op b ++ seen_by id (take_step op b) ops

relay_from-seen :
    (id : ℕ) (es : List SseEvent) (b : SseBroker) (xs zs : List SseEvent)
    → Sublist (xs ++ chan_of id b.clients) zs
    → Sublist ((xs ++ []) ++ chan_of id (relay_from es b).clients) (zs ++ first_of es)
unfolding relay_from
relay_from-seen id [] b xs zs h = Sublist_moved xs _ _ refl h
relay_from-seen id (e ∷ es) b xs zs h = elim (send_all-chan_of id e b.clients) [
  | inl q ↦ rw (q, append-nil xs) (Sublist_longer e h)
  | inr q ↦
      rw (q, append-nil xs)
        (subst (λ l. Sublist l (zs ++ e ∷ [])) (append_assoc xs (chan_of id b.clients) (e ∷ []))
          (Sublist_same_end e h))
]

-- The events a client has seen and those that wait for it stay among the relayed ones.
take_step-seen :
    (id : ℕ) (op : Op) (b : SseBroker) (xs zs : List SseEvent)
    → Sublist (xs ++ chan_of id b.clients) zs
    → Sublist
        ((xs ++ read_at id op b) ++ chan_of id (take_step op b).clients)
        (zs ++ relayed_at op b)
unfolding take_step read_at relayed_at broadcast_log broadcast_update unsubscribe relay
take_step-seen id (logs now ticker status message) b xs zs h = Sublist_moved xs _ _ refl h
take_step-seen id (updates json) b xs zs h = Sublist_moved xs _ _ refl h
take_step-seen id (joins k) b xs zs h = Sublist_moved xs _ _ (subscribe-chan_of id k b) h
take_step-seen id (leaves k) b xs zs h = elim (Bool-cases (k == id)) [
  | inl q ↦ Sublist_dropped xs _ (ground (arith, q, keep-chan_of_self k b.clients)) h
  | inr q ↦ Sublist_moved xs _ _ (keep-chan_of_ne id k b.clients q) h
]
take_step-seen id relays b xs zs h = relay_from-seen id b.broadcast b xs zs h
take_step-seen id (reads k) b xs zs h = elim (Bool-cases (k == id)) [
  | inl q ↦ rw q (Sublist_moved xs _ _ (take_message-chan_of_eq id k b.clients q) h)
  | inr q ↦ rw q (Sublist_moved xs _ _ (take_message-chan_of_ne id k b.clients q) h)
]

-- The relayed events and those that wait in `broadcast` stay among the sent ones.
try_send-sent :
    (e : SseEvent) (ch xs zs : List SseEvent)
    → Sublist (xs ++ ch) zs
    → Sublist ((xs ++ []) ++ try_send 100 e ch) (zs ++ e ∷ [])
try_send-sent e ch xs zs h = elim (Bool-cases (ltb (length ch) 100)) [
  | inl q ↦
      rw (q, append-nil xs)
        (subst (λ l. Sublist l (zs ++ e ∷ [])) (append_assoc xs ch (e ∷ [])) (Sublist_same_end e h))
  | inr q ↦ rw (q, append-nil xs) (Sublist_longer e h)
]

relay_from-sent :
    (es : List SseEvent) (b : SseBroker) (xs zs : List SseEvent)
    → b.broadcast ≡ es
    → Sublist (xs ++ es) zs
    → Sublist ((xs ++ first_of es) ++ (relay_from es b).broadcast) (zs ++ [])
unfolding relay_from
relay_from-sent [] b xs zs q h = Sublist_moved xs _ _ q h
relay_from-sent (e ∷ es) b xs zs q h = Sublist_moved xs _ _ refl h

subscribe-broadcast : (k : ℕ) (b : SseBroker) → (subscribe k b).broadcast ≡ b.broadcast
unfolding subscribe
subscribe-broadcast k b = ground arith

take_step-sent :
    (op : Op) (b : SseBroker) (xs zs : List SseEvent)
    → Sublist (xs ++ b.broadcast) zs
    → Sublist ((xs ++ relayed_at op b) ++ (take_step op b).broadcast) (zs ++ sent_at op)
unfolding take_step sent_at relayed_at broadcast_log broadcast_update unsubscribe relay
take_step-sent (logs now ticker status message) b xs zs h = try_send-sent _ b.broadcast xs zs h
take_step-sent (updates json) b xs zs h = try_send-sent _ b.broadcast xs zs h
take_step-sent (joins k) b xs zs h = Sublist_moved xs _ _ (subscribe-broadcast k b) h
take_step-sent (leaves k) b xs zs h = Sublist_moved xs _ _ refl h
take_step-sent relays b xs zs h = relay_from-sent b.broadcast b xs zs refl h
take_step-sent (reads k) b xs zs h = Sublist_moved xs _ _ refl h

seen_by-relayed :
    (id : ℕ) (ops : List Op) (b : SseBroker) (xs zs : List SseEvent)
    → Sublist (xs ++ chan_of id b.clients) zs
    → Sublist (xs ++ seen_by id b ops) (zs ++ relayed b ops)
unfolding seen_by relayed
seen_by-relayed id [] b xs zs h =
    rw (append-nil zs, append-nil xs) (Sublist_trans (Sublist_start xs (chan_of id b.clients)) h)
seen_by-relayed id (op ∷ ops) b xs zs h =
    rw
      (
        sym (append_assoc xs (read_at id op b) (seen_by id (take_step op b) ops)),
        sym (append_assoc zs (relayed_at op b) (relayed (take_step op b) ops)),
      )
      (seen_by-relayed id ops (take_step op b) (xs ++ read_at id op b) (zs ++ relayed_at op b)
        (take_step-seen id op b xs zs h))

relayed-sent :
    (ops : List Op) (b : SseBroker) (xs zs : List SseEvent)
    → Sublist (xs ++ b.broadcast) zs
    → Sublist (xs ++ relayed b ops) (zs ++ sent ops)
unfolding sent relayed
relayed-sent [] b xs zs h =
    rw (append-nil zs, append-nil xs) (Sublist_trans (Sublist_start xs b.broadcast) h)
relayed-sent (op ∷ ops) b xs zs h =
    rw
      (
        sym (append_assoc xs (relayed_at op b) (relayed (take_step op b) ops)),
        sym (append_assoc zs (sent_at op) (sent ops)),
      )
      (relayed-sent ops (take_step op b) (xs ++ relayed_at op b) (zs ++ sent_at op)
        (take_step-sent op b xs zs h))

-- From a new broker on, whoever joins, leaves and reads, and in any order: what a client sees is part of
-- what was broadcast, each event at most as often as it was sent, and in the order of sending.
pub seen_by-sent : (id : ℕ) (ops : List Op) → Sublist (seen_by id new_sse_broker ops) (sent ops)
unfolding new_sse_broker chan_of
seen_by-sent id ops =
    Sublist_trans (seen_by-relayed id ops new_sse_broker [] [] nothing)
      (relayed-sent ops new_sse_broker [] [] nothing)
