-- ===== src/Api/Broker/Channels.antt =====
-- What each step of the broker of api/api.go does to one client's channel.
use fin_base.Base.{
  ℕ, ◌≡◌, refl, ap, ◌∙◌, subst, ◌⊎◌, inl, inr, true, false, not, List, [], ◌∷◌, ◌++◌, arith,
  if◌then◌else◌, ltb, ◌==◌, length, any, keep, Bool-cases,
}
use fin_base.Api.Broker.{
  SseEvent, Subscriber, SseBroker, is_client, subscribe, send_all, rest_of, take_message,
}

-- What waits in a client's channel; nothing where there is no such client.
unfoldable pub chan_of : ℕ → List Subscriber → List SseEvent
chan_of id [] = []
chan_of id (c ∷ cs) = let rest = chan_of id cs in if is_client id c then c.message_chan else rest

pub send_all-chan_of :
    (id : ℕ) (e : SseEvent) (cs : List Subscriber)
    → (chan_of id (send_all e cs) ≡ chan_of id cs)
      ⊎ (chan_of id (send_all e cs) ≡ chan_of id cs ++ e ∷ [])
unfolding chan_of send_all
send_all-chan_of id e [] = inl refl
send_all-chan_of id e (c ∷ cs) = elim (Bool-cases (is_client id c)) [
  | inr q ↦ rw q (send_all-chan_of id e cs)
  | inl q ↦ elim (Bool-cases (ltb (length c.message_chan) 10)) [
    | inl room ↦ inr (rw (q, room) refl)
    | inr full ↦ inl (rw (q, full) refl)
  ]
]

take_message-chan_of_self :
    (id : ℕ) (cs : List Subscriber) → chan_of id (take_message id cs) ≡ rest_of (chan_of id cs)
unfolding chan_of take_message
take_message-chan_of_self id [] = refl
take_message-chan_of_self id (c ∷ cs) = elim (Bool-cases (is_client id c)) [
  | inl q ↦ rw (q, q) refl
  | inr q ↦ rw (q, q) (take_message-chan_of_self id cs)
]

pub take_message-chan_of_ne :
    (id k : ℕ) (cs : List Subscriber)
    → (k == id) ≡ false
    → chan_of id (take_message k cs) ≡ chan_of id cs
unfolding chan_of take_message
take_message-chan_of_ne id k [] h = refl
take_message-chan_of_ne id k (c ∷ cs) h = ground (arith, take_message-chan_of_ne id k cs h)

pub keep-chan_of_self :
    (id : ℕ) (cs : List Subscriber) → chan_of id (keep (λ c. not (is_client id c)) cs) ≡ []
unfolding chan_of
keep-chan_of_self id [] = refl
keep-chan_of_self id (c ∷ cs) = elim (Bool-cases (is_client id c)) [
  | inl q ↦ rw q (keep-chan_of_self id cs)
  | inr q ↦ rw (q, q) (keep-chan_of_self id cs)
]

pub keep-chan_of_ne :
    (id k : ℕ) (cs : List Subscriber)
    → (k == id) ≡ false
    → chan_of id (keep (λ c. not (is_client k c)) cs) ≡ chan_of id cs
unfolding chan_of
keep-chan_of_ne id k [] h = refl
keep-chan_of_ne id k (c ∷ cs) h = elim (Bool-cases (is_client k c)) [
  | inl q ↦ rw q (ground (arith, keep-chan_of_ne id k cs h))
  | inr q ↦ rw q (
      ap (λ (rest : List SseEvent). if is_client id c then c.message_chan else rest)
        (keep-chan_of_ne id k cs h))
]

any-chan_of : (id : ℕ) (cs : List Subscriber) → any (is_client id) cs ≡ false → chan_of id cs ≡ []
unfolding chan_of
any-chan_of id [] h = refl
any-chan_of id (c ∷ cs) h = elim (Bool-cases (is_client id c)) [
  | inl q ↦ ground (arith, h, q)
  | inr q ↦ ground (arith, h, q, any-chan_of id cs)
]

abbrev pub first_of : List SseEvent → List SseEvent
first_of [] = []
first_of (e ∷ es) = e ∷ []

pub subscribe-chan_of :
    (id k : ℕ) (b : SseBroker) → chan_of id (subscribe k b).clients ≡ chan_of id b.clients
unfolding chan_of subscribe
subscribe-chan_of id k b = elim (Bool-cases (any (is_client k) b.clients)) [
  | inl q ↦ rw q refl
  | inr q ↦ rw q (elim (Bool-cases (k == id)) [
    | inl r ↦ ground (arith, any-chan_of k b.clients q)
    | inr r ↦ rw r refl
  ])
]

first_of-rest_of : (es : List SseEvent) → first_of es ++ rest_of es ≡ es
first_of-rest_of [] = refl
first_of-rest_of (e ∷ es) = refl

pub take_message-chan_of_eq :
    (id k : ℕ) (cs : List Subscriber)
    → (k == id) ≡ true
    → first_of (chan_of id cs) ++ chan_of id (take_message k cs) ≡ chan_of id cs
take_message-chan_of_eq id k cs h =
    subst (λ n. first_of (chan_of id cs) ++ chan_of id (take_message n cs) ≡ chan_of id cs)
      (ground arith)
      (ap (λ t. first_of (chan_of id cs) ++ t) (take_message-chan_of_self id cs)
        ∙ first_of-rest_of (chan_of id cs))
