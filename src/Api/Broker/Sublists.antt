-- ===== src/Api/Broker/Sublists.antt =====
-- Lists of events that are part of another, for the order in which the broker of api/api.go delivers.
use mathlib.Core.List.{append_assoc, append-nil}
use fin_base.Base.{◌≡◌, List, [], ◌∷◌, ◌++◌}
use fin_base.Api.Broker.{SseEvent}

-- A list with some entries of another, in the same order.
pub data Sublist : List SseEvent → List SseEvent → Type 0 where
  nothing : Sublist [] []
  takes : {xs ys : List SseEvent} (x : SseEvent) → Sublist xs ys → Sublist (x ∷ xs) (x ∷ ys)
  skips : {xs ys : List SseEvent} (y : SseEvent) → Sublist xs ys → Sublist xs (y ∷ ys)

pub Sublist_trans : {xs ys zs : List SseEvent} → Sublist xs ys → Sublist ys zs → Sublist xs zs
Sublist_trans h nothing = h
Sublist_trans h (skips z k) = skips z (Sublist_trans h k)
Sublist_trans (takes x h) (takes y k) = takes x (Sublist_trans h k)
Sublist_trans (skips y h) (takes z k) = skips z (Sublist_trans h k)

pub Sublist_same_end :
    {xs ys : List SseEvent} (e : SseEvent) → Sublist xs ys → Sublist (xs ++ e ∷ []) (ys ++ e ∷ [])
Sublist_same_end e nothing = takes e nothing
Sublist_same_end e (takes x h) = takes x (Sublist_same_end e h)
Sublist_same_end e (skips y h) = skips y (Sublist_same_end e h)

pub Sublist_longer :
    {xs ys : List SseEvent} (e : SseEvent) → Sublist xs ys → Sublist xs (ys ++ e ∷ [])
Sublist_longer e nothing = skips e nothing
Sublist_longer e (takes x h) = takes x (Sublist_longer e h)
Sublist_longer e (skips y h) = skips y (Sublist_longer e h)

Sublist_of_nothing : (ys : List SseEvent) → Sublist [] ys
Sublist_of_nothing [] = nothing
Sublist_of_nothing (y ∷ ys) = skips y (Sublist_of_nothing ys)

Sublist_refl : (xs : List SseEvent) → Sublist xs xs
Sublist_refl [] = nothing
Sublist_refl (x ∷ xs) = takes x (Sublist_refl xs)

pub Sublist_start : (xs ps : List SseEvent) → Sublist xs (xs ++ ps)
Sublist_start [] ps = Sublist_of_nothing ps
Sublist_start (x ∷ xs) ps = takes x (Sublist_start xs ps)

-- Reading the channel or leaving it as it is.
pub Sublist_moved :
    (xs rs ds : List SseEvent) {cs zs : List SseEvent}
    → rs ++ ds ≡ cs
    → Sublist (xs ++ cs) zs
    → Sublist ((xs ++ rs) ++ ds) (zs ++ [])
Sublist_moved xs rs ds {zs = zs} q h = rw (append-nil zs, append_assoc xs rs ds, q) h

pub Sublist_dropped :
    (xs cs : List SseEvent) {ds zs : List SseEvent}
    → ds ≡ []
    → Sublist (xs ++ cs) zs
    → Sublist ((xs ++ []) ++ ds) (zs ++ [])
Sublist_dropped xs cs {zs = zs} q h =
    rw (q, append-nil zs, append-nil xs, append-nil xs) (Sublist_trans (Sublist_start xs cs) h)
