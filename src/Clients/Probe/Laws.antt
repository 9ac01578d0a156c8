-- ===== src/Clients/Probe/Laws.antt =====
-- What a key that is reported as functional was shown by.
use fin_base.Base.{◌≡◌, String, Bool, true}
use fin_base.Clients.Http.{Client, Provider, breaker_of}
use fin_base.Clients.Http.Laws.{IsRested}
use fin_base.Clients.Probe.{functional_text}

-- A report of "functional" goes with the breaker of a success.
abbrev pub IsBacked : Provider → (Bool × String) × Client → Type 0
IsBacked p ((b, m), c) = b ≡ true → (m ≡ functional_text p) × IsRested (breaker_of p c.manager)
