-- ===== src/Env/TestKey.antt =====
-- `TestKey` of env/env.go, and that it tests the key which `SetAPIKey` sets.
use fin_base.Base.{
  ◌≡◌, ◌≢◌, refl, subst, inl, inr, String, str_eq, str_eq_iff, Bool, true, false, not, List, [],
  ◌∷◌, some, All, arith, if◌then◌else◌, any, Bool-cases,
}
use fin_base.Base.Text.{normalize, to_lower}
use fin_base.Clients.Http.{
  Wire, Client, Provider, sec, finnhub, open_figi, tiingo, twelve_data, fmp, fred,
}
use fin_base.Clients.Payloads.{Codec}
use fin_base.Clients.Sec.{Inflate}
use fin_base.Clients.Probe.{test_key_functionality, service_of, key_of}
use fin_base.Env.{EnvService, known_keys, assign_key}

-- What the clients answer, and the service behind it.
abbrev pub behind_client :
    EnvService → (Bool × String) × Client → (Bool × String) × (EnvService × Wire)
behind_client s (a, c) = (a, (record s { client_mgr = c.manager }, c.wire))

unfoldable pub test_named_key :
    Codec → Inflate → String → EnvService → Wire → (Bool × String) × (EnvService × Wire)
unfolding test_key_functionality
test_named_key json z name s w =
    if str_eq name "API_KEY"
    then (if not (str_eq s.api_key "")
        then ((true, "System API Key is set"), (s, w))
        else ((false, "System API Key is not set"), (s, w)))
    else behind_client s
        (test_key_functionality json z name (record { manager = s.client_mgr; wire = w }))

-- `EnvService.TestKey`
unfoldable pub test_key :
    Codec → Inflate → String → EnvService → Wire → (Bool × String) × (EnvService × Wire)
unfolding test_named_key normalize
test_key json z name = test_named_key json z (normalize name)

-- A service that the test of the name tries, and whose key is the one that setting the name sets.
abbrev pub IsTested : String → String → EnvService → Type 0
IsTested name value s =
    (p : Provider) × (service_of (to_lower name) ≡ some p)
    × (key_of p (assign_key name value s).client_mgr ≡ value)

any-All :
    (P : String → Type 0) (name : String) (ks : List String)
    → All P ks
    → any (λ n. str_eq n name) ks ≡ true
    → P name
any-All P name [] hs h = cc
any-All P name (k ∷ ks) hs h = elim (Bool-cases (str_eq k name)) [
  | inl e ↦ subst P ((str_eq_iff k name).0 e) hs.0
  | inr e ↦ any-All P name ks hs.1 (ground (arith, h, e))
]

-- Every supported name but that of the system's key stands for a service; and testing the name tries
-- the key that setting the name sets.
known_keys-IsTested :
    (name value : String) (s : EnvService)
    → any (λ n. str_eq n name) known_keys ≡ true
    → name ≢ "API_KEY"
    → IsTested name value s
unfolding service_of key_of to_lower assign_key
known_keys-IsTested name value s =
    any-All (λ k. k ≢ "API_KEY" → IsTested k value s) name known_keys
      (
        (λ ne. absurd (ne refl)),
        (
          (λ _. (sec, refl, refl)),
          (
            (λ _. (finnhub, refl, refl)),
            (
              (λ _. (open_figi, refl, refl)),
              (
                (λ _. (tiingo, refl, refl)),
                (
                  (λ _. (twelve_data, refl, refl)),
                  ((λ _. (fmp, refl, refl)), ((λ _. (fred, refl, refl)), tt)),
                ),
              ),
            ),
          ),
        ),
      )
