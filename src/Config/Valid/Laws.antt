-- ===== src/Config/Valid/Laws.antt =====
-- What a valid configuration guarantees.
use quantum_control.Prelude.{◌*◌, ◌≡◌, inl, inr, false, ◌&&◌, ◌||◌, [], arith, Option-cases, ok}
use quantum_control.Text.{◌==◌}
use quantum_control.Prelude.Int.{not_positive, above, below}
use quantum_control.Clock.{second, minute}
use quantum_control.Config.{ControlConfig, BrokerConfig, Parsers, millisecond}
use quantum_control.Config.Valid.{validate_control, validate_broker, is_loopback_listen}

-- A valid configuration that listens beyond the loopback interface has a credential.
pub valid_exposed :
    (parsers : Parsers) (c : ControlConfig)
    → validate_control parsers c ≡ ok tt
    → is_loopback_listen parsers c.listen ≡ false
    → (c.api_token == [] && c.actor_file == []) ≡ false
unfolding validate_control
valid_exposed parsers c v e = elim (Option-cases (parsers.split_host_port c.listen)) [
  | inl n ↦ absurd (ground arith)
  | inr (address, n) ↦ ground arith
]

-- The bounds of a valid broker configuration on the grants and on a transaction.
pub valid_broker_bounds :
    (c : BrokerConfig)
    → validate_broker c ≡ ok tt
    → ((not_positive c.grant_ttl || above c.grant_ttl (15 * minute)) ≡ false)
      × ((below c.transaction_timeout second || above c.transaction_timeout (2 * minute)) ≡ false)
      × ((below c.service_poll_interval (10 * millisecond)
            || above c.service_poll_interval (5 * second))
          ≡ false)
unfolding validate_broker
valid_broker_bounds c v = ground arith
