-- ===== src/Broker/Host.antt =====
-- What the broker's operations find outside the program: systemd through the probe and the mutator,
-- the health endpoints, and the clock of a request's context. W is the state of all of it.
use quantum_control.Prelude.{ℕ, ◌≤◌, ◌<◌, ◌≡◌, Bool, true, Result}
use quantum_control.Text.{Text}
use quantum_control.Protocol.{StringMap, Fields}

-- Each call gives its outcome and the state behind it. An error of the mutator or of the health
-- check is `false`; the program reads nothing else of these errors.
pub record Host (W : Type 0) : Type 0 where
  pub snapshot : W → Result Text Fields × W
  pub service_status : Text → W → Result Text StringMap × W
  pub start : Text → W → Bool × W
  pub stop : Text → W → Bool × W
  pub restart : Text → W → Bool × W
  pub check : Text → W → Bool × W
  -- The select of the polling loop: `true` is a tick, `false` the end of the context.
  pub wait : W → Bool × W
  -- ctx.Err() != nil
  pub ended : W → Bool

-- Every tick takes some of the time that the context's deadline leaves, and no call gives time back.
pub record HasDeadline {W : Type 0} (host : Host W) : Type 0 where
  pub left : W → ℕ
  pub wait_left : (w : W) → (host.wait w).0 ≡ true → left (host.wait w).1 < left w
  pub status_left : (u : Text) (w : W) → left (host.service_status u w).1 ≤ left w
  pub check_left : (u : Text) (w : W) → left (host.check u w).1 ≤ left w
  pub start_left : (u : Text) (w : W) → left (host.start u w).1 ≤ left w
  pub stop_left : (u : Text) (w : W) → left (host.stop u w).1 ≤ left w
  pub restart_left : (u : Text) (w : W) → left (host.restart u w).1 ≤ left w
  pub end_left : (w : W) → left (host.wait w).1 ≤ left w
