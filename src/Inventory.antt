-- ===== src/Inventory.antt =====
-- internal/inventory/inventory.go: the components and the interface of the scanner.
pub mod Version
pub mod Steps
pub mod Scan
pub mod Definitions
pub mod Service
pub mod Counters
pub mod Failures
pub mod Laws
use quantum_control.Prelude.{ℕ, Bool, Option, List}
use quantum_control.Text.{Text, text}
use quantum_control.Clock.{Time}

abbrev pub schema_version : Text
schema_version = text "quantum.control/component-inventory/v1alpha1"

pub data Ownership : Type 0 where
  owned_managed owned_external owned_disabled owned_unknown : Ownership

pub data Health : Type 0 where
  healthy degraded health_disabled health_unknown : Health

pub record Listener : Type 0 where
  pub address : Text
  pub port : ℕ
  pub protocol : Text

pub record Evidence : Type 0 where
  pub kind : Text
  pub source : Text
  pub detail : Text

pub record Component : Type 0 where
  pub id : Text
  pub name : Text
  pub category : Text
  pub version : Text
  pub ownership : Ownership
  pub health : Health
  pub services : List Text
  pub listeners : List Listener
  pub roots : List Text
  pub capabilities : List Text
  pub evidence : List Evidence
  pub observed_at : Time
  pub warnings : List Text

pub record Snapshot : Type 0 where
  pub schema : Text
  pub observed_at : Time
  pub components : List Component

-- The interface Scanner over the state W of the host; an outer `none` is an error.
pub record Scanner (W : Type 0) : Type 0 where
  pub snapshot : W → Option Snapshot × W
  pub component : Text → W → Option (Option Component) × W
