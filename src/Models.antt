-- ===== src/Models.antt =====
-- The control plane's response schemas: src/prima_pool_client/models.py.
-- Texts are lists of code points and integers are natural numbers.
use prima_pool_client.Base.{Text, ℕ, Bool, true, false, Option, none, List, codes, text_eq}

pub data WorkerStatus : Type 0 where
  registered waitlisted assigned : WorkerStatus

pub data ClusterStatus : Type 0 where
  assembling live : ClusterStatus

pub data Preferred : Type 0 where
  direct relay : Preferred

pub record Worker : Type 0 where
  pub worker_id : Text
  pub account_id : Text
  pub status : WorkerStatus
  pub model : Text
  pub waitlist_position : Option ℕ
  pub online : Bool

pub record ClusterAssignment : Type 0 where
  pub cluster_id : Text
  pub assigned_ip : Text
  pub config_url : Text

pub record WorkerState : Type 0 where
  pub worker_id : Text
  pub account_id : Text
  pub status : WorkerStatus
  pub online : Bool
  pub model : Text
  pub cluster : Option ClusterAssignment

pub record InterfaceConfig : Type 0 where
  pub private_ip : Text
  pub subnet : Text
  pub mtu : ℕ

pub record RelayConfig : Type 0 where
  pub pubkey : Text
  pub endpoint : Text
  pub enabled : Bool

pub record PeerConfig : Type 0 where
  pub pubkey : Text
  pub endpoint : Option Text
  pub allowed_ips : List Text
  pub persistent_keepalive : ℕ
  pub preferred : Preferred
  -- "server" is the control plane, which is no ring member.
  pub role : Option Text

pub record ClusterConfig : Type 0 where
  pub cluster_id : Text
  pub interface : InterfaceConfig
  pub relay : RelayConfig
  pub peers : List PeerConfig

pub record ClusterStatusResponse : Type 0 where
  pub cluster_id : Text
  pub status : ClusterStatus
  pub members_ready : ℕ
  pub members_total : ℕ

-- `RelayConfig()`
abbrev pub no_relay : RelayConfig
no_relay = record { pubkey = codes ""; endpoint = codes ""; enabled = false }

-- `status.value`
unfoldable pub status_value : WorkerStatus → Text
status_value registered = codes "registered"
status_value waitlisted = codes "waitlisted"
status_value assigned = codes "assigned"

-- `preferred.value == "relay"`
unfoldable pub prefers_relay : Preferred → Bool
prefers_relay direct = false
prefers_relay relay = true

-- `peer.role == "server"`
unfoldable pub is_server : PeerConfig → Bool
is_server p = elim p.role [ none ↦ false | Option.some r ↦ text_eq r (codes "server") ]
