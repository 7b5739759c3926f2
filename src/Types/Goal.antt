-- ===== src/Types/Goal.antt =====
-- control/types.go: the goal an operator declares, with the parts that other files declare
-- (control/canary.go, control/schedule.go, control/spread.go, control/netpolicy.go,
-- control/provenance.go).
use a4s.Prelude.{Bool, ◌&&◌, not, Option, none, some, List, String, ◌==◌, ℤ, pos}
use a4s.Prelude.Map.{Map}
use a4s.Types.Budget.{Budget}
use a4s.Types.Resources.{Resources}

-- `time.Duration`, in nanoseconds.
abbrev pub Duration : Type 0
Duration = ℤ

pub record ToolGrant : Type 0 where
  pub name : String
  pub scope : String
  pub mutating : Bool

-- `==` on a Boolean.
abbrev pub same : Bool → Bool → Bool
same a b = elim a [ Bool.true ↦ b | Bool.false ↦ not b ]

-- `==` on the struct.
unfoldable pub equal_tool : ToolGrant → ToolGrant → Bool
equal_tool a b = a.name == b.name && a.scope == b.scope && same a.mutating b.mutating

pub record SecretRef : Type 0 where
  pub name : String
  pub version : String
  pub mount_path : String

-- `==` on the struct.
unfoldable pub equal_secret : SecretRef → SecretRef → Bool
equal_secret a b = a.name == b.name && a.version == b.version && a.mount_path == b.mount_path

pub record VolumeRef : Type 0 where
  pub name : String
  pub mount_path : String
  pub read_only : Bool
  pub checksum : String

pub record AgentRuntime : Type 0 where
  pub name : String
  pub provider : String
  pub model : String
  pub budget : Budget
  pub tools : List ToolGrant
  pub queue : String

pub record IngressRule : Type 0 where
  pub from_workload : String
  pub from_cidr : String
  pub port : ℤ

pub record EgressRule : Type 0 where
  pub to_workload : String
  pub to_cidr : String
  pub port : ℤ

pub record NetworkPolicy : Type 0 where
  pub workload : String
  pub ingress : List IngressRule
  pub egress : List EgressRule

pub record Schedule : Type 0 where
  pub cron : String
  pub deadline : Duration
  pub concurrency : String
  pub completions : ℤ
  pub retries : ℤ

pub record Placement : Type 0 where
  pub max_per_domain : ℤ

pub record SignedAttestation : Type 0 where
  pub statement_bytes : String
  pub key_id : String
  pub signature : String

pub record WorkloadSpec : Type 0 where
  pub name : String
  pub image : String
  pub replicas : ℤ
  pub port : ℤ
  pub resources : Resources
  pub privileged : Bool
  pub stateful : Bool
  pub secrets : List SecretRef
  pub volumes : List VolumeRef
  pub engine : String
  pub runtime : Option AgentRuntime
  pub policy : Option NetworkPolicy
  pub schedule : Option Schedule
  pub placement : Option Placement
  pub attestation : Option SignedAttestation

pub record RouteSpec : Type 0 where
  pub host : String
  pub port : ℤ
  pub exposure : String

pub record Constraints : Type 0 where
  pub required_labels : Map String
  pub allowed_nodes : List String

pub record Canary : Type 0 where
  pub steps : List ℤ
  pub hold_for : Duration

pub record Goal : Type 0 where
  pub api_version : String
  pub id : String
  pub objective : String
  pub workload : WorkloadSpec
  pub route : Option RouteSpec
  pub constraints : Constraints
  pub canary : Option Canary

unfoldable pub max_per_domain : Goal → ℤ
max_per_domain g = elim g.workload.placement [ none ↦ pos 0 | some p ↦ p.max_per_domain ]
