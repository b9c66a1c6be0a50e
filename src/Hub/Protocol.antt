-- ===== src/Hub/Protocol.antt =====
-- hub/protocol.rs: the frames of the hub's protocol. What serde makes of them is a parameter of the
-- client.
use vigil_collector.Prelude.{ℕ, Option, List}
use vigil_collector.Text.{Text, codes}

abbrev pub protocol_version : ℕ
protocol_version = 1

abbrev pub agent_version : Text
agent_version = codes "0.1.1"

pub record HostInfo : Type 0 where
  pub name : Text
  pub hostname : Text
  pub os : Text
  pub arch : Text
  pub agent_version : Text
  pub cpu_cores : Option ℕ
  pub tags : List Text

pub record Hello : Type 0 where
  pub v : ℕ
  pub t : Text
  pub key : Text
  pub host : HostInfo

-- `host_id` is an `i64`; the client only logs it.
pub data HubFrame (F : Type 0) : Type 0 where
  welcome : Option ℕ → Option F → HubFrame F
  error : Option Text → Option Text → HubFrame F
  ping pong unknown : HubFrame F

pub record Samples (F : Type 0) : Type 0 where
  pub v : ℕ
  pub t : Text
  pub ts : ℕ
  pub metrics : List (Text × F)

pub record ProcessItem : Type 0 where
  pub pid : ℕ
  pub name : Text
  pub username : Text
  pub mem_bytes : ℕ

pub record Processes : Type 0 where
  pub v : ℕ
  pub t : Text
  pub ts : ℕ
  pub metric : Text
  pub items : List ProcessItem

pub record ProcessCpuItem (F : Type 0) : Type 0 where
  pub pid : ℕ
  pub name : Text
  pub username : Text
  pub cpu_pct : F

pub record ProcessesCpu (F : Type 0) : Type 0 where
  pub v : ℕ
  pub t : Text
  pub ts : ℕ
  pub items : List (ProcessCpuItem F)
