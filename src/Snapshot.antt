-- ===== src/Snapshot.antt =====
-- snapshot.rs: the data of one sampling, and its three projections for the wire.
use vigil_collector.Prelude.{ℕ, Option, none, List, [], if◌then◌else◌}
use vigil_collector.Text.{Text}
use vigil_collector.Float.{Float}

-- `load` is the array of the three averages.
pub record LoadAvg (F : Type 0) : Type 0 where
  pub one : F
  pub five : F
  pub fifteen : F

pub record Cpu (F : Type 0) : Type 0 where
  pub usage : F
  pub temp : F
  pub freq : F
  pub cores : ℕ
  pub load : Option (LoadAvg F)

pub record Mem (F : Type 0) : Type 0 where
  pub total : F
  pub used : F
  pub free : F
  pub percent : F

pub record Disk (F : Type 0) : Type 0 where
  pub total : F
  pub used : F
  pub free : F
  pub percent : F

pub record DiskInfo (F : Type 0) : Type 0 where
  pub device : Text
  pub mountpoint : Text
  pub fstype : Text
  pub total : F
  pub used : F
  pub free : F
  pub percent : F

pub record DiskIo : Type 0 where
  pub read_bytes_per_sec : ℕ
  pub write_bytes_per_sec : ℕ
  pub read_iops : ℕ
  pub write_iops : ℕ

pub record Throughput : Type 0 where
  pub rx_bytes_per_sec : ℕ
  pub tx_bytes_per_sec : ℕ

pub record PlatformInfo : Type 0 where
  pub distro : Text
  pub kernel : Text
  pub uptime : Text

pub record Process (F : Type 0) : Type 0 where
  pub pid : ℕ
  pub name : Text
  pub username : Text
  pub mem : F

pub record ProcessCpu (F : Type 0) : Type 0 where
  pub pid : ℕ
  pub name : Text
  pub username : Text
  pub cpu : F

pub record NetIfaceStats (F : Type 0) : Type 0 where
  pub mb_sent : F
  pub mb_received : F
  pub pk_sent : ℕ
  pub pk_received : ℕ
  pub error_in : ℕ
  pub error_out : ℕ
  pub dropin : ℕ
  pub dropout : ℕ

pub record Snapshot (F : Type 0) : Type 0 where
  pub cpu : Cpu F
  pub mem : Mem F
  pub disk : Disk F
  pub disks : List (DiskInfo F)
  pub disk_io : DiskIo
  pub network : Throughput
  pub user : Text
  pub platform : PlatformInfo
  pub uptime : Text
  pub processes : List (Process F)
  pub processes_metric : Text
  pub processes_by_cpu : List (ProcessCpu F)
  pub interfaces : List Text
  pub network_stats : List (Text × NetIfaceStats F)

pub record HttpSystemView (F : Type 0) : Type 0 where
  pub cpu : Cpu F
  pub mem : Mem F
  pub disk : Disk F
  pub disks : List (DiskInfo F)
  pub disk_io : DiskIo
  pub network : Throughput
  pub user : Text
  pub platform : PlatformInfo
  pub processes : List (Process F)
  pub processes_metric : Text
  pub processes_by_cpu : List (ProcessCpu F)

pub record WsSystemView (F : Type 0) : Type 0 where
  pub cpu : Cpu F
  pub mem : Mem F
  pub disk : Disk F
  pub disk_io : DiskIo
  pub network : Throughput
  pub uptime : Text
  pub processes : List (Process F)
  pub processes_metric : Text
  pub processes_by_cpu : List (ProcessCpu F)

pub record NetworkView (F : Type 0) : Type 0 where
  pub interfaces : List Text
  pub statistics : List (Text × NetIfaceStats F)

module _ {F : Type 0} where
  unfoldable pub http_view : Snapshot F → HttpSystemView F
  http_view s = record {
    cpu = s.cpu;
    mem = s.mem;
    disk = s.disk;
    disks = s.disks;
    disk_io = s.disk_io;
    network = s.network;
    user = s.user;
    platform = s.platform;
    processes = s.processes;
    processes_metric = s.processes_metric;
    processes_by_cpu = s.processes_by_cpu;
  }

  unfoldable pub ws_view : Snapshot F → WsSystemView F
  ws_view s = record {
    cpu = s.cpu;
    mem = s.mem;
    disk = s.disk;
    disk_io = s.disk_io;
    network = s.network;
    uptime = s.uptime;
    processes = s.processes;
    processes_metric = s.processes_metric;
    processes_by_cpu = s.processes_by_cpu;
  }

  unfoldable pub network_view : Snapshot F → NetworkView F
  network_view s = record { interfaces = s.interfaces; statistics = s.network_stats }

-- `DiskIo::default()` and `Throughput::default()`.
abbrev pub no_io : DiskIo
no_io = record { read_bytes_per_sec = 0; write_bytes_per_sec = 0; read_iops = 0; write_iops = 0 }

abbrev pub no_throughput : Throughput
no_throughput = record { rx_bytes_per_sec = 0; tx_bytes_per_sec = 0 }

-- The JSON number that a temperature becomes.
pub data TempNumber (F : Type 0) : Type 0 where
  integer : ℕ → TempNumber F
  float : F → TempNumber F

module _ {F : Type 0} ⦃f : Float F⦄ where
  unfoldable pub serialize_temp : F → TempNumber F
  serialize_temp v = if f.eq v (f.lit 0 0) then integer 0 else float v

  -- `Snapshot::default()`.
  unfoldable pub default_snapshot : Snapshot F
  default_snapshot = record {
    cpu = record { usage = f.lit 0 0; temp = f.lit 0 0; freq = f.lit 0 0; cores = 0; load = none };
    mem = record { total = f.lit 0 0; used = f.lit 0 0; free = f.lit 0 0; percent = f.lit 0 0 };
    disk = record { total = f.lit 0 0; used = f.lit 0 0; free = f.lit 0 0; percent = f.lit 0 0 };
    disks = [];
    disk_io = no_io;
    network = no_throughput;
    user = [];
    platform = record { distro = []; kernel = []; uptime = [] };
    uptime = [];
    processes = [];
    processes_metric = [];
    processes_by_cpu = [];
    interfaces = [];
    network_stats = [];
  }
