-- ===== src/Ndt7/Model.antt =====
-- ndt7/model/archivaldata.go, with metadata/namevalue.go and the parameters of the download sender.
use ndt_server.Common.{ℕ, ℤ, Bool, List, Option, Bytes}
use ndt_server.Tcp.{TcpInfo}

pub record AppInfo : Type 0 where
  pub num_bytes : ℤ
  pub elapsed_time : ℤ

pub record ConnectionInfo : Type 0 where
  pub client : Bytes
  pub server : Bytes
  pub uuid : Bytes

-- The fields of the embedded `inetdiag.BBRInfo`, and the time.
pub record BbrInfo : Type 0 where
  pub bw : ℤ
  pub min_rtt : ℕ
  pub pacing_gain : ℕ
  pub cwnd_gain : ℕ
  pub elapsed_time : ℤ

pub record TcpSample : Type 0 where
  pub linux_tcp_info : TcpInfo
  pub elapsed_time : ℤ

-- A pointer that may be nil is an option.
pub record Measurement : Type 0 where
  pub app_info : Option AppInfo
  pub connection_info : Option ConnectionInfo
  pub bbr_info : Option BbrInfo
  pub tcp_info : Option TcpSample

pub record NameValue : Type 0 where
  pub name : Bytes
  pub value : Bytes

-- Times are nanoseconds since the epoch; 0 stands for the zero time.
pub record ArchivalData : Type 0 where
  pub uuid : Bytes
  pub start_time : ℕ
  pub end_time : ℕ
  pub server_measurements : List Measurement
  pub client_measurements : List Measurement
  pub client_metadata : List NameValue
  pub server_metadata : List NameValue

-- `sender.Params`.
pub record Params : Type 0 where
  pub is_early_exit : Bool
  pub max_bytes : ℤ
