-- ===== src/Cni.antt =====
-- pkg/cni and cmd/cni: the two CNI plug-ins of a pod, and the store of their configurations, a
-- file for each request. The calls of the operating system and of the CNI libraries are the
-- parameter `Host`.
pub mod Store
pub mod Command
pub mod PolicyRoute
pub mod LoopbackVip
pub mod Laws
pub mod Stored
pub mod RoundTrip
pub mod Table
pub mod Applied
pub mod Flushed
pub mod Restored
pub mod Sample
mod Tests
use l_3_4_gateway_api_poc.Base.{ℕ, Bool, Option, Text}
use l_3_4_gateway_api_poc.Net.{Addresses}
use l_3_4_gateway_api_poc.Netlink.{Netlink}

-- The fields of `skel.CmdArgs` that are read.
pub record CmdArgs : Type 0 where
  pub netns : Text
  pub if_name : Text
  pub stdin_data : Text

-- `true` stands for a nil error.
pub record Host : Type 1 where
  pub World : Type 0
  pub addresses : Addresses
  -- A network namespace, and what `netns.Do` runs in: it can fail to enter.
  pub Netns : Type 0
  pub get_ns : Text → World → Option Netns
  pub netlink : Netlink
  pub enters : Netns → World → Bool
  pub inside : Netns → World → netlink.World
  pub set_inside : Netns → netlink.World → World → World
  -- `unix.Open` and `unix.Fstat` of a namespace: the device and the inode
  pub stat_netns : Text → World → Option (ℕ × ℕ)
  -- `json.Unmarshal` into `types.NetConf`: the name of the network
  pub unmarshal_name : Text → Option Text
  -- `filepath.Join`
  pub join_path : Text → Text → Text
  pub mkdir_all : Text → World → Bool × World
  -- `os.OpenFile` with `O_EXCL|O_CREATE`, and `Write` and `Close` of the file
  pub create_file : Text → World → Bool × World
  pub write_file : Text → Text → World → Bool × World
  pub close_file : Text → World → Bool × World
  pub read_file : Text → World → Option Text
  pub remove_file : Text → World → Bool × World
  -- `types.PrintResult` for an interface in a namespace, by the version
  pub print_result : Text → CmdArgs → World → Bool
