-- ===== src/FakeFs/System.antt =====
-- The machine that the fake file system poses as: the configuration that `FakeFSDataHandler` reads
-- (src/infra/fake_fs_data_handler.py). Identifiers and sizes are natural numbers.
pub mod Reports
pub mod Network
pub mod Proc
pub mod Memory
use honey_mind.Prelude.{ℕ, Text, List}
use honey_mind.FakeFs.Arguments.Uname.{Machine}

-- `dmi_info`
pub record Dmi : Type 0 where
  pub product_name : Text
  pub sys_vendor : Text
  pub product_version : Text
  pub board_name : Text
  pub bios_vendor : Text
  pub bios_version : Text

pub record System : Type 0 where
  pub hostname : Text
  pub username : Text
  pub uid : ℕ
  pub gid : ℕ
  pub group : Text
  pub uname_kernel : Text
  pub cpu_count : ℕ
  pub cpu_model : Text
  pub mem_total_kb : ℕ
  pub interface : Text
  pub ip_address : Text
  pub netmask : Text
  pub cidr_prefix : ℕ
  pub mac_address : Text
  pub broadcast : Text
  pub root_device : Text
  pub clocksource : Text
  pub distro_name : Text
  pub dmesg_lines : List Text
  pub os_release_content : Text
  pub proc_cmdline : Text
  pub proc_mounts : Text
  pub proc_interrupts : Text
  pub dmi_info : Dmi
  pub machine : Machine
