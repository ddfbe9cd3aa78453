-- ===== src/FakeFs/Artifacts.antt =====
-- `_handle_system_artifacts` of src/infra/fake_fs_data_handler.py: the commands that are answered
-- from the configuration of the machine, by the first test that holds.
use honey_mind.Prelude.{
  Text, codes, eqb, member, starts_with, join, drop, newline, or_else, Bool, ◌||◌, List, [], ◌∷◌,
  ◌++◌, if◌then◌else◌, Option, none, some, show,
}
use honey_mind.FakeFs.System.{System}
use honey_mind.FakeFs.System.Reports.{
  render_uptime, render_df_h, render_ps_output, render_ps_aux_output, render_ss_output,
  render_netstat_output, render_lsof_output,
}
use honey_mind.FakeFs.System.Network.{render_ip_addr, render_ifconfig}
use honey_mind.FakeFs.System.Proc.{
  render_passwd, render_cpuinfo, render_meminfo, handle_dmidecode, handle_dmi_file,
}
use honey_mind.FakeFs.System.Memory.{render_free_m}
use honey_mind.FakeFs.Arguments.Uname.{handle_uname}
use honey_mind.FakeFs.Reader.{User, render_id, handle_id}
use honey_mind.FakeFs.Shlex.{shlex_split, parts_of, primary_command_name}

user_of : System → User
user_of s = record { uid = show s.uid; username = s.username; gid = show s.gid; group = s.group }

behind_command : List Text → List Text
behind_command parts = drop 1 parts

operands : Option (List Text) → Option (List Text)
operands none = none
operands (some parts) = some (drop 1 parts)

first_rule : List (Bool × Text) → Option Text
first_rule [] = none
first_rule ((test, answer) ∷ rules) = if test then some answer else first_rule rules

-- who and where
identity_rules : System → Text → Text → List (Bool × Text)
identity_rules s cwd query =
    (eqb query (codes "whoami"), s.username ++ codes "\n")
    ∷ (eqb query (codes "id"), render_id (user_of s))
    ∷ (starts_with query (codes "id "), handle_id (user_of s) (operands (shlex_split query)))
    ∷ (eqb query (codes "hostname"), s.hostname ++ codes "\n")
    ∷ (
      member query (codes "hostname -f" ∷ codes "hostname --fqdn" ∷ []),
      s.hostname ++ codes ".localdomain\n",
    )
    ∷ (eqb query (codes "pwd"), cwd ++ newline ∷ [])
    ∷ (eqb query (codes "uptime"), render_uptime s)
    ∷ (eqb query (codes "df -h"), render_df_h s)
    ∷ []

-- memory, network and programs
device_rules : System → Text → Text → List (Bool × Text)
device_rules s cwd query =
    (eqb query (codes "free -m"), render_free_m s)
    ∷ (member query (codes "ip a" ∷ codes "ip addr" ∷ codes "ip address" ∷ []), render_ip_addr s)
    ∷ (eqb query (codes "ifconfig"), render_ifconfig s)
    ∷ (eqb query (codes "which wget"), codes "/usr/bin/wget\n")
    ∷ (eqb query (codes "which curl"), codes "/usr/bin/curl\n")
    ∷ (eqb query (codes "which busybox"), codes "/bin/busybox\n")
    ∷ (
      eqb (primary_command_name query) (codes "uname"),
      handle_uname s.machine (behind_command (parts_of query)),
    )
    ∷ []

-- files of /etc and /proc
etc_rules : System → Text → Text → List (Bool × Text)
etc_rules s cwd query =
    (
      member query (codes "cat /etc/os-release" ∷ codes "cat /etc/*release" ∷ []),
      s.os_release_content ++ codes "\n",
    )
    ∷ (eqb query (codes "cat /etc/issue"), s.distro_name ++ codes "\\n\\l\n")
    ∷ (eqb query (codes "cat /etc/passwd"), render_passwd s)
    ∷ (eqb query (codes "cat /proc/cmdline"), s.proc_cmdline ++ codes "\n")
    ∷ (eqb query (codes "cat /proc/mounts"), s.proc_mounts)
    ∷ (eqb query (codes "cat /proc/interrupts"), s.proc_interrupts)
    ∷ (eqb query (codes "cat /proc/cpuinfo"), render_cpuinfo s)
    ∷ (eqb query (codes "cat /proc/meminfo"), render_meminfo s)
    ∷ (
      eqb query (codes "cat /proc/version"),
      codes "Linux version "
          ++ s.uname_kernel
          ++ codes " (builder@host) (gcc version 11.3.0) #1 SMP\n",
    )
    ∷ (eqb query (codes "cat /proc/loadavg"), codes "0.00 0.01 0.05 1/100 1234\n")
    ∷ (eqb query (codes "cat /proc/uptime"), codes "12345.67 54321.00\n")
    ∷ (eqb query (codes "cat /proc/self/cgroup"), codes "0::/\n")
    ∷ (eqb query (codes "cat /proc/stat"), codes "cpu  123 0 456 789 0 0 0 0 0 0\n")
    ∷ []

-- messages, virtual machines and clocks
firmware_rules : System → Text → Text → List (Bool × Text)
firmware_rules s cwd query =
    (
      eqb query (codes "dmesg") || starts_with query (codes "dmesg "),
      join (newline ∷ []) s.dmesg_lines ++ newline ∷ [],
    )
    ∷ (
      member query (
          codes "virt-what"
          ∷ codes "systemd-detect-virt"
          ∷ codes "systemd-detect-virt --quiet"
          ∷ []),
      codes "\n",
    )
    ∷ (starts_with query (codes "dmidecode"), handle_dmidecode s query)
    ∷ (
      eqb query (codes "ls /sys/devices/system/clocksource/clocksource0"),
      codes "available_clocksource  current_clocksource\n",
    )
    ∷ (
      eqb query (codes "cat /sys/devices/system/clocksource/clocksource0/current_clocksource"),
      s.clocksource ++ codes "\n",
    )
    ∷ (
      eqb query (codes "cat /sys/devices/system/clocksource/clocksource0/available_clocksource"),
      s.clocksource ++ codes " hpet acpi_pm\n",
    )
    ∷ (
      eqb query (codes "ls /sys/devices/virtual/dmi/id"),
      codes "bios_vendor bios_version board_name product_name product_version sys_vendor\n",
    )
    ∷ []

-- processes and sockets
process_rules : System → Text → Text → List (Bool × Text)
process_rules s cwd query =
    (eqb query (codes "ps aux"), render_ps_aux_output s)
    ∷ (member query (codes "ps" ∷ codes "ps -ef" ∷ []), render_ps_output s)
    ∷ (starts_with query (codes "ss ") || eqb query (codes "ss"), render_ss_output s)
    ∷ (starts_with query (codes "netstat"), render_netstat_output s)
    ∷ (starts_with query (codes "lsof"), render_lsof_output s)
    ∷ []

unfoldable pub handle_system_artifacts : System → Text → Text → Option Text
unfolding first_rule identity_rules device_rules etc_rules firmware_rules process_rules user_of
    operands behind_command
handle_system_artifacts s cwd query =
    or_else
      (first_rule (
        identity_rules s cwd query
        ++ (device_rules s cwd query ++ (etc_rules s cwd query ++ firmware_rules s cwd query))))
      (or_else (handle_dmi_file s query) (first_rule (process_rules s cwd query)))
