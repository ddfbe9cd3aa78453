-- ===== src/FakeFs/System/Proc.antt =====
-- Users, processors and firmware: `_render_passwd`, `_render_cpuinfo`, `_render_meminfo`,
-- `_handle_dmidecode` and `_handle_dmi_file` of src/infra/fake_fs_data_handler.py.
use honey_mind.Prelude.{
  ℕ, suc, zero, ◌+◌, ◌/◌, Text, codes, contains, member, concat, join, show, newline, lookup, List,
  [], ◌∷◌, ◌++◌, if◌then◌else◌, Option, none, some,
}
use honey_mind.FakeFs.System.{Dmi, System}

abbrev passwd_lines : List Text
passwd_lines =
    codes "root:x:0:0:root:/root:/bin/sh"
    ∷ codes "daemon:x:1:1:daemon:/usr/sbin:/usr/sbin/nologin"
    ∷ codes "bin:x:2:2:bin:/bin:/usr/sbin/nologin"
    ∷ codes "sys:x:3:3:sys:/dev:/usr/sbin/nologin"
    ∷ codes "sync:x:4:65534:sync:/bin:/bin/sync"
    ∷ codes "games:x:5:60:games:/usr/games:/usr/sbin/nologin"
    ∷ codes "man:x:6:12:man:/var/cache/man:/usr/sbin/nologin"
    ∷ codes "lp:x:7:7:lp:/var/spool/lpd:/usr/sbin/nologin"
    ∷ codes "mail:x:8:8:mail:/var/mail:/usr/sbin/nologin"
    ∷ codes "news:x:9:9:news:/var/spool/news:/usr/sbin/nologin"
    ∷ codes "uucp:x:10:10:uucp:/var/spool/uucp:/usr/sbin/nologin"
    ∷ codes "proxy:x:13:13:proxy:/bin:/usr/sbin/nologin"
    ∷ codes "www-data:x:33:33:www-data:/var/www:/usr/sbin/nologin"
    ∷ codes "backup:x:34:34:backup:/var/backups:/usr/sbin/nologin"
    ∷ codes "nobody:x:65534:65534:nobody:/nonexistent:/usr/sbin/nologin"
    ∷ codes "sshd:x:102:65534::/run/sshd:/usr/sbin/nologin"
    ∷ codes "ubuntu:x:1000:1000:Ubuntu:/home/ubuntu:/bin/bash"
    ∷ codes "deploy:x:1001:1001:Deploy User:/srv/app:/bin/bash"
    ∷ []

user_line : System → Text
user_line s = concat (
    (s.username)
    ∷ (codes ":x:")
    ∷ (show s.uid)
    ∷ (codes ":")
    ∷ (show s.gid)
    ∷ (codes ":")
    ∷ (s.username)
    ∷ (codes ":/home/")
    ∷ (s.username)
    ∷ (codes ":/bin/sh")
    ∷ [])

unfoldable pub render_passwd : System → Text
unfolding user_line
render_passwd s =
    join (newline ∷ []) (
      passwd_lines
      ++ (if member s.username (codes "root" ∷ codes "ubuntu" ∷ codes "deploy" ∷ [])
          then []
          else user_line s ∷ []))
    ++ newline ∷ []

cpu_block : System → ℕ → Text
cpu_block s cpu = join (newline ∷ []) (
    (codes "processor\t: " ++ show cpu)
    ∷ (codes "vendor_id\t: GenuineIntel")
    ∷ (codes "cpu family\t: 6")
    ∷ (codes "model\t\t: 158")
    ∷ (codes "model name\t: " ++ s.cpu_model)
    ∷ (codes "stepping\t: 10")
    ∷ (codes "microcode\t: 0x1")
    ∷ (codes "cpu MHz\t\t: 2100.000")
    ∷ (codes "cache size\t: 8192 KB")
    ∷ (codes "physical id\t: 0")
    ∷ (codes "siblings\t: " ++ show s.cpu_count)
    ∷ (codes "core id\t\t: " ++ show cpu)
    ∷ (codes "cpu cores\t: " ++ show s.cpu_count)
    ∷ (codes "apicid\t\t: " ++ show cpu)
    ∷ (codes
        "flags\t\t: fpu vme de pse tsc msr pae mce cx8 apic sep mtrr pge mca cmov pat pse36 clflush mmx fxsr sse sse2 ss ht syscall nx lm constant_tsc rep_good nopl xtopology nonstop_tsc cpuid tsc_known_freq pni pclmulqdq ssse3 fma cx16 pcid sse4_1 sse4_2 movbe popcnt aes xsave avx avx2 hypervisor")
    ∷ (codes "")
    ∷ [])

cpu_blocks : System → ℕ → ℕ → List Text
unfolding cpu_block
cpu_blocks s cpu zero = []
cpu_blocks s cpu (suc left) = cpu_block s cpu ∷ cpu_blocks s (cpu + 1) left

unfoldable pub render_cpuinfo : System → Text
unfolding cpu_blocks
render_cpuinfo s = join (newline ∷ []) (cpu_blocks s 0 s.cpu_count)

unfoldable pub render_meminfo : System → Text
render_meminfo s = concat (
    (codes "MemTotal:       ")
    ∷ (show s.mem_total_kb)
    ∷ (codes " kB\n")
    ∷ (codes "MemFree:        ")
    ∷ (show (s.mem_total_kb / 4))
    ∷ (codes " kB\n")
    ∷ (codes "MemAvailable:   ")
    ∷ (show (s.mem_total_kb / 2))
    ∷ (codes " kB\n")
    ∷ (codes "Buffers:        16384 kB\n")
    ∷ (codes "Cached:         131072 kB\n")
    ∷ (codes "SwapCached:            0 kB\n")
    ∷ [])

abbrev dmi_options : Dmi → List (Text × Text)
dmi_options d =
    (codes "system-manufacturer", d.sys_vendor)
    ∷ (codes "system-product-name", d.product_name)
    ∷ (codes "system-version", d.product_version)
    ∷ (codes "baseboard-product-name", d.board_name)
    ∷ (codes "bios-vendor", d.bios_vendor)
    ∷ (codes "bios-version", d.bios_version)
    ∷ []

-- the first option that the query names
first_option : Text → List (Text × Text) → Text
first_option query [] = newline ∷ []
first_option query ((option, value) ∷ options) =
    if contains query option then value ++ newline ∷ [] else first_option query options

dmi_report : System → Text
dmi_report s = concat (
    (codes "# dmidecode 3.4\n")
    ∷ (codes "SMBIOS 3.0 present.\n")
    ∷ (codes "Handle 0x0001, DMI type 1, 27 bytes\n")
    ∷ (codes "System Information\n")
    ∷ (codes "\tManufacturer: ")
    ∷ (s.dmi_info.sys_vendor)
    ∷ (codes "\n")
    ∷ (codes "\tProduct Name: ")
    ∷ (s.dmi_info.product_name)
    ∷ (codes "\n")
    ∷ (codes "\tVersion: ")
    ∷ (s.dmi_info.product_version)
    ∷ (codes "\n")
    ∷ (codes "\n")
    ∷ [])

unfoldable pub handle_dmidecode : System → Text → Text
unfolding first_option dmi_report
handle_dmidecode s query =
    if contains query (codes "-s")
    then first_option query (dmi_options s.dmi_info)
    else dmi_report s

abbrev dmi_files : Dmi → List (Text × Text)
dmi_files d =
    (codes "cat /sys/devices/virtual/dmi/id/product_name", d.product_name)
    ∷ (codes "cat /sys/devices/virtual/dmi/id/sys_vendor", d.sys_vendor)
    ∷ (codes "cat /sys/devices/virtual/dmi/id/product_version", d.product_version)
    ∷ (codes "cat /sys/devices/virtual/dmi/id/board_name", d.board_name)
    ∷ (codes "cat /sys/devices/virtual/dmi/id/bios_vendor", d.bios_vendor)
    ∷ (codes "cat /sys/devices/virtual/dmi/id/bios_version", d.bios_version)
    ∷ []

unfoldable pub handle_dmi_file : System → Text → Option Text
handle_dmi_file s query = elim (lookup query (dmi_files s.dmi_info)) [
  | none ↦ none
  | some value ↦ some (value ++ newline ∷ [])
]
