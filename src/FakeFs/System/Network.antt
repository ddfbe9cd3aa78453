-- ===== src/FakeFs/System/Network.antt =====
-- The network reports of src/infra/fake_fs_data_handler.py.
use honey_mind.Prelude.{Text, codes, concat, show, [], ◌∷◌}
use honey_mind.FakeFs.System.{System}

unfoldable pub render_ip_addr : System → Text
render_ip_addr s = concat (
    (codes
      "1: lo: <LOOPBACK,UP,LOWER_UP> mtu 65536 qdisc noqueue state UNKNOWN group default qlen 1000\n")
    ∷ (codes "    link/loopback 00:00:00:00:00:00 brd 00:00:00:00:00:00\n")
    ∷ (codes "    inet 127.0.0.1/8 scope host lo\n")
    ∷ (codes "       valid_lft forever preferred_lft forever\n")
    ∷ (codes "2: ")
    ∷ (s.interface)
    ∷ (codes
        ": <BROADCAST,MULTICAST,UP,LOWER_UP> mtu 1500 qdisc fq_codel state UP group default qlen 1000\n")
    ∷ (codes "    link/ether ")
    ∷ (s.mac_address)
    ∷ (codes " brd ff:ff:ff:ff:ff:ff\n")
    ∷ (codes "    inet ")
    ∷ (s.ip_address)
    ∷ (codes "/")
    ∷ (show s.cidr_prefix)
    ∷ (codes " brd ")
    ∷ (s.broadcast)
    ∷ (codes " scope global dynamic ")
    ∷ (s.interface)
    ∷ (codes "\n")
    ∷ (codes "       valid_lft 86342sec preferred_lft 86342sec\n")
    ∷ (codes "    inet6 fe80::5054:ff:fe12:3456/64 scope link\n")
    ∷ (codes "       valid_lft forever preferred_lft forever\n")
    ∷ [])

unfoldable pub render_ifconfig : System → Text
render_ifconfig s = concat (
    (s.interface)
    ∷ (codes ": flags=4163<UP,BROADCAST,RUNNING,MULTICAST>  mtu 1500\n")
    ∷ (codes "        inet ")
    ∷ (s.ip_address)
    ∷ (codes "  netmask ")
    ∷ (s.netmask)
    ∷ (codes "  broadcast ")
    ∷ (s.broadcast)
    ∷ (codes "\n")
    ∷ (codes "        inet6 fe80::5054:ff:fe12:3456  prefixlen 64  scopeid 0x20<link>\n")
    ∷ (codes "        ether ")
    ∷ (s.mac_address)
    ∷ (codes "  txqueuelen 1000  (Ethernet)\n")
    ∷ (codes "        RX packets 1842  bytes 214287 (209.2 KiB)\n")
    ∷ (codes "        RX errors 0  dropped 0  overruns 0  frame 0\n")
    ∷ (codes "        TX packets 971  bytes 126042 (123.0 KiB)\n")
    ∷ (codes "        TX errors 0  dropped 0 overruns 0  carrier 0  collisions 0\n")
    ∷ (codes "\n")
    ∷ (codes "lo: flags=73<UP,LOOPBACK,RUNNING>  mtu 65536\n")
    ∷ (codes "        inet 127.0.0.1  netmask 255.0.0.0\n")
    ∷ (codes "        inet6 ::1  prefixlen 128  scopeid 0x10<host>\n")
    ∷ (codes "        loop  txqueuelen 1000  (Local Loopback)\n")
    ∷ (codes "        RX packets 12  bytes 1024 (1.0 KiB)\n")
    ∷ (codes "        TX packets 12  bytes 1024 (1.0 KiB)\n")
    ∷ [])

unfoldable pub render_proc_route : System → Text
render_proc_route s = concat (
    (codes "Iface\tDestination\tGateway\tFlags\tRefCnt\tUse\tMetric\tMask\tMTU\tWindow\tIRTT\n")
    ∷ (s.interface)
    ∷ (codes "\t00000000\t01101FAC\t0003\t0\t0\t100\t00000000\t0\t0\t0\n")
    ∷ (s.interface)
    ∷ (codes "\t00101FAC\t00000000\t0001\t0\t0\t100\t00FFFFFF\t0\t0\t0\n")
    ∷ [])
