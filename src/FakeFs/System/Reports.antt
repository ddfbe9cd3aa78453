-- ===== src/FakeFs/System/Reports.antt =====
-- The fixed reports of src/infra/fake_fs_data_handler.py: disks, processes and sockets.
use honey_mind.Prelude.{Text, codes, concat, pad_to, [], ◌∷◌}
use honey_mind.FakeFs.System.{System}

unfoldable pub render_uptime : System → Text
render_uptime s =
    concat ((codes " 13:37:42 up 5 days,  4:17,  1 user,  load average: 0.00, 0.01, 0.05\n") ∷ [])

unfoldable pub render_df_h : System → Text
render_df_h s = concat (
    (codes "Filesystem      Size  Used Avail Use% Mounted on\n")
    ∷ (s.root_device)
    ∷ (codes "        20G  6.4G   13G  34% /\n")
    ∷ (codes "tmpfs           997M     0  997M   0% /dev/shm\n")
    ∷ (codes "tmpfs           399M  1.2M  398M   1% /run\n")
    ∷ (codes "tmpfs           5.0M     0  5.0M   0% /run/lock\n")
    ∷ [])

unfoldable pub render_ps_output : System → Text
render_ps_output s = concat (
    (codes "UID          PID    PPID  C STIME TTY          TIME CMD\n")
    ∷ (codes "root           1       0  0 00:00 ?        00:00:01 /sbin/init\n")
    ∷ (codes "root         112       1  0 00:00 ?        00:00:00 sshd: server [listener]\n")
    ∷ (codes "root         118       1  0 00:00 ?        00:00:00 cron\n")
    ∷ (codes "root         130       1  0 00:00 ?        00:00:00 rsyslogd\n")
    ∷ [])

unfoldable pub render_ps_aux_output : System → Text
render_ps_aux_output s = concat (
    (codes "USER         PID %CPU %MEM    VSZ   RSS TTY      STAT START   TIME COMMAND\n")
    ∷ (codes "root           1  0.0  0.3 168420  6908 ?        Ss   09:17   0:01 /sbin/init\n")
    ∷ (codes
        "root         112  0.0  0.2  15436  5120 ?        Ss   09:17   0:00 /usr/sbin/sshd -D\n")
    ∷ (codes
        "root         118  0.0  0.1   6816  2864 ?        Ss   09:17   0:00 /usr/sbin/cron -f\n")
    ∷ (codes
        "syslog       130  0.0  0.2 222400  4864 ?        Ssl  09:17   0:00 /usr/sbin/rsyslogd -n\n")
    ∷ (codes
        "root         210  0.0  0.4  55284  9320 ?        Ss   09:18   0:00 nginx: master process /usr/sbin/nginx\n")
    ∷ (codes
        "www-data     211  0.0  0.3  55824  7204 ?        S    09:18   0:00 nginx: worker process\n")
    ∷ (pad_to 8 s.username)
    ∷ (codes "    642  0.0  0.1   4632  3780 pts/0    Ss   13:37   0:00 -sh\n")
    ∷ (pad_to 8 s.username)
    ∷ (codes "    711  0.0  0.1   7484  3188 pts/0    R+   13:37   0:00 ps aux\n")
    ∷ [])

unfoldable pub render_ss_output : System → Text
render_ss_output s = concat (
    (codes "State  Recv-Q Send-Q Local Address:Port  Peer Address:Port Process\n")
    ∷ (codes
        "LISTEN 0      128          0.0.0.0:22         0.0.0.0:*     users:((\"sshd\",pid=112,fd=3))\n")
    ∷ (codes
        "LISTEN 0      128          0.0.0.0:80         0.0.0.0:*     users:((\"nginx\",pid=210,fd=6))\n")
    ∷ [])

unfoldable pub render_netstat_output : System → Text
render_netstat_output s = concat (
    (codes "Active Internet connections (only servers)\n")
    ∷ (codes
        "Proto Recv-Q Send-Q Local Address           Foreign Address         State       PID/Program name\n")
    ∷ (codes
        "tcp        0      0 0.0.0.0:22              0.0.0.0:*               LISTEN      112/sshd\n")
    ∷ (codes
        "tcp        0      0 0.0.0.0:80              0.0.0.0:*               LISTEN      210/nginx\n")
    ∷ [])

unfoldable pub render_lsof_output : System → Text
render_lsof_output s = concat (
    (codes "COMMAND   PID USER   FD   TYPE DEVICE SIZE/OFF NODE NAME\n")
    ∷ (codes "sshd      112 root    3u  IPv4  12345      0t0  TCP *:22 (LISTEN)\n")
    ∷ (codes "nginx     210 root    6u  IPv4  23456      0t0  TCP *:80 (LISTEN)\n")
    ∷ [])
