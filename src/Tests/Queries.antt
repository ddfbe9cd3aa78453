-- ===== src/Tests/Queries.antt =====
-- Runs of the queries of the fake file system (src/infra/fake_fs_data_handler.py and
-- src/infra/fake_fs/commands.py).
use honey_mind.Prelude.{
  ℕ, Text, codes, Bool, true, false, List, [], ◌∷◌, ◌++◌, Option, none, some, ◌≡◌, refl, arith,
}
use honey_mind.FakeFs.Paths.{normalize_path}
use honey_mind.FakeFs.Paths.Canonical.{IsCanonical}
use honey_mind.FakeFs.Nodes.{Node, get_node, dir_node, file_node}
use honey_mind.FakeFs.Commands.{Shell, download_name}
use honey_mind.FakeFs.System.{System}
use honey_mind.FakeFs.Query.{
  Env, Clock, Reply, raised, replied, hardcoded, blocked, url_host, handle_download, query,
}
use honey_mind.FakeFs.Query.Keeps.{IsValid, StillThere, start, asked, Reached-Keeps}
use honey_mind.FakeFs.Query.Download.{download_over_folder, download_without_host}

-- the definitions that the runs below compute with
program : Unit {0}
unfolding honey_mind.FakeFs.Paths.pop honey_mind.FakeFs.Paths.walk_part honey_mind.FakeFs.Paths.walk
    honey_mind.FakeFs.Paths.components honey_mind.FakeFs.Paths.base_of
    honey_mind.FakeFs.Paths.absolute honey_mind.FakeFs.Paths.normalize_path
    honey_mind.FakeFs.Nodes.basename honey_mind.FakeFs.Nodes.dirname_head
    honey_mind.FakeFs.Nodes.dirname honey_mind.FakeFs.Nodes.or_root
    honey_mind.FakeFs.Nodes.parent_of honey_mind.FakeFs.Nodes.get_node
    honey_mind.FakeFs.Nodes.has_parent honey_mind.FakeFs.Nodes.list_dir
    honey_mind.FakeFs.Nodes.list_subtree honey_mind.FakeFs.Nodes.replace
    honey_mind.FakeFs.Nodes.node_size honey_mind.FakeFs.Nodes.upsert_node
    honey_mind.FakeFs.Nodes.dir_node honey_mind.FakeFs.Nodes.mkdir honey_mind.FakeFs.Nodes.file_node
    honey_mind.FakeFs.Nodes.write_file honey_mind.FakeFs.Nodes.with_root
    honey_mind.FakeFs.Nodes.expected honey_mind.FakeFs.Nodes.resolve_path
    honey_mind.FakeFs.Commands.has_ls_flag honey_mind.FakeFs.Commands.text_le
    honey_mind.FakeFs.Commands.insert_by_name honey_mind.FakeFs.Commands.sort_by_name
    honey_mind.FakeFs.Commands.cd_candidates honey_mind.FakeFs.Commands.split_or
    honey_mind.FakeFs.Commands.handle_cd honey_mind.FakeFs.Commands.mkdir_error
    honey_mind.FakeFs.Commands.parent_is_dir honey_mind.FakeFs.Commands.made
    honey_mind.FakeFs.Commands.handle_mkdir honey_mind.FakeFs.Commands.ls_children
    honey_mind.FakeFs.Commands.ls_target honey_mind.FakeFs.Commands.named
    honey_mind.FakeFs.Commands.handle_ls honey_mind.FakeFs.Commands.download_name
    honey_mind.FakeFs.Commands.record_download honey_mind.FakeFs.Query.query_from_file
    honey_mind.FakeFs.Query.url_host honey_mind.FakeFs.Query.download_reply
    honey_mind.FakeFs.Query.handle_download honey_mind.FakeFs.Query.command_of
    honey_mind.FakeFs.Query.run_command honey_mind.FakeFs.Query.run_parts
    honey_mind.FakeFs.Query.strip_newlines honey_mind.FakeFs.Query.file_answer
    honey_mind.FakeFs.Query.query_normalized honey_mind.FakeFs.Query.query honey_mind.Prelude.eqb
    honey_mind.Prelude.starts_with honey_mind.Prelude.ends_with honey_mind.Prelude.contains
    honey_mind.Prelude.is_space honey_mind.Prelude.to_lower honey_mind.Prelude.to_upper
    honey_mind.Prelude.lower honey_mind.Prelude.upper honey_mind.Prelude.join
    honey_mind.Prelude.split_from honey_mind.Prelude.split honey_mind.Prelude.show
    honey_mind.Prelude.is_line_break honey_mind.Prelude.split_lines honey_mind.Prelude.pad_to
    honey_mind.Prelude.pad_left honey_mind.Prelude.drop_while honey_mind.Prelude.rstrip_cons
    honey_mind.Prelude.rstrip_by honey_mind.Prelude.strip_by honey_mind.Prelude.strip
    honey_mind.Prelude.strip_char honey_mind.Prelude.rstrip_char honey_mind.Prelude.words
    honey_mind.Prelude.lookup honey_mind.Prelude.insert honey_mind.Prelude.remove
    honey_mind.Prelude.span honey_mind.Normalizer.normalize_command_input
    honey_mind.Normalizer.normalize_sql_input honey_mind.Normalizer.effective_type
    honey_mind.Normalizer.normalize_lookup_key honey_mind.Normalizer.Tokens.match_shell_operator
    honey_mind.Normalizer.Tokens.flush_token honey_mind.Normalizer.Tokens.step_quoted
    honey_mind.Normalizer.Tokens.step_backslash honey_mind.Normalizer.Tokens.step_operator
    honey_mind.Normalizer.Tokens.step_plain honey_mind.Normalizer.Tokens.step
    honey_mind.Normalizer.Tokens.scan honey_mind.Normalizer.Tokens.tokenize_shell_like
    honey_mind.FakeFs.Shlex.shlex_split honey_mind.FakeFs.Shlex.parts_of
    honey_mind.FakeFs.Shlex.primary_command_name honey_mind.FakeFs.Artifacts.handle_system_artifacts
    honey_mind.FakeFs.Search.insert_text honey_mind.FakeFs.Search.sort_texts
    honey_mind.FakeFs.Search.output_lines honey_mind.FakeFs.Search.is_found
    honey_mind.FakeFs.Search.subtree_at honey_mind.FakeFs.Search.handle_find
    honey_mind.FakeFs.Search.handle_grep honey_mind.FakeFs.Reader.render_stat
    honey_mind.FakeFs.Reader.render_file_type honey_mind.FakeFs.Reader.selected_lines
    honey_mind.FakeFs.Reader.read_node honey_mind.FakeFs.Reader.content_for_path
    honey_mind.FakeFs.Reader.cat_paths honey_mind.FakeFs.Reader.handle_file_reader
    honey_mind.FakeFs.Reader.render_id honey_mind.FakeFs.Reader.handle_id
    honey_mind.FakeFs.Arguments.is_redirection_token honey_mind.FakeFs.Arguments.is_option
    honey_mind.FakeFs.Arguments.is_lines_option honey_mind.FakeFs.Arguments.is_pager
    honey_mind.FakeFs.Arguments.command_paths_from honey_mind.FakeFs.Arguments.command_paths
    honey_mind.FakeFs.Arguments.number_from honey_mind.FakeFs.Arguments.natural
    honey_mind.FakeFs.Arguments.magnitude honey_mind.FakeFs.Arguments.line_count
    honey_mind.FakeFs.Arguments.find_options honey_mind.FakeFs.Arguments.find_arguments
    honey_mind.FakeFs.Arguments.is_recursive honey_mind.FakeFs.Arguments.grep_words
    honey_mind.FakeFs.Arguments.grep_selected honey_mind.FakeFs.Arguments.grep_arguments
    honey_mind.FakeFs.Arguments.Uname.flags_of honey_mind.FakeFs.Arguments.Uname.active_flags
    honey_mind.FakeFs.Arguments.Uname.is_active honey_mind.FakeFs.Arguments.Uname.is_shown
    honey_mind.FakeFs.Arguments.Uname.handle_uname honey_mind.FakeFs.System.Proc.render_passwd
    honey_mind.FakeFs.System.Proc.render_cpuinfo honey_mind.FakeFs.System.Proc.render_meminfo
    honey_mind.FakeFs.System.Proc.handle_dmidecode honey_mind.FakeFs.System.Proc.handle_dmi_file
    honey_mind.FakeFs.System.Memory.memory_of honey_mind.FakeFs.System.Memory.render_free_m
    honey_mind.FakeFs.System.Reports.render_uptime honey_mind.FakeFs.System.Reports.render_df_h
    honey_mind.FakeFs.System.Reports.render_ps_output
    honey_mind.FakeFs.System.Reports.render_ps_aux_output
    honey_mind.FakeFs.System.Reports.render_ss_output
    honey_mind.FakeFs.System.Reports.render_netstat_output
    honey_mind.FakeFs.System.Reports.render_lsof_output
    honey_mind.FakeFs.System.Network.render_ip_addr honey_mind.FakeFs.System.Network.render_ifconfig
    honey_mind.FakeFs.System.Network.render_proc_route honey_mind.Prelude.path_parts
    honey_mind.Prelude.path_name
program = tt

abbrev machine : System
machine = record {
  hostname = codes "web01";
  username = codes "root";
  uid = 0;
  gid = 0;
  group = codes "root";
  uname_kernel = codes "5.15.0";
  cpu_count = 1;
  cpu_model = codes "cpu";
  mem_total_kb = 2048000;
  interface = codes "eth0";
  ip_address = codes "10.0.0.5";
  netmask = codes "255.255.255.0";
  cidr_prefix = 24;
  mac_address = codes "02:00:00:00:00:01";
  broadcast = codes "10.0.0.255";
  root_device = codes "/dev/sda1";
  clocksource = codes "tsc";
  distro_name = codes "Ubuntu";
  dmesg_lines = [];
  os_release_content = codes "NAME=Ubuntu";
  proc_cmdline = [];
  proc_mounts = [];
  proc_interrupts = [];
  dmi_info = record {
    product_name = codes "p";
    sys_vendor = codes "v";
    product_version = codes "1";
    board_name = codes "b";
    bios_vendor = codes "v";
    bios_version = codes "1";
  };
  machine = record { field_value = λ f. f ∷ [] };
}

abbrev env : Env
env = record {
  system = machine;
  data_file = none;
  lib = record { norm_join = λ cwd path. normalize_path path cwd };
  like = λ text pattern. false;
  fnmatch = λ text pattern. false;
  format_ls_l = λ node. node.name;
  takes_file = λ name. true;
}

abbrev clock : Clock
clock = record { seconds = 7; spelled = codes "2026-01-01 00:00:00" }

abbrev tmp : Text
tmp = codes "/tmp"

tmp-IsCanonical : IsCanonical tmp
unfolding program
tmp-IsCanonical = record {
  parts = codes "tmp" ∷ [];
  named = ((refl, refl, refl, (refl, (refl, (refl, tt)))), tt);
  spelled = refl;
}

abbrev session : Shell
session = record { cwd = tmp; nodes = dir_node tmp 1 ∷ []; downloads = [] }

session-IsValid : IsValid session
session-IsValid = record { canonical = tmp-IsCanonical; distinct = (tt, tt) }

Reached-Keeps_example :
    IsValid (query env clock (query env clock session (codes "mkdir d")).0 (codes "cd d")).0
    × StillThere session.nodes
        (query env clock (query env clock session (codes "mkdir d")).0 (codes "cd d")).0.nodes
Reached-Keeps_example =
    Reached-Keeps env session
      (query env clock (query env clock session (codes "mkdir d")).0 (codes "cd d")).0
      session-IsValid (asked (asked start clock (codes "mkdir d")) clock (codes "cd d"))

nameless : download_name (codes "http://host/") ≡ []
unfolding program
nameless = refl

download_over_folder_example :
    get_node (handle_download env clock session (codes "http://host/")).0.nodes tmp
    ≡ some (file_node tmp (codes "# downloaded from " ++ codes "http://host/") 7)
download_over_folder_example =
    download_over_folder env clock session (codes "http://host/") tmp-IsCanonical nameless

no_host : url_host (codes "evil.sh") ≡ none
unfolding program
no_host = refl

download_without_host_example :
    ((handle_download env clock session (codes "evil.sh")).1 ≡ raised)
    × (get_node
          (handle_download env clock session (codes "evil.sh")).0.nodes
          (normalize_path (download_name (codes "evil.sh")) tmp)
        ≡ some (
            file_node
              (normalize_path (download_name (codes "evil.sh")) tmp)
              (codes "# downloaded from " ++ codes "evil.sh")
              7))
download_without_host_example = download_without_host env clock session (codes "evil.sh") no_host

answers_pwd : (query env clock session (codes " pwd ")).1 ≡ replied hardcoded tmp
unfolding program
answers_pwd = refl

answers_mkdir :
    (query env clock (query env clock session (codes "mkdir  d")).0 (codes "cd ./d")).0.cwd
    ≡ codes "/tmp/d"
unfolding program
answers_mkdir = refl

answers_usage :
    (query env clock session (codes "wget")).1
    ≡ replied blocked (codes "Usage: wget <url> or curl <url>")
unfolding program
answers_usage = refl
