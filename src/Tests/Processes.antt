-- ===== src/Tests/Processes.antt =====
-- The theorems on processes and on the commands for nodes, on one launch and on one awkward path.
use pressure_platform.Prelude.{ℕ, ◌≡◌, refl, false, Bool, some, [], ◌∷◌}
use pressure_platform.Prelude.Text.{Text, codes, strip, split}
use pressure_platform.Prelude.Int.{pos}
use pressure_platform.Store.{ok}
use pressure_platform.ProcessRun.{RunStatus, ExecutionRun, RunnerDb, Launch, prepared}
use pressure_platform.ProcessRun.Ends.{
  ProcessOutput, Course, ran, end_of_process, run_process, exited,
}
use pressure_platform.ProcessRun.Verdicts.{
  IsSettled, end_of_process-IsSettled, run_process-IsSettled,
}
use pressure_platform.ShellSafety.{
  jmeter_server_path, validate_node_host, build_jmeter_server_start, rstrip_char,
  validate_directory, absolute_path_parts, is_bad_path, path_parts, is_bad_part, is_directory,
  is_directory_char, is_host_label, start_command, quote,
}
use pressure_platform.ShellSafety.Reader.{tokens}
use pressure_platform.ShellSafety.Commands.{start_tokens, build_jmeter_server_start_lem}
use pressure_platform.Tests.Samples.{running}

abbrev launch : Launch
launch = record {
  cmd = codes "jmeter -n";
  testcase_id = 1;
  report_id = 1;
  is_debug = false;
  jtl_path = codes "/data/a.jtl";
  log_file_path = codes "/data/a.log";
  worker_id = codes "master:1";
}

abbrev quiet : ProcessOutput
quiet = record { output_failed = false; log_size = 10; log_has_error = false; debug_response = [] }

abbrev before_launch : RunnerDb
before_launch = record { db = running; runs = []; next_run_id = 1 }

-- The run was asked to stop, and its process then exits with code 0.
abbrev stopping : ExecutionRun
stopping = record (prepared 1 1 launch [] 100) {
  status = RunStatus.stopping;
  stop_requested_at = some 150;
}

abbrev while_stopping : RunnerDb
while_stopping = record { db = running; runs = stopping ∷ []; next_run_id = 2 }

end_of_process-IsSettled_example :
    IsSettled 1 200 stopping (end_of_process launch (exited (pos 0) quiet) 200 while_stopping)
end_of_process-IsSettled_example =
    end_of_process-IsSettled launch (exited (pos 0) quiet) 200 while_stopping stopping refl

abbrev course : Course
course = ran 4711 4711 (λ s. s) (exited (pos 1) quiet)

run_process-IsSettled_example :
    (was : ExecutionRun) × IsSettled 1 200 was (run_process launch course 100 200 before_launch)
run_process-IsSettled_example = run_process-IsSettled launch course 100 200 before_launch (λ s h. h)

-- A folder with a blank and brackets, and a host by its name.
abbrev bin_home : Text
bin_home = codes "/opt/jmeter (5)/bin/"

abbrev log_home : Text
log_home = codes "/var/log"

abbrev host : Text
host = codes "node-1.lan"

abbrev no_others : ℕ → Bool
no_others c = false

abbrev no_ip : Text → Bool
no_ip s = false

abbrev line : Text
line =
    codes
      "mkdir -p -- /var/log && cd -- /var/log && nohup '/opt/jmeter (5)/bin/jmeter-server' -Djava.rmi.server.hostname=node-1.lan > jmeter-server.log 2>&1 & echo $!"

built : build_jmeter_server_start no_others no_ip bin_home log_home host ≡ ok line
unfolding build_jmeter_server_start jmeter_server_path validate_directory absolute_path_parts
    is_bad_path strip path_parts split rstrip_char is_bad_part is_directory is_directory_char
    validate_node_host is_host_label start_command quote
built = refl

build_jmeter_server_start_lem_example :
    (server : Text) × (jmeter_server_path no_others bin_home ≡ ok server)
    × (validate_node_host no_ip host ≡ ok host)
    × (tokens line ≡ some (start_tokens server (rstrip_char 47 log_home) host))
build_jmeter_server_start_lem_example =
    build_jmeter_server_start_lem no_others no_ip bin_home log_home host line built
