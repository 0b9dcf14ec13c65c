-- ===== src/ShellSafety/Commands.antt =====
-- What a shell reads in the commands for pressure nodes (api/app/core/shell_safety.py).
use pressure_platform.Prelude.{
  ℕ, ◌≡◌, refl, sym, ap, ◌∙◌, Bool, not, ◌&&◌, ◌||◌, ◌==◌, some, List, [], ◌∷◌, ◌++◌, arith, any,
  inl, inr, Bool-cases,
}
use mathlib.Core.List.{append-nil}
use pressure_platform.Prelude.Text.{Text, codes}
use pressure_platform.Store.{Result, ok, err, and_then}
use pressure_platform.ShellSafety.{
  quote, absolute_path_parts, validate_directory, jmeter_server_path, validate_node_host,
  is_directory, is_hostname, rstrip_char, start_command, build_jmeter_server_start,
  build_remote_file_remove,
}
use pressure_platform.ShellSafety.Reader.{
  Token, word, sign, expansion, Mode, kind_of, read_from, tokens, read_from-quote,
}

abbrev word_of : Text → Token
word_of = word

and_then-ok {ℓ κ} :
    {A : Type ℓ} {B : Type κ} (r : Result A) (f : A → Result B) (b : B)
    → and_then r f ≡ ok b
    → (a : A) × (r ≡ ok a) × (f a ≡ ok b)
and_then-ok (ok a) f b h = (a, refl, h)
and_then-ok (err e) f b h = ground arith

quote_alone : (s : Text) → read_from Mode.between [] (quote s) ≡ some (word s ∷ [])
unfolding read_from
quote_alone s = ap (read_from Mode.between []) (sym (append-nil (quote s))) ∙ read_from-quote s []

remove_line :
    (path : Text)
    → tokens (codes "rm -f -- " ++ quote path)
      ≡ some (word (codes "rm") ∷ word (codes "-f") ∷ word (codes "--") ∷ word path ∷ [])
unfolding tokens kind_of
remove_line path = rw (quote_alone path) refl

-- Whatever the path holds, the command that removes a file, once it is built, is read by a shell as
-- `rm` with two options and that path as its one operand.
pub build_remote_file_remove_lem :
    (path line : Text)
    → build_remote_file_remove path ≡ ok line
    → tokens line
      ≡ some (word (codes "rm") ∷ word (codes "-f") ∷ word (codes "--") ∷ word path ∷ [])
unfolding build_remote_file_remove
build_remote_file_remove_lem path line h =
    let (parts, _, built) =
      and_then-ok (absolute_path_parts path (codes "远程删除文件路径"))
        (λ _. ok (codes "rm -f -- " ++ quote path)) line h in
    let same : codes "rm -f -- " ++ quote path ≡ line = ground arith in
    rw (← same) (remove_line path)

-- The words of the start of a JMeter server, as a shell reads them.
abbrev pub start_tokens : Text → Text → Text → List Token
start_tokens server log_dir host =
    word (codes "mkdir")
    ∷ word (codes "-p")
    ∷ word (codes "--")
    ∷ word log_dir
    ∷ sign 38
    ∷ sign 38
    ∷ word (codes "cd")
    ∷ word (codes "--")
    ∷ word log_dir
    ∷ sign 38
    ∷ sign 38
    ∷ word (codes "nohup")
    ∷ word server
    ∷ word (codes "-Djava.rmi.server.hostname=" ++ host)
    ∷ sign 62
    ∷ word (codes "jmeter-server.log")
    ∷ word (codes "2")
    ∷ sign 62
    ∷ sign 38
    ∷ word (codes "1")
    ∷ sign 38
    ∷ word (codes "echo")
    ∷ expansion 33
    ∷ []

-- A check that passes returns what it was given.
validate_directory-same :
    (is_alnum : ℕ → Bool) (value label out : Text)
    → validate_directory is_alnum value label ≡ ok out
    → out ≡ value
unfolding validate_directory
validate_directory-same is_alnum value label out h =
    let (parts, _, checked) = and_then-ok (absolute_path_parts value label) _ out h in
    elim (Bool-cases (is_directory is_alnum value)) [
      | inl e ↦ ground (arith, checked, e)
      | inr e ↦ ground (arith, checked, e)
    ]

validate_node_host-same :
    (is_ip : Text → Bool) (host out : Text)
    → validate_node_host is_ip host ≡ ok out
    → validate_node_host is_ip host ≡ ok host
unfolding validate_node_host
validate_node_host-same is_ip host out h =
    elim (Bool-cases ((is_ip host && not (any (λ c. c == 37) host)) || is_hostname host)) [
      | inl e ↦ rw e refl
      | inr e ↦ absurd (ground (arith, h, e))
    ]

start_line :
    (server log_dir host : Text)
    → tokens (start_command server log_dir host) ≡ some (start_tokens server log_dir host)
unfolding tokens kind_of start_command
start_line server log_dir host = rw (read_from-quote log_dir _) (
    rw (read_from-quote log_dir _) (
      rw (read_from-quote server _)
        (rw (read_from-quote (codes "-Djava.rmi.server.hostname=" ++ host) _) refl)))

-- Whatever the two folders and the host hold, the command that starts a JMeter server on a node,
-- once it is built, is read by a shell as the same few words and signs, with the folder of logs, the
-- path of the server and the option for the host as one word each.
pub build_jmeter_server_start_lem :
    (is_alnum : ℕ → Bool) (is_ip : Text → Bool) (slave_bin slave_log host line : Text)
    → build_jmeter_server_start is_alnum is_ip slave_bin slave_log host ≡ ok line
    → (server : Text) × (jmeter_server_path is_alnum slave_bin ≡ ok server)
      × (validate_node_host is_ip host ≡ ok host)
      × (tokens line ≡ some (start_tokens server (rstrip_char 47 slave_log) host))
unfolding build_jmeter_server_start
build_jmeter_server_start_lem is_alnum is_ip slave_bin slave_log host line h =
    let (server, found, logged) = and_then-ok (jmeter_server_path is_alnum slave_bin) _ line h in
    let (log_home, valid, hosted) =
      and_then-ok (validate_directory is_alnum slave_log (codes "SLAVE_JMETER_LOG_HOME")) _ line
        logged in
    let (checked, named, built) = and_then-ok (validate_node_host is_ip host) _ line hosted in
    let same : start_command server (rstrip_char 47 log_home) host ≡ line = ground arith in
    let kept =
      validate_directory-same is_alnum slave_log (codes "SLAVE_JMETER_LOG_HOME") log_home valid in
    (
      server,
      found,
      validate_node_host-same is_ip host checked named,
      rw (← same, kept) (start_line server (rstrip_char 47 slave_log) host),
    )
