-- ===== src/ShellSafety.antt =====
-- The commands that the master runs on pressure nodes (api/app/core/shell_safety.py), with
-- `shlex.quote`, and a reader of POSIX shell words to say what a shell makes of them. What
-- `str.isalnum` says of characters beyond ASCII and `ipaddress.ip_address` are arguments.
pub mod Reader
pub mod Commands
use pressure_platform.Prelude.{
  ℕ, ◌+◌, Bool, true, false, not, ◌&&◌, ◌||◌, List, [], ◌∷◌, ◌++◌, if◌then◌else◌, ◌==◌, leb, ltb,
  any, length, map, is_nil, keep, Option, none, some,
}
use mathlib.Core.List.{reverse}
use pressure_platform.Prelude.Text.{Text, codes, text_eq, is_empty, strip, split}
use pressure_platform.Store.{Code, Error, Result, ok, err, and_then}

-- `[A-Za-z0-9]`
abbrev pub is_ascii_alnum : ℕ → Bool
is_ascii_alnum c = (leb 48 c && leb c 57) || (leb 65 c && leb c 90) || (leb 97 c && leb c 122)

abbrev pub param_wrong : Text → Error
param_wrong message = Error.mysterious Code.param_wrong (some message)

-- `s.rstrip(c)` for one character.
abbrev drop_char : ℕ → Text → Text
drop_char c [] = []
drop_char c (d ∷ s) = if d == c then drop_char c s else d ∷ s

unfoldable pub rstrip_char : ℕ → Text → Text
rstrip_char c s = reverse (drop_char c (reverse s))

abbrev starts_with : ℕ → Text → Bool
starts_with c [] = false
starts_with c (d ∷ s) = d == c

abbrev tail_of : List Text → List Text
tail_of [] = []
tail_of (_ ∷ parts) = parts

abbrev is_control : ℕ → Bool
is_control c = ltb c 32 || c == 127

-- The first test of `_absolute_path_parts`.
unfoldable pub is_bad_path : Text → Bool
is_bad_path value =
    is_empty value
    || not (starts_with 47 value)
    || not (text_eq value (strip value))
    || any is_control value

-- A part of a path that is empty, blank, or a step to this or the upper folder.
unfoldable pub is_bad_part : Text → Bool
is_bad_part part =
    is_empty part || text_eq part (codes ".") || text_eq part (codes "..") || is_empty (strip part)

-- `value.rstrip("/").split("/")[1:]`
unfoldable pub path_parts : Text → List Text
path_parts value = tail_of (split 47 (rstrip_char 47 value))

unfoldable pub absolute_path_parts : Text → Text → Result (List Text)
absolute_path_parts value label =
    if is_bad_path value
    then err (param_wrong (label ++ codes " 必须是非空 Linux 绝对路径，不能包含控制字符"))
    else if is_nil (path_parts value) || any is_bad_part (path_parts value)
    then err (param_wrong (label ++ codes " 不能是根目录或包含空目录、.、.. 路径段"))
    else ok (path_parts value)

-- `shlex.quote`: the characters that need no quotes.
abbrev pub is_safe : ℕ → Bool
is_safe c =
    is_ascii_alnum c
    || c == 95
    || c == 64
    || c == 37
    || c == 43
    || c == 61
    || c == 58
    || c == 44
    || c == 46
    || c == 47
    || c == 45

-- `s.replace("'", "'\"'\"'")`
unfoldable pub escape_quotes : Text → Text
escape_quotes [] = []
escape_quotes (c ∷ s) =
    let rest = escape_quotes s in if c == 39 then 39 ∷ 34 ∷ 39 ∷ 34 ∷ 39 ∷ rest else c ∷ rest

unfoldable pub quote : Text → Text
unfolding escape_quotes
quote s =
    if is_empty s || any (λ c. not (is_safe c)) s then 39 ∷ (escape_quotes s ++ (39 ∷ [])) else s

module _ (is_alnum : ℕ → Bool) where
  -- `[\w .()/\-]`
  unfoldable pub is_directory_char : ℕ → Bool
  is_directory_char c =
      (if ltb c 128 then is_ascii_alnum c else is_alnum c)
      || c == 95
      || c == 32
      || c == 46
      || c == 40
      || c == 41
      || c == 47
      || c == 45

  -- `_DIRECTORY_RE.fullmatch`: a slash and at least one of those characters.
  unfoldable pub is_directory : Text → Bool
  is_directory [] = false
  is_directory (c ∷ s) = c == 47 && not (is_empty s) && not (any (λ d. not (is_directory_char d)) s)

  unfoldable pub validate_directory : Text → Text → Result Text
  validate_directory value label = and_then (absolute_path_parts value label) (λ parts.
      if is_directory value
      then ok value
      else err (param_wrong (label ++ codes " 仅允许字母、数字、中文、空格、下划线、连字符、点、括号和目录分隔符，不能包含 Shell 表达式")))

  unfoldable pub jmeter_server_path : Text → Result Text
  jmeter_server_path slave_bin =
      and_then (validate_directory slave_bin (codes "SLAVE_JMETER_BIN_HOME"))
        (λ folder. ok (rstrip_char 47 folder ++ codes "/jmeter-server"))

-- `_HOST_LABEL_RE.fullmatch`: at most 63 letters, digits and hyphens, with no hyphen at the ends.
unfoldable pub is_host_label : Text → Bool
is_host_label label =
    not (is_empty label)
    && leb (length label) 63
    && not (any (λ c. not (is_ascii_alnum c || c == 45)) label)
    && not (starts_with 45 label)
    && not (starts_with 45 (reverse label))

-- `host.removesuffix(".")`
abbrev cut_dot : Text → Text
cut_dot [] = []
cut_dot (c ∷ s) = if c == 46 then s else c ∷ s

unfoldable pub is_hostname : Text → Bool
is_hostname host =
    not (is_empty host)
    && leb (length host) 253
    && any (λ c. not ((leb 48 c && leb c 57) || c == 46)) host
    && not (any (λ label. not (is_host_label label)) (split 46 (reverse (cut_dot (reverse host)))))

module _ (is_ip : Text → Bool) where
  unfoldable pub validate_node_host : Text → Result Text
  unfolding is_hostname
  validate_node_host host =
      if (is_ip host && not (any (λ c. c == 37) host)) || is_hostname host
      then ok host
      else err (param_wrong (codes "节点地址必须是有效的 IP 或主机名，不能包含端口、空格或 Shell 表达式"))

-- The command line of `build_jmeter_server_start`.
unfoldable pub start_command : Text → Text → Text → Text
start_command server log_dir host =
    codes "mkdir -p -- "
    ++ (quote log_dir
        ++ (codes " && cd -- "
            ++ (quote log_dir
                ++ (codes " && nohup "
                    ++ (quote server
                        ++ (codes " "
                            ++ (quote (codes "-Djava.rmi.server.hostname=" ++ host)
                                ++ codes " > jmeter-server.log 2>&1 & echo $!")))))))

unfoldable pub build_jmeter_server_start :
    (ℕ → Bool) → (Text → Bool) → Text → Text → Text → Result Text
build_jmeter_server_start is_alnum is_ip slave_bin slave_log host =
    and_then (jmeter_server_path is_alnum slave_bin) (λ server.
      and_then (validate_directory is_alnum slave_log (codes "SLAVE_JMETER_LOG_HOME")) (λ log_home.
        and_then (validate_node_host is_ip host)
          (λ _. ok (start_command server (rstrip_char 47 log_home) host))))

unfoldable pub build_remote_file_remove : Text → Result Text
build_remote_file_remove remote_path =
    and_then (absolute_path_parts remote_path (codes "远程删除文件路径"))
      (λ _. ok (codes "rm -f -- " ++ quote remote_path))
