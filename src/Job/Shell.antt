-- ===== src/Job/Shell.antt =====
-- internal/job/build.go: quoting for the remote shell, and the command line of an action.
pub mod Words
pub mod Sudo
use remote_command_orchestra.Common.{
  Bool, true, false, List, [], ◌∷◌, ◌++◌, Bytes, codes, Option, replace_all, none, some, ℤ,
  if◌then◌else◌,
}

unfoldable pub quote : Bytes → Bytes
unfolding replace_all
quote s = codes "'" ++ (replace_all s (codes "'") (codes "'\\''") ++ codes "'")

pub data Kind : Type 0 where
  command script copy : Kind
  -- The empty string: a step that has none of the three, which validation refuses.
  unset : Kind

-- One step made concrete for a host. `content` is none where the source has nil. A regular
-- expression is its text, compiled where it is matched.
pub record Action : Type 0 where
  pub name : Bytes
  pub kind : Kind
  pub display : Bytes
  pub shell : Bytes
  pub content : Option Bytes
  pub dest : Bytes
  pub mode : Bytes
  pub sudo : Bool
  pub exit_code : ℤ
  pub contains : List Bytes
  pub not_contains : List Bytes
  pub regex : Option Bytes
  pub timeout : ℤ
  pub retries : ℤ
  pub retry_delay : ℤ
  pub continue_on_error : Bool
  pub sensitive : Bool
  pub reboot : Bool
  pub disconnect : Bool
  pub reconnect_timeout : ℤ
  pub fire_and_forget : Bool

abbrev pub upload_command : Bytes
upload_command = codes "umask 077 && t=$(mktemp) && cat > \"$t\" && printf '%s' \"$t\""

cleanup : Bytes → Bytes → Bytes
cleanup cmd tmp = cmd ++ (codes "; rc=$?; rm -f " ++ (quote tmp ++ codes "; exit $rc"))

wrap : Action → Bool → Bytes → Bytes
wrap a sudo_password cmd =
    if a.sudo
    then (if sudo_password
        then codes "sudo -k -S -p '' -- sh -c " ++ quote cmd
        else codes "sudo -n -- sh -c " ++ quote cmd)
    else cmd

-- The command that puts an uploaded file in its place.
place : Action → Bytes → Bytes
place a tmp =
    let dest = quote a.dest in
    codes "p=$(mktemp \"$(dirname "
    ++ (dest
        ++ (codes ")/.rco-tmp.XXXXXX\") && { cp "
            ++ (quote tmp
                ++ (codes " \"$p\" && chmod "
                    ++ (a.mode
                        ++ (codes " \"$p\" && mv -f \"$p\" "
                            ++ (dest ++ codes " || { rm -f \"$p\"; false; }; }")))))))

background : Action → Bytes
background a = codes "(trap '' HUP; " ++ (a.shell ++ codes ") </dev/null >/dev/null 2>&1 &")

-- The switch of Remote, on the kind and on whether there is content.
remote_of : Kind → Option Bytes → Action → Bytes → Bool → Bytes
unfolding cleanup wrap place background
remote_of script content a tmp pw = cleanup (wrap a pw (codes "bash " ++ quote tmp)) tmp
remote_of command (some body) a tmp pw = cleanup (wrap a pw (codes "sh " ++ quote tmp)) tmp
remote_of command none a tmp pw =
    if a.fire_and_forget then wrap a pw (background a) else wrap a pw a.shell
remote_of unset content a tmp pw =
    if a.fire_and_forget then wrap a pw (background a) else wrap a pw a.shell
remote_of copy content a tmp pw =
    if a.fire_and_forget then wrap a pw (background a) else cleanup (wrap a pw (place a tmp)) tmp

unfoldable pub remote : Action → Bytes → Bool → Bytes
unfolding remote_of
remote a tmp sudo_password = remote_of a.kind a.content a tmp sudo_password
