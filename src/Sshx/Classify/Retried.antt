-- ===== src/Sshx/Classify/Retried.antt =====
-- Which connection errors are tried again.
use remote_command_orchestra.Common.{Bool, false, not, Option, none, some}
use remote_command_orchestra.Sshx.Classify.{DnsError}

-- An error of the lookup of a name that will stay.
abbrev pub is_wrong_name : Option DnsError → Bool
is_wrong_name none = false
is_wrong_name (some d) = not d.is_timeout
