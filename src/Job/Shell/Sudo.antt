-- ===== src/Job/Shell/Sudo.antt =====
-- What the remote shell makes of the command line of an action that runs under sudo.
use remote_command_orchestra.Common.{
  Bool, true, false, List, [], ◌∷◌, ◌++◌, Bytes, codes, some, ◌≡◌,
}
use remote_command_orchestra.Job.Shell.Words.{simple_command}

-- The words in front of the command: -S reads the password from stdin, -n never asks for one.
abbrev pub sudo_words : Bool → List Bytes
sudo_words true =
    codes "sudo"
    ∷ codes "-k"
    ∷ codes "-S"
    ∷ codes "-p"
    ∷ []
    ∷ codes "--"
    ∷ codes "sh"
    ∷ codes "-c"
    ∷ []
sudo_words false = codes "sudo" ∷ codes "-n" ∷ codes "--" ∷ codes "sh" ∷ codes "-c" ∷ []

-- The line of `a` under sudo, against the line of the same action without sudo.
abbrev UnderSudo : Bool → Bytes → Bytes → Type 0
UnderSudo pw plain line =
    (cmd tail : Bytes) × (plain ≡ cmd ++ tail)
    × (simple_command line ≡ some (sudo_words pw ++ cmd ∷ [], tail))
