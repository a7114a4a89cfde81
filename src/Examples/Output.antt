-- ===== src/Examples/Output.antt =====
-- The theorems on output, commands, secrets and templates, on concrete inputs.
use remote_command_orchestra.Common.{
  insert_all, among, ◌+◌, ◌/◌, ◌≤◌, ◌<◌, true, List, [], ◌∷◌, ◌++◌, Bytes, codes, Option, none,
  some, ◌≡◌, ◌≢◌, ◌↔◌, inl, inr, refl, arith, concat, length, Occurs, All, Dict, lookup, insert,
  eq_bytes, is_prefix, contains,
}
use remote_command_orchestra.Sshx.Buffer.{new_buffer, write_all, found_at, to_string}
use remote_command_orchestra.Sshx.Buffer.Search.{found_at_iff}
use remote_command_orchestra.Sshx.Buffer.Retained.{to_string-shown, write_all_bounds, shown}
use remote_command_orchestra.Job.Shell.{quote, Action}
use remote_command_orchestra.Job.Shell.Words.{simple_command, quote-one_word, at_end, push_word}
use remote_command_orchestra.Job.Template.{render, references}
use remote_command_orchestra.Job.Template.Fill.{render_defined}
use remote_command_orchestra.Job.Variables.{Variable, Inputs, check_value, resolve}
use remote_command_orchestra.Job.Variables.Printable.{IsPrintable}
use remote_command_orchestra.Job.Variables.Precedence.{Met, resolve-Met}
use remote_command_orchestra.Credentials.Redactor.{add, redact}
use remote_command_orchestra.Credentials.Redactor.Removed.{redact-add, Maskable}
use remote_command_orchestra.Examples.{uptime}

-- The stream "abcd" in two writes.
abbrev parts : List Bytes
parts = codes "ab" ∷ codes "cd" ∷ []

found_at_iff_example :
    (found_at (write_all (new_buffer 2 (codes "bc" ∷ [])) parts) 0 ≡ some true)
    ↔ Occurs (codes "bc") (concat parts)
found_at_iff_example = found_at_iff 2 (codes "bc" ∷ []) parts 0 (codes "bc") refl (ground arith)

to_string-shown_example : to_string (write_all (new_buffer 2 []) parts) ≡ shown 2 (concat parts)
to_string-shown_example = to_string-shown 2 [] parts

write_all_bounds_example :
    let b = write_all (new_buffer 2 []) parts in
    (length b.head + length b.tail ≤ 2 + 2 / 2)
    × (b.total ≡ length (concat parts))
    × ((b.truncated ≡ true) ↔ (2 < length (concat parts)))
write_all_bounds_example = write_all_bounds 2 [] parts

quote-one_word_example :
    simple_command (quote (codes "it's") ++ []) ≡ push_word (codes "it's") (simple_command [])
quote-one_word_example = quote-one_word (codes "it's") [] at_end

abbrev as_root : Action
as_root = record uptime { sudo = true }

abbrev vars : Dict Bytes
vars = (codes "x", codes "1") ∷ []

render_defined_example :
    (names : List Bytes) × (references (codes "{{.x}}") ≡ inl names)
    × All (λ n. lookup n vars ≢ none) names
unfolding render references lookup is_prefix eq_bytes
render_defined_example = render_defined (codes "{{.x}}") vars (codes "1") refl

abbrev secrets : List Bytes
secrets = codes "hunter2" ∷ []

hunter2-Maskable : Maskable (codes "hunter2")
unfolding contains is_prefix
hunter2-Maskable = record {
  some_bytes = ground arith;
  lacks_begin = ground arith;
  lacks_end = ground arith;
  not_inside = refl;
}

redact-add_example : ¬ Occurs (codes "hunter2") (redact (add [] secrets) (codes "pw=hunter2"))
unfolding among eq_bytes
redact-add_example =
    redact-add [] secrets (codes "pw=hunter2") (codes "hunter2") (inr (refl, ground arith))
      hunter2-Maskable

-- A sensitive variable that is taken from the process environment.
abbrev declarations : Dict Variable
declarations = (codes "t", record { required = true; default = none; sensitive = true }) ∷ []

abbrev inputs : Inputs
inputs = record { host = vars; job = []; job_env = (codes "t", codes "TOKEN") ∷ [] }

abbrev environment : Bytes → Option Bytes
environment name = some (codes "hunter2")

abbrev values : Dict Bytes
values = (codes "x", codes "1") ∷ (codes "t", codes "hunter2") ∷ []

resolve-Met_example :
    All (λ kv. All IsPrintable kv.1) values
    × All (Met inputs values (codes "hunter2" ∷ codes "hunter2" ∷ [])) declarations
unfolding resolve lookup eq_bytes check_value insert insert_all
resolve-Met_example =
    resolve-Met declarations inputs environment values (codes "hunter2" ∷ codes "hunter2" ∷ []) refl
