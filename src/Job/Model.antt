-- ===== src/Job/Model.antt =====
-- Build of internal/job/build.go: the steps of a job made concrete for one host.
pub mod Once
pub mod Private
use remote_command_orchestra.Common.{
  before, ℕ, ltb, ◌==◌, Bool, true, false, not, ◌&&◌, ◌||◌, List, [], ◌∷◌, ◌++◌, Bytes, codes,
  is_nil, Dict, lookup, quoted, Option, none, some, ℤ, pos, negsuc, leb_ℤ, and_then, ◌⊎◌, inl, inr,
  if◌then◌else◌, ◌*◌, eq_bytes,
}
use remote_command_orchestra.Domain.{Failure, Category, sensitive_mask}
use remote_command_orchestra.Job.Shell.{Kind, command, script, copy, unset, Action, quote}
use remote_command_orchestra.Job.Template.{render}
use remote_command_orchestra.Job.Variables.{Variable}

pub record Copy : Type 0 where
  pub src : Bytes
  pub dest : Bytes
  pub mode : Bytes
  pub template : Bool
  pub body : Bytes

pub record Expect : Type 0 where
  pub exit_code : Option ℤ
  pub contains : List Bytes
  pub not_contains : List Bytes
  pub regex : Bytes

pub record JobStep : Type 0 where
  pub name : Bytes
  pub command : Bytes
  pub script : Bytes
  pub copy : Option Copy
  pub sudo : Option Bool
  pub expect : Expect
  pub timeout : ℤ
  pub retries : Option ℤ
  pub retry_delay : ℤ
  pub continue_on_error : Bool
  pub sensitive : Bool
  pub reboot : Bool
  pub disconnect : Bool
  pub reconnect_timeout : ℤ
  pub fire_and_forget : Bool
  pub script_body : Bytes

pub record Defaults : Type 0 where
  pub timeout : ℤ
  pub retries : ℤ
  pub retry_delay : ℤ
  pub sudo : Bool

-- The description, the version, the hash and the path of a job only pass into its report.
pub record JobFile : Type 0 where
  pub name : Bytes
  pub max_failures : Bytes
  pub variables : Dict Variable
  pub defaults : Defaults
  pub steps : List JobStep

pub record Settings : Type 0 where
  pub timeout : ℤ
  pub retry_delay : ℤ

-- first: the first positive duration, or zero.
unfoldable pub first : List ℤ → ℤ
first [] = pos 0
first (d ∷ ds) = let rest = first ds in if not (leb_ℤ d (pos 0)) then d else rest

-- Durations are in nanoseconds.
abbrev pub minutes : ℕ → ℤ
minutes n = pos (n * 60000000000)

unfoldable pub reconnect_within : JobStep → ℤ
reconnect_within st =
    if st.reboot
    then first (st.reconnect_timeout ∷ minutes 10 ∷ [])
    else (if st.disconnect then first (st.reconnect_timeout ∷ minutes 5 ∷ []) else pos 0)

-- A command that may drop the connection, or is not waited for, must not run twice.
unfoldable pub retries_of : JobStep → ℤ → ℤ
retries_of st default =
    if (st.reboot || st.disconnect) || st.fire_and_forget
    then pos 0
    else (elim st.retries [ none ↦ default | some n ↦ n ])

sort_in : (Bytes × Bytes) → Dict Bytes → Dict Bytes
sort_in v [] = v ∷ []
sort_in v (u ∷ us) = let rest = sort_in v us in if before v.0 u.0 then v ∷ (u ∷ us) else u ∷ rest

sorted : Dict Bytes → Dict Bytes
sorted [] = []
sorted (v ∷ vs) = sort_in v (sorted vs)

export_lines : Dict Bytes → Bytes
export_lines [] = []
export_lines ((k, v) ∷ vs) =
    codes "export " ++ (k ++ (codes "=" ++ (quote v ++ (codes "\n" ++ export_lines vs))))

unfoldable pub exports : Dict Bytes → Bytes
unfolding export_lines sorted sort_in before
exports vars = export_lines (sorted vars)

render_all : List Bytes → Dict Bytes → List Bytes ⊎ Bytes
render_all [] vars = inl []
render_all (s ∷ texts) vars =
    let rest = render_all texts vars in
    and_then (render s vars) (λ r. and_then rest (λ rs. inl (r ∷ rs)))

-- The action before its switch on the kind, with the rendered expectations.
start_action : Defaults → JobStep → Settings → List Bytes → List Bytes → Action
start_action d st s contains not_contains = record {
  name = st.name;
  kind = unset;
  display = [];
  shell = [];
  content = none;
  dest = [];
  mode = [];
  sudo = elim st.sudo [ none ↦ d.sudo | some b ↦ b ];
  exit_code = elim st.expect.exit_code [ none ↦ pos 0 | some n ↦ n ];
  contains = contains;
  not_contains = not_contains;
  regex = if is_nil st.expect.regex then none else some st.expect.regex;
  timeout = first (st.timeout ∷ d.timeout ∷ s.timeout ∷ []);
  retries = retries_of st d.retries;
  retry_delay = first (st.retry_delay ∷ d.retry_delay ∷ s.retry_delay ∷ []);
  continue_on_error = st.continue_on_error;
  sensitive = st.sensitive;
  reboot = st.reboot;
  disconnect = st.reboot || st.disconnect;
  reconnect_timeout = reconnect_within st;
  fire_and_forget = st.fire_and_forget;
}

copy_mode : Copy → Bytes
copy_mode c = if is_nil c.mode then codes "0644" else c.mode

copy_content : Copy → Dict Bytes → Bytes ⊎ Bytes
copy_content c vars = elim c.template [ true ↦ render c.body vars | false ↦ inl c.body ]

copy_action : Action → Copy → Bytes → Bytes → Action
copy_action a c dest content = record a {
  kind = copy;
  dest = dest;
  content = some content;
  mode = copy_mode c;
  display =
      codes "copy "
      ++ (c.src ++ (codes " -> " ++ (dest ++ (codes " (mode " ++ (copy_mode c ++ codes ")")))));
}

-- The switch on the kind, for a step with neither a command nor a script.
copied : Action → Option Copy → Dict Bytes → Action ⊎ Bytes
copied a none vars = inl a
copied a (some c) vars =
    and_then (render c.dest vars)
      (λ dest. and_then (copy_content c vars) (λ content. inl (copy_action a c dest content)))

commanded : Action → Bytes → Action
commanded a shell = record a { kind = command; shell = shell; display = shell }

scripted : Action → JobStep → Dict Bytes → Action
scripted a st vars = record a {
  kind = script;
  display = codes "script " ++ st.script;
  content = some (exports vars ++ st.script_body);
}

with_body : Action → JobStep → Dict Bytes → Action ⊎ Bytes
with_body a st vars = elim (is_nil st.command) [
  | false ↦ and_then (render st.command vars) (λ shell. inl (commanded a shell))
  | true ↦ elim (is_nil st.script) [
    | false ↦ inl (scripted a st vars)
    | true ↦ copied a st.copy vars
  ]
]

-- A sensitive command travels as a file's content.
hide_if : Bool → Action → Action
hide_if false a = a
hide_if true a = record a {
  display = sensitive_mask;
  content = elim a.kind [ command ↦ some (a.shell ++ codes "\n") | _ ↦ a.content ];
}

hide : Action → Action
unfolding hide_if
hide a = hide_if a.sensitive a

unfoldable pub build_step : JobFile → JobStep → Dict Bytes → Settings → Action ⊎ Bytes
unfolding render_all start_action with_body commanded scripted copied copy_action copy_content
    copy_mode hide hide_if
build_step j st vars s = and_then (render_all st.expect.contains vars) (λ contains.
    and_then (render_all st.expect.not_contains vars) (λ not_contains.
      and_then (with_body (start_action j.defaults st s contains not_contains) st vars)
        (λ a. inl (hide a))))

build_error : JobStep → Bytes → Failure
build_error st err = record {
  category = Category.template_error;
  reason = codes "step " ++ (quoted st.name ++ (codes ": " ++ err));
}

abbrev join_built : JobStep → Action ⊎ Bytes → List Action ⊎ Failure → List Action ⊎ Failure
join_built st (inr err) rest = inr (build_error st err)
join_built st (inl a) (inl actions) = inl (a ∷ actions)
join_built st (inl a) (inr f) = inr f

build_from : JobFile → List JobStep → Dict Bytes → Settings → List Action ⊎ Failure
build_from j [] vars s = inl []
build_from j (st ∷ steps) vars s =
    join_built st (build_step j st vars s) (build_from j steps vars s)

-- Build: the actions, or the failure of the first step that cannot be rendered.
unfoldable pub build : JobFile → Dict Bytes → Settings → List Action ⊎ Failure
unfolding build_from build_error
build j vars s = build_from j j.steps vars s
