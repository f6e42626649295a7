-- ===== src/Examples/Spec.antt =====
-- A document of shell specifications, as src/shellspec.rs renders it.
use ferrous_framework.Base.{
  ℕ, ◌≡◌, ◌<◌, refl, String, str_eq, true, if◌then◌else◌, none, some, List, [], ◌∷◌, ok, arith,
}
use ferrous_framework.Json.{Value, string, array, object, nil, cons, end, field}
use ferrous_framework.ShellSpec.Template.{RenderInput, Render, render_string, render_value}
use ferrous_framework.ShellSpec.Printed.{Tail, print, IsTemplate, fill}
use ferrous_framework.ShellSpec.Split.{render_string-total}
use ferrous_framework.ShellSpec.Total.{SameForm, Ends, render_value-Ends}
use ferrous_framework.ShellSpec.Entry.{Libraries, ShellSpec, render_shellspec_entries}
use ferrous_framework.ShellSpec.Rendered.{IsFrom, render_shellspec_entries-IsFrom}

abbrev render : Render
render = record { free_port = some 4100; print_port = λ _. "4100" }

abbrev input : RenderInput
input = record { ctx = ("name", "demo") ∷ []; env = ("HOME", "/root") ∷ [] }

abbrev libraries : Libraries
libraries = record {
  split = λ command. some (command ∷ []);
  print_value = λ _. "?";
  as_f64 = λ _. none;
  parse_f64 = λ _. none;
  parse_u16 = λ text. if str_eq text "4100" then some 4100 else none;
}

libraries_bounded : (s : String) (n : ℕ) → libraries.parse_u16 s ≡ some n → n < 65536
libraries_bounded s n h = ground arith

-- {"shells": {"web": {"command": ["serve", "${ free_port }"], "cwd": "${HOME}/${ctx:name}",
--   "readiness": {"type": "tcp", "port": "${free_port}"}}}}
abbrev shell : Value
shell = object (
    field "command" (array (cons (string "serve") (cons (string "${ free_port }") nil))) (
      field "cwd" (string "${HOME}/${ctx:name}") (
        field "readiness"
          (object (field "type" (string "tcp") (field "port" (string "${free_port}") end))) end)))

abbrev document : Value
document = object (field "shells" (object (field "web" shell end)) end)

abbrev web : ShellSpec
web = record {
  id = "web";
  backend = "proc";
  command = "serve" ∷ "4100" ∷ [];
  cwd = some "/root/demo";
  env = [];
  subgroups = [];
  ui = end;
  debug = end;
  log_codecs = end;
  pty_mode = "raw";
  autostart = true;
  readiness = some (record {
    probe_type = "tcp";
    timeout_seconds = 4629137466983448576;
    pattern = none;
    host = "127.0.0.1";
    port = some 4100;
    url = none;
    status_codes = 200 ∷ [];
  });
}

render_shellspec_entries_run :
    render_shellspec_entries libraries render input document ≡ ok (web ∷ [])
unfolding render_shellspec_entries
render_shellspec_entries_run = refl

render_shellspec_entries-IsFrom_example : IsFrom render input libraries document (web ∷ [])
render_shellspec_entries-IsFrom_example =
    render_shellspec_entries-IsFrom libraries libraries_bounded render input document (web ∷ [])
      render_shellspec_entries_run

render_value-Ends_example :
    Ends render (SameForm document) none (render_value render input document none)
render_value-Ends_example = render_value-Ends render input document none

render_string-total_example :
    (holes : List (String × String)) × (tail : Tail) × ("${HOME}/${ctx:name}" ≡ print holes tail)
    × IsTemplate holes tail
    × (render_string render input "${HOME}/${ctx:name}" none ≡ fill render input holes tail none)
render_string-total_example = render_string-total render input "${HOME}/${ctx:name}" none
