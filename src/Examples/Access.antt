-- ===== src/Examples/Access.antt =====
-- internal/mcpserver/denylist.go at concrete inputs: an instance without `exec`, and tokens.
use one_ssh.Base.{
  ℕ, true, false, ◌≡◌, refl, List, [], ◌∷◌, codes, some, ◌||◌, if◌then◌else◌, to_lower, trim_space,
}
use one_ssh.ToolGroups.{
  exec, Disabled, hides_tool, parse_list, lookup, group_name, union, assign, group_eq, get,
}
use one_ssh.Mcpserver.Denylist.{
  AppCatalog, Request, call_tool, list_tools, Answer, not_authorized, tools, other_answer,
  token_disabled, serve,
}
use one_ssh.Mcpserver.Denylist.Access.{serve_call_exact, serve_unreadable, serve_listed}

abbrev no_exec : Disabled
no_exec = (exec, true) ∷ []

abbrev no_apps : AppCatalog
no_apps = record { is_enabled = false; entries = [] }

-- The server behind the middleware: it lists three tools.
abbrev server : Request → Answer
server list_tools = tools (some "exec" ∷ some "grep" ∷ some "file_read" ∷ [])
server r = other_answer 1

-- A token without the group of the files.
abbrev no_files : List (List ℕ)
no_files = codes "files" ∷ []

serve_call_exact_example :
    serve no_exec no_apps (some no_files) server (call_tool (some "file_read")) ≡ (
      if hides_tool no_exec "file_read" || hides_tool (token_disabled (some no_files)) "file_read"
      then (not_authorized (some "file_read"), "file_read" ∷ [])
      else (server (call_tool (some "file_read")), []))
serve_call_exact_example =
    serve_call_exact no_exec no_apps (some no_files) server "file_read" (refl, tt) refl

serve_unreadable_example :
    serve no_exec no_apps (some (codes "shell" ∷ [])) server (call_tool (some "grep"))
    ≡ (not_authorized (some "grep"), "grep" ∷ [])
unfolding parse_list lookup group_name to_lower trim_space
serve_unreadable_example =
    serve_unreadable no_exec no_apps (codes "shell" ∷ []) server "grep" (refl, tt) refl refl refl

serve_listed_example :
    serve no_exec no_apps (some no_files) server (call_tool (some "grep"))
    ≡ (server (call_tool (some "grep")), [])
unfolding serve union assign group_eq get hides_tool parse_list lookup group_name to_lower
    trim_space
serve_listed_example =
    serve_listed no_exec no_apps (some no_files) server (some "grep" ∷ []) "grep" refl refl refl
