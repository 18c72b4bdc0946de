-- ===== src/Controller/Ports.antt =====
-- `killPort` (src/cmd/controller/main.go): what it kills on a port. The system's programs are not part
-- of the repository: `output` is what a command writes, or `none` for an error. What the commands that
-- kill return is only logged.
use Prim.Native.Char.{Char, code}
use Prim.Native.String.{◌++◌ as ◌+++◌}
use amy_queue.Prelude.{
  ℕ, String, Bool, Option, none, some, List, [], ◌∷◌, map, ◌==◌, if◌then◌else◌, nat_eq, string_eq,
}
use amy_queue.Configuration.Texts.{push, is_space, is_empty, trim_space, keep_nodes}
use amy_queue.Controller.Main.{print_int}

pub record Command : Type 0 where
  pub program : String
  pub args : List String

abbrev is_newline : Char → Bool
is_newline c = code c == 10

-- The pieces of a text between the characters of a kind: `strings.Split(s, "\n")` for a newline.
abbrev pieces : (Char → Bool) → String → List String
pieces ends String.[] = String.[] ∷ []
pieces ends (String.◌∷◌ c s) =
    let rest = pieces ends s in if ends c then String.[] ∷ rest else push c rest

-- `strings.Fields`: the pieces between spaces that are not empty.
abbrev fields : String → List String
fields s = keep_nodes (pieces is_space s)

abbrev lookup_command : String → ℕ → Command
lookup_command goos port =
    if goos == "darwin"
    then record { program = "lsof"; args = "-ti" ∷ ("TCP:" +++ print_int port) ∷ [] }
    else record { program = "fuser"; args = (print_int port +++ "/tcp") ∷ [] }

-- The loops over the lines and over the fields keep what is left of each when it is trimmed, as the
-- loop of `parsePeerNodes` does.
abbrev listed : String → String → List String
listed goos out =
    if goos == "darwin" then keep_nodes (pieces is_newline (trim_space out)) else fields out

-- The commands that it runs after it has looked the port up.
unfoldable pub kill_commands : String → (Command → Option String) → ℕ → List Command
kill_commands goos output port = elim (output (lookup_command goos port)) [
  | none ↦ []
  | some out ↦
      if is_empty out
      then []
      else map (λ pid. record { program = "kill"; args = "-9" ∷ pid ∷ [] }) (listed goos out)
]
