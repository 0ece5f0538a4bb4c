-- ===== src/Data.antt =====
-- internal/data: the words that bash itself gives a meaning to.
pub mod Executables
use gols_bash.Prelude.{Bool, List, [], ◌∷◌, Str, bytes, contains}

abbrev pub builtins : List Str
builtins =
    bytes "."
    ∷ bytes ":"
    ∷ bytes "["
    ∷ bytes "alias"
    ∷ bytes "bg"
    ∷ bytes "bind"
    ∷ bytes "break"
    ∷ bytes "builtin"
    ∷ bytes "caller"
    ∷ bytes "cd"
    ∷ bytes "command"
    ∷ bytes "compgen"
    ∷ bytes "compopt"
    ∷ bytes "complete"
    ∷ bytes "continue"
    ∷ bytes "declare"
    ∷ bytes "dirs"
    ∷ bytes "disown"
    ∷ bytes "echo"
    ∷ bytes "enable"
    ∷ bytes "eval"
    ∷ bytes "exec"
    ∷ bytes "exit"
    ∷ bytes "export"
    ∷ bytes "false"
    ∷ bytes "fc"
    ∷ bytes "fg"
    ∷ bytes "getopts"
    ∷ bytes "hash"
    ∷ bytes "help"
    ∷ bytes "history"
    ∷ bytes "jobs"
    ∷ bytes "kill"
    ∷ bytes "let"
    ∷ bytes "local"
    ∷ bytes "logout"
    ∷ bytes "popd"
    ∷ bytes "printf"
    ∷ bytes "pushd"
    ∷ bytes "pwd"
    ∷ bytes "read"
    ∷ bytes "readonly"
    ∷ bytes "return"
    ∷ bytes "set"
    ∷ bytes "shift"
    ∷ bytes "shopt"
    ∷ bytes "source"
    ∷ bytes "suspend"
    ∷ bytes "test"
    ∷ bytes "times"
    ∷ bytes "trap"
    ∷ bytes "true"
    ∷ bytes "type"
    ∷ bytes "typeset"
    ∷ bytes "ulimit"
    ∷ bytes "umask"
    ∷ bytes "unalias"
    ∷ bytes "unset"
    ∷ bytes "wait"
    ∷ []

unfoldable pub is_builtin : Str → Bool
is_builtin word = contains builtins word

abbrev pub reserved_words : List Str
reserved_words =
    bytes "!"
    ∷ bytes "[["
    ∷ bytes "]]"
    ∷ bytes "{"
    ∷ bytes "}"
    ∷ bytes "case"
    ∷ bytes "do"
    ∷ bytes "done"
    ∷ bytes "elif"
    ∷ bytes "else"
    ∷ bytes "esac"
    ∷ bytes "fi"
    ∷ bytes "for"
    ∷ bytes "function"
    ∷ bytes "if"
    ∷ bytes "in"
    ∷ bytes "select"
    ∷ bytes "then"
    ∷ bytes "time"
    ∷ bytes "until"
    ∷ bytes "while"
    ∷ []

unfoldable pub is_reserved_word : Str → Bool
is_reserved_word word = contains reserved_words word
