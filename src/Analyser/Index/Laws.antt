-- ===== src/Analyser/Index/Laws.antt =====
-- internal/analyser/index.go: the index as a map.
use gols_bash.Prelude.{
  ◌≡◌, Option, none, some, Str, str_eq, get, IsMap, get-delete, get-put, delete-IsMap, put-IsMap,
  if◌then◌else◌,
}
use gols_bash.Syntax.{File}
use gols_bash.Analyser.Index.{Index, add_or_replace, remove}

pub get-add_or_replace :
    (i : Index) (u : Str) (file : Option File) (v : Str)
    → get (add_or_replace i u file).entries v ≡ (if str_eq u v then file else get i.entries v)
unfolding add_or_replace
get-add_or_replace i u none v = get-delete i.entries u v
get-add_or_replace i u (some file) v = get-put i.entries u file v

pub get-remove :
    (i : Index) (u v : Str)
    → get (remove i u).entries v ≡ (if str_eq u v then none else get i.entries v)
unfolding remove
get-remove i u v = get-delete i.entries u v

pub add_or_replace-IsMap :
    (i : Index) (u : Str) (file : Option File)
    → IsMap i.entries
    → IsMap (add_or_replace i u file).entries
unfolding add_or_replace
add_or_replace-IsMap i u none h = delete-IsMap i.entries u h
add_or_replace-IsMap i u (some file) h = put-IsMap i.entries u file h

pub remove-IsMap : (i : Index) (u : Str) → IsMap i.entries → IsMap (remove i u).entries
unfolding remove
remove-IsMap i u h = delete-IsMap i.entries u h
