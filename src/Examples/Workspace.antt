-- ===== src/Examples/Workspace.antt =====
-- internal/server/workspace_test.go and documents_test.go: a session with one document.
use gols_bash.Prelude.{
  ◌≡◌, refl, inl, none, some, List, [], ◌∷◌, Str, bytes, str_eq, get, put, delete, if◌then◌else◌,
}
use gols_bash.System.{Disk}
use gols_bash.Documents.{Document, TextDocumentItem, reparse, update_doc}
use gols_bash.State.{Server, new_server}
use gols_bash.Workspace.{
  FileEvent, created, close_document, open_document, watched_change, update_document,
  index_workspace_path,
}
use gols_bash.Workspace.Steps.{on_disk}
use gols_bash.Workspace.Events.{Event, did_open, did_change, scanned, run}
use gols_bash.Workspace.Events.Closed.{close_follows_disk, change_follows_disk}
use gols_bash.Examples.World.{plain_paths, plain_disk, plain_parse}

abbrev a_sh : Str
a_sh = bytes "/a.sh"

abbrev item : TextDocumentItem
item = record { uri = a_sh; language_id = bytes "sh"; version = 1; text = bytes "x" }

abbrev session : List (Disk × Event)
session =
    (plain_disk, did_open item)
    ∷ (plain_disk, scanned a_sh)
    ∷ (plain_disk, did_change a_sh 2 (bytes "y"))
    ∷ []

abbrev doc : Document
doc = record {
  uri = a_sh;
  lang = bytes "sh";
  version = 2;
  text = bytes "y";
  ast = (plain_parse (bytes "y") a_sh).0;
  parse_err = none;
}

abbrev after : Server
after = run plain_parse plain_paths new_server session

session_leaves_doc : get after.docs a_sh ≡ some doc
unfolding run new_server get put delete str_eq reparse update_document update_doc open_document
    index_workspace_path
session_leaves_doc = refl

close_follows_disk_example :
    ((v : Str)
      → get (close_document plain_parse plain_paths plain_disk after a_sh).docs v
        ≡ (if str_eq a_sh v then none else get after.docs v))
    × ((v : Str)
        → get (close_document plain_parse plain_paths plain_disk after a_sh).index.entries v ≡ (
            if str_eq a_sh v
            then on_disk plain_parse plain_paths plain_disk after a_sh
            else get after.index.entries v))
close_follows_disk_example =
    close_follows_disk plain_parse plain_paths plain_disk after a_sh doc session_leaves_doc

abbrev made_b : FileEvent
made_b = record { kind = created; uri = bytes "/b.sh" }

b_not_open : get new_server.docs (bytes "/b.sh") ≡ none
unfolding new_server get
b_not_open = refl

change_follows_disk_example :
    ((watched_change plain_parse plain_paths plain_disk new_server made_b).docs ≡ new_server.docs)
    × ((v : Str)
        → get (watched_change plain_parse plain_paths plain_disk new_server made_b).index.entries v
          ≡ (if str_eq made_b.uri v
              then on_disk plain_parse plain_paths plain_disk new_server made_b.uri
              else get new_server.index.entries v))
change_follows_disk_example =
    change_follows_disk plain_parse plain_paths plain_disk new_server made_b b_not_open (inl refl)
