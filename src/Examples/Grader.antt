-- ===== src/Examples/Grader.antt =====
-- A terminal's output arrives in pieces, and a task passes on it.
use rootenv.Common.Dict
use rootenv.Common.{
  ◌↔◌, ◌⊎◌, ◌≡◌, ◌↔◌, refl, Bool, true, false, inr, Option, none, some, arith, List, [], ◌∷◌, ◌++◌,
  Bytes, codes, bytes_beq, bytes_eq, ◌==◌,
}
use rootenv.Relay.Exec.Forwarder.{ForwardMsg, Event, sent, dialled, drained, closed, left}
use rootenv.Relay.Grader.Backend.Grades.{is_passed, Any, Passes, ingest_chunk_iff}
use rootenv.Relay.Grader.Backend.Told.{initial-AllTrue}
use rootenv.Relay.Grader.Backend.Texts.{AllTrue}
use rootenv.Relay.Grader.Backend.Sessions.{
  chunk, join, snapshot, leave, run, initial, buffer_of, chunks_of, run-sticky, initial-buffer,
}
use rootenv.Relay.Grader.Backend.Sessions as Sessions
use rootenv.Relay.Grader.Backend.{Regexp, Backend, ingest_chunk}
use rootenv.Relay.Grader.Listener.Scanner.{scan, drop_cr, keep_lines, IsSent}
use rootenv.Relay.Exec.Kube.{pod_exec_url, exec_path}
use rootenv.Text.{cut, split, trim_right}
use rootenv.Relay.Grader.Lines.Chunks.{flatten, IsFollowed, ingest_all-chunks}
use rootenv.Relay.Grader.Lines.Cut.{cut_lines}
use rootenv.Relay.Grader.Lines.Strip.{feed, feed_byte}
use rootenv.Relay.Grader.Lines.{
  escape, is_letter, is_parameter, empty_buffer, ingest, ingest_all, recent, strip_ansi,
}
use rootenv.Relay.Grader.Tasks.{Task, load_tasks, load_tasks_iff, AreGradeable}

-- A colour sequence that is cut in two.
abbrev pieces : List Bytes
pieces = (codes "ok" ++ (escape ∷ b'[' ∷ [])) ∷ (codes "1m!" ++ (b'\n' ∷ codes "$ ")) ∷ []

pieces-IsFollowed : IsFollowed (flatten pieces)
unfolding feed feed_byte flatten is_letter is_parameter
pieces-IsFollowed = λ e. cc

ingest_all-chunks_example :
    (ingest_all empty_buffer pieces ≡ record {
      partial = (cut_lines (strip_ansi (flatten pieces))).1;
      lines = recent (cut_lines (strip_ansi (flatten pieces))).0;
    })
    × (ingest_all empty_buffer pieces ≡ ingest_all empty_buffer (flatten pieces ∷ []))
ingest_all-chunks_example = ingest_all-chunks pieces pieces-IsFollowed

abbrev task : Task
task = record { id = codes "1.1"; type = codes "term"; template = codes "ok!"; asset = codes "vm" }

abbrev on_disk : Bytes → Option Bytes
on_disk path = some path

abbrev decoded : Bytes → Option (List Task)
decoded d = some (task ∷ [])

load_tasks_iff_example : (load_tasks on_disk decoded (codes "/tasks.json") ≡ inr (task ∷ [])) ↔ (
    (d : Bytes) × (on_disk (codes "/tasks.json") ≡ some d)
    × (decoded d ≡ some (task ∷ []))
    × AreGradeable (task ∷ []))
load_tasks_iff_example = load_tasks_iff on_disk decoded (codes "/tasks.json") (task ∷ [])

-- Patterns that match themselves only.
abbrev pub literal : Regexp Bytes
literal = record { compile = λ t. some t; match_string = λ r s. r == s }

abbrev pub marshal : Dict.Dict Bytes Bool → Option Bytes
marshal g = some []

abbrev pub backend : Backend Bytes
backend = record {
  tasks = task ∷ [];
  regexes = (codes "1.1", codes "ok!") ∷ [];
  assets = [];
  grades = [];
  clients = 7 ∷ [];
  sent = [];
}

ingest_chunk_iff_example :
    let chunk = codes "ok!" ++ (b'\n' ∷ []) in
    let (buf, complete) = ingest (Dict.get_or (codes "vm") empty_buffer backend.assets) chunk in
    let assets = Dict.insert (codes "vm") buf backend.assets in
    let b' = ingest_chunk literal marshal (λ c. true) (codes "vm") chunk backend in
    ((is_passed (codes "1.1") b'.grades ≡ true) ↔ (
      (is_passed (codes "1.1") backend.grades ≡ true)
      ⊎ ((complete ≡ true)
          × Any
              (λ t. (t.id ≡ codes "1.1") × Passes literal backend.regexes assets (codes "vm") buf t)
              backend.tasks)))
    × (b'.assets ≡ assets)
    × (b'.tasks ≡ backend.tasks)
    × (b'.regexes ≡ backend.regexes)
ingest_chunk_iff_example =
    ingest_chunk_iff literal marshal (λ c. true) (codes "vm") (codes "ok!" ++ (b'\n' ∷ [])) backend
      (codes "1.1")

abbrev visit : List Sessions.Event
visit =
    join 3 ∷ chunk (codes "vm") (codes "ok!") (λ c. true) ∷ snapshot 3 (λ c. true) ∷ leave 3 ∷ []

abbrev graded : Sessions.System Bytes
graded = record { backend = record backend { grades = (codes "1.1", true) ∷ [] }; pending = [] }

graded-is_passed : is_passed (codes "1.1") graded.backend.grades ≡ true
unfolding Dict.get_or bytes_beq
graded-is_passed = refl

run-sticky_example :
    is_passed (codes "1.1") (run literal marshal graded visit).backend.grades ≡ true
run-sticky_example = run-sticky literal marshal graded visit (codes "1.1") graded-is_passed

abbrev pub line : ForwardMsg
line = record { asset = codes "vm"; content = codes "ok!" }

abbrev pub outage : List Event
outage =
    sent line
    ∷ dialled false
    ∷ sent line
    ∷ dialled true
    ∷ drained false
    ∷ dialled true
    ∷ drained true
    ∷ closed
    ∷ left
    ∷ []

-- Text in braces, for one asset.
abbrev pub braced : ForwardMsg → Bytes
braced m = codes "{" ++ m.content ++ codes "}"

abbrev pub unbraced : Bytes → Option ForwardMsg
unbraced [] = none
unbraced (c ∷ cs) = some (record { asset = codes "vm"; content = (cut b'}' cs).0 })

pub line-IsSent : IsSent braced unbraced line
unfolding drop_cr cut
line-IsSent = record {
  free = ((λ e. cc), ((λ e. cc), ((λ e. cc), ((λ e. cc), ((λ e. cc), tt)))));
  not_empty = λ e. cc;
  no_return = refl;
  short = omega arith;
  read = refl;
  named = λ e. cc;
}

-- A carriage return goes, an empty line is one, and the end needs no newline.
scanned : scan (codes "ab" ++ 13 ∷ 10 ∷ 10 ∷ codes "c") ≡ codes "ab" ∷ [] ∷ codes "c" ∷ []
unfolding keep_lines drop_cr split
scanned = refl

-- The URL of a pod; a name with slashes in it gives another path.
other_pod :
    (pod_exec_url (codes "https://k8s/") (codes "a7") (codes "vm")).0
    ≡ codes "https://k8s/api/v1/namespaces/a7/pods/vm/exec"
unfolding trim_right
other_pod = refl

crossed :
    exec_path (codes "a7") (codes "../../b8/pods/vm")
    ≡ codes "/api/v1/namespaces/a7/pods/../../b8/pods/vm/exec"
crossed = refl

initial-AllTrue_example :
    let b = (run literal marshal (initial literal marshal (task ∷ [])) visit).backend in
    AllTrue marshal b.grades b.sent
initial-AllTrue_example = initial-AllTrue literal marshal (task ∷ []) visit
