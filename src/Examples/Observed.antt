-- ===== src/Examples/Observed.antt =====
-- A terminal that says `ok!` twice, forwarded with a failed write in between; and a lab with one of its
-- two assets ready.
use rootenv.Common.Int.{ℤ}
use rootenv.Common.{
  ◌≡◌, ◌↔◌, ◌⊎◌, refl, true, false, some, List, [], ◌∷◌, ◌++◌, Bytes, bytes_eq, bytes_beq, codes,
  map,
}
use rootenv.Controller.Upstream.Assets.{state_of}
use rootenv.Controller.Upstream.{patch_of}
use rootenv.Controller.Value.{no_items}
use rootenv.Examples.Grader.{literal, marshal, backend, line, outage, braced, unbraced, line-IsSent}
use rootenv.Examples.Lab as Lab
use rootenv.Operator.Api.{AssetStatus}
use rootenv.Operator.Status.{summarize}
use rootenv.Operator.Status.Laws.{AllReady}
use rootenv.Progress.{observed, patch_of-summarize}
use rootenv.Relay.Exec.Backend.{write_chunk}
use rootenv.Relay.Exec.Forwarder
use rootenv.Relay.Exec.Forwarder.Laws.{IsSublist, sends}
use rootenv.Relay.Exec.Forwarder.{
  new_forwarder, send, dial, drain, write_next, close, leave_drain, next_backoff,
}
use rootenv.Relay.Exec.Session
use rootenv.Relay.Exec.Session.{
  shell_writes, client_takes, new_session, step, on_output, on_written,
}
use rootenv.Relay.Grader.Lines.{ingest_all}
use rootenv.Relay.Grader.Listener.Scanner.{scan, stream_of}
use rootenv.Relay.Grader.Listener.{handle_forwarder_conn}
use rootenv.Relay.Observed.{contents, kept, kept-IsSublist}

abbrev twice : List Session.Event
twice =
    shell_writes (codes "ok!")
    ∷ client_takes true
    ∷ shell_writes (codes "ok!")
    ∷ client_takes true
    ∷ []

twice-forwarded :
    contents (codes "vm") (sends outage) ≡ (Session.run true new_session twice).sent.to_forwarder
unfolding contents sends Session.run step on_output on_written write_chunk bytes_beq
twice-forwarded = refl

outage-written :
    (Forwarder.run (new_forwarder (codes "grader:9000")) outage).written ≡ [] ++ ((line ∷ []) ++ [])
unfolding Forwarder.run Forwarder.step new_forwarder send dial drain write_next close leave_drain
    next_backoff bytes_beq
outage-written = refl

kept-IsSublist_example :
    IsSublist
      (contents (codes "vm") (line ∷ []))
      (Session.run true new_session twice).sent.to_client
    × (kept literal marshal
          (λ c. true)
          (codes "vm")
          (handle_forwarder_conn literal marshal
            (λ c. true)
            unbraced
            (scan (stream_of braced (line ∷ [])))
            backend)
        ≡ ingest_all
            (kept literal marshal (λ c. true) (codes "vm") backend)
            (contents (codes "vm") (line ∷ [])))
kept-IsSublist_example =
    kept-IsSublist literal marshal (λ c. true) twice (codes "grader:9000") outage (codes "vm") []
      (line ∷ []) [] braced unbraced backend twice-forwarded outage-written (line-IsSent, tt)

abbrev web : AssetStatus
web = record {
  name = codes "web";
  phase = codes "Running";
  reason = [];
  ready = true;
  address = codes "web.rootenv-lab-a7.svc.cluster.local";
  protocols = codes "exec" ∷ [];
}

abbrev date : ℤ → Bytes
date t = codes "2026-07-01T00:00:00Z"

patch_of-summarize_example :
    let obj =
      observed date (λ cs. no_items) (codes "7") (summarize (λ c cs. c ∷ []) Lab.env (web ∷ [])) in
    let patch = patch_of (λ t. some t) (λ id p. true) false obj in
    ((patch.current_state ≡ codes "provisioned") ↔ AllReady (web ∷ []))
    × ((patch.current_state ≡ codes "provisioned") ⊎ (patch.current_state ≡ codes "provisioning"))
    × (patch.assets ≡ some (map state_of (web ∷ [])))
patch_of-summarize_example =
    patch_of-summarize date (λ cs. no_items) (λ t. some t) (λ id p. true) false (λ c cs. c ∷ [])
      Lab.env (codes "7") (web ∷ []) refl
