-- ===== src/Relay/Exec/Backend/Laws.antt =====
-- What a session passes on.
use rootenv.Common.{
  ℕ, ◌/◌, ◌%◌, ◌≡◌, refl, ap, ◌∙◌, Bool, true, some, List, [], ◌∷◌, Bytes, nat_eq, arith,
}
use rootenv.Relay.Exec.Backend.{
  Output, Sent, write_chunk, copy_output, TerminalSize, uint16, resize_of, Input, new_input, offer,
  on_message, Event, message, step, run,
}

write_chunk-same :
    (o : Output) (s : Sent)
    → s.to_forwarder ≡ s.to_client
    → (write_chunk true o s).0.to_forwarder ≡ (write_chunk true o s).0.to_client
unfolding write_chunk
write_chunk-same o s h = ground (arith, h)

copy_output-same :
    (os : List Output) (s : Sent)
    → s.to_forwarder ≡ s.to_client
    → (copy_output true os s).to_forwarder ≡ (copy_output true os s).to_client
unfolding copy_output
copy_output-same [] s h = h
copy_output-same (o ∷ os) s h =
    let w = write_chunk-same o s h in
    ground (arith, w, copy_output-same os (write_chunk true o s).0 w)

-- With a forwarder, the grader's side is handed the chunks that the client got, all of them, in
-- their order, and no other.
pub copy_output-forwards :
    (os : List Output)
    → let s = copy_output true os (record { to_client = []; to_forwarder = [] }) in
      s.to_forwarder ≡ s.to_client
copy_output-forwards os = copy_output-same os (record { to_client = []; to_forwarder = [] }) refl

-- A size as the client sends it.
unfoldable pub resize_frame : TerminalSize → Bytes
resize_frame s = 1 ∷ s.width % 256 ∷ s.width / 256 ∷ s.height % 256 ∷ s.height / 256 ∷ []

uint16-bytes : (n : ℕ) → uint16 (n % 256) (n / 256) ≡ n
uint16-bytes n = omega arith

resize_of-resize_frame : (s : TerminalSize) → resize_of (resize_frame s) ≡ some s
unfolding resize_of resize_frame
resize_of-resize_frame s =
    ap (λ w. some (record { width = w; height = uint16 (s.height % 256) (s.height / 256) }))
      (uint16-bytes s.width)
    ∙ ap (λ h. some (record { width = s.width; height = h })) (uint16-bytes s.height)

on_message-resize_frame :
    (s : TerminalSize) (ok : Bool) (i : Input) → on_message (resize_frame s) ok i ≡ offer s i
unfolding on_message
on_message-resize_frame s ok i = rw (resize_of-resize_frame s, on_message) refl

unfoldable pub burst : List TerminalSize → List Event
burst [] = []
burst (s ∷ ss) = message (resize_frame s) true ∷ burst ss

run-full :
    (s : TerminalSize) (ss : List TerminalSize)
    → run (record new_input { resize = some s }) (burst ss) ≡ record new_input { resize = some s }
unfolding run burst step offer
run-full s [] = refl
run-full s (t ∷ ss) =
    ap (λ i. run i (burst ss))
      (on_message-resize_frame t true (record new_input { resize = some s }))
    ∙ run-full s ss

-- Of a burst of sizes that the shell takes none of in between, the first is kept and the others
-- are dropped; none reaches the shell's input.
pub run-burst :
    (s : TerminalSize) (ss : List TerminalSize)
    → run new_input (burst (s ∷ ss)) ≡ record new_input { resize = some s }
unfolding run burst step offer
run-burst s ss =
    ap (λ i. run i (burst ss)) (on_message-resize_frame s true new_input) ∙ run-full s ss
