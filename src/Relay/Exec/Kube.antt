-- ===== src/Relay/Exec/Kube.antt =====
-- services/relay/exec/kube.go: a shell that is run in a pod, and the URL of the request.
use rootenv.Common.{
  ◌++◌, Bytes, codes, Option, none, some, Bool, true, ◌⊎◌, inl, inr, if◌then◌else◌,
}
use rootenv.Relay.Exec.Backend.{TerminalSize}
use rootenv.Text.{trim_right, is_slash}

-- The query as `url.Values.Encode` writes it, by key.
abbrev pub exec_query : Bytes
exec_query = codes "command=%2Fbin%2Fsh&stderr=true&stdin=true&stdout=true&tty=true"

-- The text that is parsed as a URL, with the query that is set on it. The parts are not escaped: where
-- they hold a question mark or a number sign, the parser cuts there.
abbrev pub exec_path : Bytes → Bytes → Bytes
exec_path namespace pod_name =
    codes "/api/v1/namespaces/" ++ namespace ++ codes "/pods/" ++ pod_name ++ codes "/exec"

abbrev pub pod_exec_url : Bytes → Bytes → Bytes → Bytes × Bytes
pod_exec_url host namespace pod_name =
    (trim_right is_slash host ++ exec_path namespace pod_name, exec_query)

-- What the executor gets from its queue of sizes: one, the end of them, or nothing yet.
pub data Next : Type 0 where
  next_size : TerminalSize → Next
  no_more not_yet : Next

-- `chanSizeQueue.Next`: a size that is in a closed channel is still received.
unfoldable pub next : Bool → Option TerminalSize → Next
next is_closed (some size) = next_size size
next is_closed none = if is_closed then no_more else not_yet

-- What the stream is made of besides the pipes of the session.
pub record StreamOptions : Type 0 where
  pub tty : Bool
  pub has_size_queue : Bool

-- `T` is the transport with its upgrader.
pub record KubeExecer (T : Type 0) : Type 0 where
  pub host : Bytes
  pub transport : T

-- `NewKubeExecer`: `in_cluster` is the host of the cluster's configuration with the rest of it, and
-- `round_tripper` stands for `spdy.RoundTripperFor`; `inl` is an error.
unfoldable pub new_kube_execer :
    {C T : Type 0} → Bytes ⊎ (Bytes × C) → (C → Bytes ⊎ T) → Bytes ⊎ KubeExecer T
new_kube_execer (inl e) round_tripper = inl e
new_kube_execer (inr (host, cfg)) round_tripper = elim (round_tripper cfg) [
  | inl e ↦ inl e
  | inr transport ↦ inr (record { host = host; transport = transport })
]

-- `Exec`: `new_executor` stands for `NewSPDYExecutorForTransports`, with its error, and `stream` for
-- `StreamWithContext`, `none` being no error.
unfoldable pub exec :
    {T E : Type 0}
    → (T → Bytes × Bytes → Bytes ⊎ E)
    → (E → StreamOptions → Option Bytes)
    → KubeExecer T
    → Bytes
    → Bytes
    → Option Bytes
exec new_executor stream k namespace pod_name =
    elim (new_executor k.transport (pod_exec_url k.host namespace pod_name)) [
      | inl e ↦ some e
      | inr executor ↦ stream executor (record { tty = true; has_size_queue = true })
    ]
