-- ===== src/Examples/Lab.antt =====
-- A lab with one asset, and an operator that is configured for it.
use rootenv.Common.Int.{pos}
use rootenv.Common.{
  true, false, none, some, [], ◌∷◌, ◌++◌, Bytes, bytes_eq, codes, ◌==◌, if◌then◌else◌,
}
use rootenv.Examples.Cluster.{Store}
use rootenv.Operator.Api.{Asset, LabEnvironment}
use rootenv.Operator.Host.{Host, no_file}
use rootenv.Operator.Objects.Lab.{namespace_of}

abbrev pub environment : Bytes → Bytes
environment name =
    if name == codes "RELAY_EXEC_IMAGE"
    then codes "exec:1"
    else if name == codes "RELAY_GRADER_IMAGE"
    then codes "grader:1"
    else []

abbrev pub host : Host
host = record {
  getenv = environment;
  read_file = λ _. no_file;
  join_path = λ a b. a ++ codes "/" ++ b;
  is_quantity = λ _. true;
  marshal = λ _. some (codes "[]");
  set_status_condition = λ c cs. c ∷ [];
}

abbrev pub asset : Asset
asset = record {
  name = codes "web";
  image = codes "ubuntu";
  cpu = codes "1";
  memory = codes "1Gi";
  disk = codes "1Gi";
  protocols = codes "ssh" ∷ [];
  setup = [];
}

abbrev pub env : LabEnvironment
env = record {
  name = codes "a7";
  created_at = pos 0;
  deleting = false;
  finalizers = [];
  spec = record {
    owner_id = codes "u1";
    owner_name = codes "ann";
    lab_id = codes "nginx";
    ttl = pos 60;
    assets = asset ∷ [];
    exercises = [];
  };
  status = record {
    conditions = [];
    phase = [];
    namespace = [];
    expires_at = none;
    total_assets = 0;
    ready_assets = 0;
    ready = [];
    assets = [];
  };
}

abbrev pub lab : Bytes
lab = namespace_of (codes "a7")

abbrev pub empty_store : Store
empty_store = record { objects = λ _. none; keyed = λ k o h. absurd cc; env = env }
