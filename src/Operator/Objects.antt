-- ===== src/Operator/Objects.antt =====
-- services/labenv-operator/internal/controller: the objects of a lab, as the operator makes them.
pub mod Lab
pub mod Policies
pub mod Relay
pub mod Grader
use rootenv.Common.{Bool, false, Option, none, List, [], ◌∷◌, Bytes, codes, String}
use rootenv.Operator.Kube.{Labels, Object, Content, Kind, Key, Selector, Peer, namespace_content}

-- An object with only a name.
abbrev pub plain : Bytes → String → Content → Object
plain ns name content = record {
  namespace = ns;
  name = codes name;
  labels = [];
  annotations = [];
  deleting = false;
  content = content;
}

abbrev pub label : String → Bytes → Bytes × Bytes
label k v = (codes k, v)

abbrev pub app : String → Labels
app name = label "app" (codes name) ∷ []

abbrev pub labelled : Labels → Selector
labelled ls = record { match_labels = ls; not_in = [] }

abbrev pub key : Kind → Bytes → String → Key
key kind ns name = record { kind = kind; namespace = ns; name = codes name }
