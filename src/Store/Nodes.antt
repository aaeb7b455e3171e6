-- ===== src/Store/Nodes.antt =====
-- internal/store/store.go: the observed agents, with the certificate that each enrolled with. The
-- capabilities are kept as the text that json.Marshal wrote.
pub mod Binding
pub mod Keyed
use mini_dock.Prelude.{
  ℕ, String, Bool, true, false, ◌&&◌, ◌||◌, Option, none, some, List, [], ◌∷◌, ◌=s=◌, ◌==◌,
  if◌then◌else◌, Result, ok, err, invalid_argument, identity_mismatch, Done, done,
}
use mini_dock.Prelude.Rows.{update_where, count_where, find_where}

pub record Node : Type 0 where
  pub id : String
  pub name : String
  pub version : String
  pub capabilities : String
  pub certificate_fingerprint : String
  pub created_at : ℕ
  pub last_seen_at : ℕ

-- The condition of UpsertNode's UPDATE.
abbrev pub is_enrolled : Node → Node → Bool
is_enrolled node row =
    row.id =s= node.id && row.certificate_fingerprint =s= node.certificate_fingerprint

abbrev pub has_node_id : String → Node → Bool
has_node_id id row = row.id =s= id

abbrev pub seen : ℕ → Node → Node → Node
seen now node row = record row {
  name = node.name;
  version = node.version;
  capabilities = node.capabilities;
  last_seen_at = now;
}

abbrev pub is_incomplete : Node → Bool
is_incomplete node =
    node.id =s= ""
    || (node.name =s= "" || (node.version =s= "" || node.certificate_fingerprint =s= ""))

abbrev pub enroll : ℕ → List Node → Node → Option Node → List Node × Done
enroll now rows node (some other) = (rows, err identity_mismatch)
enroll now rows node none = (record node { created_at = now; last_seen_at = now } ∷ rows, done)

-- UpsertNode
unfoldable pub upsert_node : ℕ → List Node → Node → List Node × Done
upsert_node now rows node =
    let rows' = update_where (is_enrolled node) (seen now node) rows in
    if is_incomplete node
    then (rows, err invalid_argument)
    else (if count_where (is_enrolled node) rows == 0
        then enroll now rows' node (find_where (has_node_id node.id) rows')
        else (rows', done))
