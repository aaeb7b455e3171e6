-- ===== src/Store/Nodes/Keyed.antt =====
-- internal/store/store.go: the primary key of the table of agents, under UpsertNode's UPDATE.
use mini_dock.Prelude.{
  ℕ, ◌≡◌, refl, String, none, some, List, [], ◌∷◌, arith, ◌=s=◌, eq_iff, if◌then◌else◌, Bool-cases,
  inl, inr,
}
use mini_dock.Prelude.Rows.{update_where, count_where, find_where}
use mini_dock.Store.Nodes.{Node, is_enrolled, has_node_id, seen}

-- The id is the primary key of the table.
abbrev pub HaveOneId : List Node → Type 0
HaveOneId [] = Unit
HaveOneId (row ∷ rows) = (find_where (has_node_id row.id) rows ≡ none) × HaveOneId rows

still_missing :
    (now : ℕ) (node : Node) (id : String) (rows : List Node)
    → find_where (has_node_id id) rows ≡ none
    → find_where (has_node_id id) (update_where (is_enrolled node) (seen now node) rows) ≡ none
unfolding find_where update_where
still_missing now node id [] h = refl
still_missing now node id (row ∷ rows) h = elim (Bool-cases (is_enrolled node row)) [
  | inl hit ↦ ground (arith, still_missing now node id rows)
  | inr miss ↦ ground (arith, still_missing now node id rows)
]

pub update_where-HaveOneId :
    (now : ℕ) (node : Node) (rows : List Node)
    → HaveOneId rows
    → HaveOneId (update_where (is_enrolled node) (seen now node) rows)
unfolding update_where
update_where-HaveOneId now node [] h = tt
update_where-HaveOneId now node (row ∷ rows) h = elim (Bool-cases (is_enrolled node row)) [
  | inl hit ↦
      rw hit (still_missing now node row.id rows h.0, update_where-HaveOneId now node rows h.1)
  | inr miss ↦
      rw miss (still_missing now node row.id rows h.0, update_where-HaveOneId now node rows h.1)
]

-- Without a row under the id, no row is the sender's, and with one it is the sender's exactly if
-- it has the fingerprint.
count_missing :
    (node : Node) (rows : List Node)
    → find_where (has_node_id node.id) rows ≡ none
    → count_where (is_enrolled node) rows ≡ 0
unfolding find_where count_where
count_missing node [] h = refl
count_missing node (row ∷ rows) h = ground (arith, count_missing node rows)

pub count_known :
    (node : Node) (rows : List Node) {row : Node}
    → HaveOneId rows
    → find_where (has_node_id node.id) rows ≡ some row
    → count_where (is_enrolled node) rows
      ≡ (if row.certificate_fingerprint =s= node.certificate_fingerprint then 1 else 0)
unfolding find_where count_where
count_known node [] {row} keys h = cc
count_known node (first ∷ rows) {row} keys h = elim (Bool-cases (first.id =s= node.id)) [
  | inl hit ↦
      let is_id : first.id ≡ node.id = (eq_iff first.id node.id).0 hit in
      let missing : find_where (has_node_id node.id) rows ≡ none = rw is_id at keys.0 in
      ground (arith, count_missing node rows missing)
  | inr miss ↦ ground (arith, count_known node rows {row = row} keys.1)
]

pub =s=_sym : (a b : String) → (a =s= b) ≡ (b =s= a)
=s=_sym a b = ground (arith, eq_iff a b, eq_iff b a)
