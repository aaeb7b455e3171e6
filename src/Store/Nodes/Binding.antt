-- ===== src/Store/Nodes/Binding.antt =====
-- internal/store/store.go: UpsertNode, for an agent that has enrolled with a certificate.
use mini_dock.Prelude.{
  ℕ, ◌≡◌, refl, ◌∙◌, String, Bool, true, false, not, ◌&&◌, Option, none, some, List, arith, ◌==◌,
  ◌=s=◌, eq_iff, if◌then◌else◌, Bool-cases, inl, inr, err, identity_mismatch, Done, done,
}
use mini_dock.Prelude.Rows.{update_where, count_where, find_where}
use mini_dock.Prelude.Rows.Laws.{find_where-update_where, count_where-eq-zero, update_where_none}
use mini_dock.Store.Nodes.Keyed.{HaveOneId, update_where-HaveOneId, count_known, =s=_sym}
use mini_dock.Store.Nodes.{Node, is_enrolled, has_node_id, seen, is_incomplete, enroll, upsert_node}

-- The agent is enrolled with the fingerprint, since the given time.
abbrev pub IsEnrolled : List Node → String → String → ℕ → Type 0
IsEnrolled rows id fingerprint since =
    (row : Node) × (find_where (has_node_id id) rows ≡ some row)
    × (row.certificate_fingerprint ≡ fingerprint)
    × (row.created_at ≡ since)

-- A complete message under the agent's id, from its own certificate, and from another one.
abbrev pub is_own : Node → Node → Bool
is_own node row =
    not (is_incomplete node)
    && (node.id =s= row.id && node.certificate_fingerprint =s= row.certificate_fingerprint)

abbrev pub is_foreign : Node → Node → Bool
is_foreign node row =
    not (is_incomplete node)
    && (node.id =s= row.id && not (node.certificate_fingerprint =s= row.certificate_fingerprint))

abbrev pub expected_row : ℕ → Node → Node → Node
expected_row now node row =
    if is_own node row
    then record {
      id = row.id;
      name = node.name;
      version = node.version;
      capabilities = node.capabilities;
      certificate_fingerprint = row.certificate_fingerprint;
      created_at = row.created_at;
      last_seen_at = now;
    }
    else row

abbrev pub IsRefusedIf : Bool → List Node → List Node × Done → Type 0
IsRefusedIf false rows r = Unit
IsRefusedIf true rows r = r ≡ (rows, err identity_mismatch)

abbrev pub IsDoneIf : Bool → Done → Type 0
IsDoneIf false answer = Unit
IsDoneIf true answer = answer ≡ done

pub record IsBound (now : ℕ) (rows : List Node) (node row : Node) (r : List Node × Done)
    : Type 0 where
  pub one_id : HaveOneId r.0
  pub found_row : find_where (has_node_id row.id) r.0 ≡ some (expected_row now node row)
  pub still_enrolled : IsEnrolled r.0 row.id row.certificate_fingerprint row.created_at
  pub own_done : IsDoneIf (is_own node row) r.1
  pub foreign_refused : IsRefusedIf (is_foreign node row) rows r

module _ (now : ℕ) (rows : List Node) (node row : Node) (keys : HaveOneId rows)
    (found : find_where (has_node_id row.id) rows ≡ some row) where
  as_it_was :
      (answer : Done)
      → is_own node row ≡ false
      → is_foreign node row ≡ false
      → IsBound now rows node row (rows, answer)
  as_it_was answer stranger friend = record {
    one_id = keys;
    found_row = rw stranger found;
    still_enrolled = (row, found, refl, refl);
    own_done = rw stranger tt;
    foreign_refused = rw friend tt;
  }

  -- No row is the sender's.
  enroll-IsBound :
      (o : Option Node)
      → find_where (has_node_id node.id) rows ≡ o
      → is_incomplete node ≡ false
      → count_where (is_enrolled node) rows ≡ 0
      → IsBound now rows node row (enroll now rows node o)
  unfolding find_where
  enroll-IsBound (some other) e complete unknown = elim (Bool-cases (node.id =s= row.id)) [
    | inl same ↦
        let is_id : node.id ≡ row.id = (eq_iff node.id row.id).0 same in
        let counted = count_known node rows {row = row} keys (rw is_id found) in
        let differs : (node.certificate_fingerprint =s= row.certificate_fingerprint) ≡ false =
          ground (arith, =s=_sym node.certificate_fingerprint row.certificate_fingerprint) in
        record {
          one_id = keys;
          found_row = rw (complete, same, differs) found;
          still_enrolled = (row, found, refl, refl);
          own_done = rw (complete, same, differs) tt;
          foreign_refused = rw (complete, same, differs) refl;
        }
    | inr apart ↦
        as_it_was (err identity_mismatch) (rw (complete, apart) refl) (rw (complete, apart) refl)
  ]
  enroll-IsBound none e complete unknown = elim (Bool-cases (node.id =s= row.id)) [
    | inl same ↦
        let is_id : node.id ≡ row.id = (eq_iff node.id row.id).0 same in
        let missing : find_where (has_node_id row.id) rows ≡ none = rw is_id at e in
        absurd (ground arith)
    | inr apart ↦ record {
      one_id = (e, keys);
      found_row = rw (complete, apart) found;
      still_enrolled = (row, rw apart found, refl, refl);
      own_done = rw (complete, apart) tt;
      foreign_refused = rw (complete, apart) tt;
    }
  ]

  -- Some row is the sender's.
  update-IsBound :
      is_incomplete node ≡ false
      → (count_where (is_enrolled node) rows == 0) ≡ false
      → IsBound now rows node row (update_where (is_enrolled node) (seen now node) rows, done)
  update-IsBound complete known =
      let updated =
        find_where-update_where (has_node_id row.id) (is_enrolled node) (seen now node) (λ a. refl)
          rows found in
      let one = update_where-HaveOneId now node rows keys in
      elim (Bool-cases (node.id =s= row.id)) [
        | inl same ↦
            let is_id : node.id ≡ row.id = (eq_iff node.id row.id).0 same in
            let counted = count_known node rows {row = row} keys (rw is_id found) in
            let back : (row.id =s= node.id) ≡ true = =s=_sym row.id node.id ∙ same in
            let agree : (row.certificate_fingerprint =s= node.certificate_fingerprint) ≡ true =
              ground arith in
            let agrees : (node.certificate_fingerprint =s= row.certificate_fingerprint) ≡ true =
              =s=_sym node.certificate_fingerprint row.certificate_fingerprint ∙ agree in
            record {
              one_id = one;
              found_row = rw (complete, same, agrees) (rw (back, agree) at updated);
              still_enrolled = (seen now node row, rw (back, agree) at updated, refl, refl);
              own_done = rw (complete, same, agrees) refl;
              foreign_refused = rw (complete, same, agrees) tt;
            }
        | inr apart ↦
            let back : (row.id =s= node.id) ≡ false = =s=_sym row.id node.id ∙ apart in
            record {
              one_id = one;
              found_row = rw (complete, apart) (rw back at updated);
              still_enrolled = (row, rw back at updated, refl, refl);
              own_done = rw (complete, apart) tt;
              foreign_refused = rw (complete, apart) tt;
            }
      ]

  -- If no two rows of the table of agents have one id, then no two have one after a message, and a
  -- row of the table keeps its fingerprint and the time of its enrolment. A complete message under
  -- its id and from its certificate succeeds and sets its name, version, capabilities and the time
  -- that it was seen; any other message leaves the row as it was. A complete message under its id
  -- from another certificate is refused as an identity mismatch, and leaves the whole table as it
  -- was.
  pub upsert_node-IsBound : IsBound now rows node row (upsert_node now rows node)
  unfolding upsert_node
  upsert_node-IsBound = elim (Bool-cases (is_incomplete node)) [
    | inl incomplete ↦ rw incomplete (as_it_was _ (rw incomplete refl) (rw incomplete refl))
    | inr complete ↦ elim (Bool-cases (count_where (is_enrolled node) rows == 0)) [
      | inl unknown ↦
          let zero_rows : count_where (is_enrolled node) rows ≡ 0 = ground arith in
          let same =
            update_where_none (is_enrolled node) (seen now node) rows
              (count_where-eq-zero (is_enrolled node) rows zero_rows) in
          rw (complete, unknown, same)
            (enroll-IsBound (find_where (has_node_id node.id) rows) refl complete zero_rows)
      | inr known ↦ rw (complete, known) (update-IsBound complete known)
    ]
  ]
