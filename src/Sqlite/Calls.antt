-- ===== src/Sqlite/Calls.antt =====
-- Sequences of calls of the SQLite store: the tables of decision records and audit rows only grow.
use sentry_gate_ai.Prelude.{
  map, sym, ap, subst, ◌∙◌, String, ◌≡◌, ◌⊎◌, ℕ, Bool, false, some, arith, Option-cases, Bool-cases,
  inl, inr, List, [], ◌∷◌, ◌==◌, ◌||◌, not,
}
use sentry_gate_ai.Prelude.Assoc.{Map, lookup, insert, has, lookup-insert_ne}
use sentry_gate_ai.Contracts.{
  Error, Result-cases, Time, ClaimOwner, ClaimState, DecisionRecord, AuditRecord, validate,
  owner_valid, phase_text, claim_state_text,
}
use sentry_gate_ai.Sqlite.Database.{
  Tables, DecisionRow, AuditRow, Driver, DriverLaws, Statement, apply, insert_audit,
  insert_decision, insert_claim, update_claim,
}
use sentry_gate_ai.Decision.Claim.{claim_sources}
use sentry_gate_ai.Sqlite.Rows.{Codec, decision_row, audit_row, format_time}
use sentry_gate_ai.Workflows.Audit.{stamped}
use sentry_gate_ai.Sqlite.Claims.{claim_execution, advance_claim}
use sentry_gate_ai.Sqlite.Decisions.{append_decision}
use sentry_gate_ai.Sqlite.Trail.{append}

-- Every entry of a map is found unchanged in another.
abbrev pub Extends : {V : Type 0} → Map V → Map V → Type 0
Extends {V} before after =
    (key : String) (v : V) → lookup key before ≡ some v → lookup key after ≡ some v

pub record Keeps (t t' : Tables) : Type 0 where
  pub decisions : Extends t.decision_records t'.decision_records
  pub audits : Extends t.audit_records t'.audit_records

Keeps-refl : (t : Tables) → Keeps t t
Keeps-refl t = record { decisions = λ key v h. h; audits = λ key v h. h }

Keeps-trans : (a b c : Tables) → Keeps a b → Keeps b c → Keeps a c
Keeps-trans a b c p q = record {
  decisions = λ key v h. q.decisions key v (p.decisions key v h);
  audits = λ key v h. q.audits key v (p.audits key v h);
}

-- An insert of a key that is not there changes no entry.
insert-Extends :
    {V : Type 0} (id : String) (v : V) (m : Map V) → has id m ≡ false → Extends m (insert id v m)
unfolding has
insert-Extends id v m missing key x h =
    lookup-insert_ne id key v m (λ same. ground (arith, same)) ∙ h

same-Keeps :
    (t t' : Tables)
    → t.decision_records ≡ t'.decision_records
    → t.audit_records ≡ t'.audit_records
    → Keeps t t'
same-Keeps t t' d a = record {
  decisions = λ key v h. ap (lookup key) (sym d) ∙ h;
  audits = λ key v h. ap (lookup key) (sym a) ∙ h;
}

audit-Keeps :
    (id : String) (row : AuditRow) (t t' : Tables) (n : ℕ)
    → apply (insert_audit id row) t ≡ some (t', n)
    → Keeps t t'
unfolding apply
audit-Keeps id row t t' n h = elim (Bool-cases (has id t.audit_records)) [
  | inl e ↦ same-Keeps t t' (ground (arith, e)) (ground (arith, e))
  | inr e ↦
      let grown : insert id row t.audit_records ≡ t'.audit_records = ground (arith, e) in
      let kept : t.decision_records ≡ t'.decision_records = ground (arith, e) in
      record {
        decisions = λ key v q. ap (lookup key) (sym kept) ∙ q;
        audits = λ key v q.
            ap (lookup key) (sym grown) ∙ insert-Extends id row t.audit_records e key v q;
      }
]

decision-Keeps :
    (id : String) (row : DecisionRow) (t t' : Tables) (n : ℕ)
    → apply (insert_decision id row) t ≡ some (t', n)
    → Keeps t t'
unfolding apply
decision-Keeps id row t t' n h = elim (Bool-cases (has id t.decision_records)) [
  | inl e ↦ same-Keeps t t' (ground (arith, e)) (ground (arith, e))
  | inr e ↦
      let grown : insert id row t.decision_records ≡ t'.decision_records = ground (arith, e) in
      let kept : t.audit_records ≡ t'.audit_records = ground (arith, e) in
      record {
        decisions = λ key v q.
            ap (lookup key) (sym grown) ∙ insert-Extends id row t.decision_records e key v q;
        audits = λ key v q. ap (lookup key) (sym kept) ∙ q;
      }
]

apply-Keeps : (st : Statement) (t t' : Tables) (n : ℕ) → apply st t ≡ some (t', n) → Keeps t t'
unfolding apply
apply-Keeps (Statement.insert_audit id row) t t' n h = audit-Keeps id row t t' n h
apply-Keeps (Statement.insert_decision id row) t t' n h = decision-Keeps id row t t' n h
apply-Keeps (Statement.insert_claim id workflow_id run_id token claimed updated) t t' n h =
    same-Keeps t t' (ground arith) (ground arith)
apply-Keeps (Statement.update_claim state updated id workflow_id run_id token sources) t t' n h =
    same-Keeps t t' (ground arith) (ground arith)

-- A method of the store that writes, with its arguments
pub data Call : Type 0 where
  append_decision_call : Bool → Error → DecisionRecord → Call
  append_call : Bool → Error → Time → AuditRecord → Call
  claim_call : Bool → String → ClaimOwner → Time → Call
  advance_call : Bool → String → ClaimOwner → ClaimState → Time → Call

module _ {D : Type 0} (db : Driver D) (codec : Codec) where
  abbrev pub call : Call → D → D
  call (append_decision_call ended no_rows rec) d = (append_decision db codec d ended no_rows rec).0
  call (append_call ended no_rows at rec) d = (append db codec d ended no_rows at rec).0
  call (claim_call ended id owner at) d = (claim_execution db codec d ended id owner at).0
  call (advance_call ended id owner to at) d = (advance_claim db codec d ended id owner to at).0

  abbrev pub call_all : List Call → D → D
  call_all [] d = d
  call_all (c ∷ cs) d = call_all cs (call c d)

  -- A call executes one statement at most.
  one_statement :
      (c : Call) (d : D)
      → (call c d ≡ d) ⊎ ((ended : Bool) × (st : Statement) × (call c d ≡ (db.exec d ended st).0))
  unfolding append_decision append claim_execution advance_claim
  one_statement (append_decision_call ended no_rows rec) d = elim (Option-cases (validate rec)) [
    | inr (e, v) ↦ inl (ground (arith, v))
    | inl v ↦ elim (Result-cases (codec.marshal rec.reasons)) [
      | inl (reasons, m) ↦ inr (
        ended,
        insert_decision rec.decision_id (decision_row codec rec reasons),
        ground (arith, v, m),
      )
      | inr (e, m) ↦ inl (ground (arith, v, m))
    ]
  ]
  one_statement (append_call ended no_rows at rec) d =
      elim (Bool-cases
        (rec.record_id == "" || rec.proposal_id == "" || phase_text rec.phase == "")) [
          | inl e ↦ inl (ground (arith, e))
          | inr e ↦ inr (
            ended,
            insert_audit rec.record_id (audit_row codec (stamped at rec)),
            ground (arith, e),
          )
        ]
  one_statement (claim_call ended id owner at) d =
      elim (Bool-cases (id == "" || not (owner_valid owner))) [
        | inl e ↦ inl (ground (arith, e))
        | inr e ↦
            let ts = format_time codec at in
            inr (
              ended,
              insert_claim id owner.workflow_id owner.run_id owner.token ts ts,
              ground (arith, e),
            )
      ]
  one_statement (advance_call ended id owner to at) d = elim (Option-cases (claim_sources to)) [
    | inl e ↦ inl (ground (arith, e))
    | inr (from, e) ↦ inr (
      ended,
      update_claim (claim_state_text to) (format_time codec at) id owner.workflow_id owner.run_id
          owner.token (map claim_state_text from),
      ground (arith, e),
    )
  ]

  module _ (tables : D → Tables) (laws : DriverLaws D db tables) where
    call-Keeps : (c : Call) (d : D) → Keeps (tables d) (tables (call c d))
    call-Keeps c d = elim (one_statement c d) [
      | inl same ↦ subst (λ x. Keeps (tables d) (tables x)) (sym same) (Keeps-refl (tables d))
      | inr (ended, st, e) ↦
          subst (λ x. Keeps (tables d) (tables x)) (sym e)
            (elim (laws.exec_whole d ended st) [
              | inl same ↦ subst (Keeps (tables d)) (sym same) (Keeps-refl (tables d))
              | inr (n, p) ↦ apply-Keeps st (tables d) _ n p
            ])
    ]

    -- Whatever calls of the store's writing methods are made in whatever order, with whatever
    -- answers, every row of decision_records and audit_records that was there is there unchanged.
    pub call_all-Keeps : (cs : List Call) (d : D) → Keeps (tables d) (tables (call_all cs d))
    call_all-Keeps [] d = Keeps-refl (tables d)
    call_all-Keeps (c ∷ cs) d = Keeps-trans _ _ _ (call-Keeps c d) (call_all-Keeps cs (call c d))
