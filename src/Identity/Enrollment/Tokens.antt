-- ===== src/Identity/Enrollment/Tokens.antt =====
-- Enroll of identity/service.go and the tables of the enrollment tokens.
use specification_enhancemen.Prelude.{String, Option, ◌≡◌, refl, arith, ok, ap, ◌∙◌}
use mathlib.Core.Path.{subst}
use specification_enhancemen.Instant.{Instant}
use specification_enhancemen.Platform.{Csr}
use specification_enhancemen.Store.{Db}
use specification_enhancemen.Store.Identities.{
  create_ldi_and_bind, insert_ldi, insert_binding, rebind,
}
use specification_enhancemen.Store.ReplacementTickets.{validate_ticket}
use specification_enhancemen.Identity.{
  Service, Call, VerifiedBootstrap, ReplacementAuthorization, EnrollmentResult, Replacements,
  no_replacements, operator_tickets, validate_replacement,
}
use specification_enhancemen.Identity.Revoking.{AuditOnly}
use specification_enhancemen.Identity.Issuing.{issue_and_record-AuditOnly}
use specification_enhancemen.Identity.Enrollment.{enroll}
use specification_enhancemen.Identity.Enrollment.Inversion.{
  initially, by_replacement, again, enroll-ok,
}
use specification_enhancemen.Identity.Enrollment.Effects.{revoke_and_issue-AuditOnly}

pub record SameTokens (db db' : Db) : Type 0 where
  pub tokens : db'.enrollment_tokens ≡ db.enrollment_tokens
  pub outcomes : db'.enrollment_token_outcomes ≡ db.enrollment_token_outcomes

SameTokens-AuditOnly : (a b c : Db) → SameTokens a b → AuditOnly b c → SameTokens a c
SameTokens-AuditOnly a b c h k = record {
  tokens = k.enrollment_tokens ∙ h.tokens;
  outcomes = k.enrollment_token_outcomes ∙ h.outcomes;
}

-- Read off a step whose result is known
SameTokens-step {ℓ} :
    {A : Type ℓ} (a c : Db) (m : A × Db) (r : A) → SameTokens a m.1 → m ≡ (r, c) → SameTokens a c
SameTokens-step {A} a c m r h e = subst (SameTokens a) (ap (λ (m : A × Db). m.1) e) h

SameTokens-create :
    (id : String) (now : Instant) (esi method trust_domain : String) (db : Db)
    → SameTokens db (create_ldi_and_bind id now esi method trust_domain db).1
unfolding create_ldi_and_bind insert_ldi insert_binding
SameTokens-create id now esi method trust_domain db = ground arith

SameTokens-rebind :
    (now : Instant) (id esi method : String) (db : Db)
    → SameTokens db (rebind now id esi method db).1
unfolding rebind insert_binding
SameTokens-rebind now id esi method db = ground arith

SameTokens-validate_replacement :
    (v : Replacements) (sha256 : String → String) (ticket : String) (now : Instant) (db : Db)
    → SameTokens db (validate_replacement v sha256 ticket now db).1
unfolding validate_replacement validate_ticket
SameTokens-validate_replacement no_replacements sha256 ticket now db = ground arith
SameTokens-validate_replacement operator_tickets sha256 ticket now db = ground arith

-- What a successful Enroll leaves
pub enroll-SameTokens :
    (s : Service) (c : Call) (vb : VerifiedBootstrap) (csr : Csr)
    (repl : Option ReplacementAuthorization) (db : Db) (res : EnrollmentResult) (db' : Db)
    → enroll s c vb csr repl db ≡ (ok res, db')
    → SameTokens db db'
enroll-SameTokens s c vb csr repl db res db' h = elim (enroll-ok s c vb csr repl db res db' h) [
  | initially miss e i ↦
      let first : SameTokens db i.db₁ =
        SameTokens-step db i.db₁ _ (ok i.ldi)
          (SameTokens-create c.fresh_uuid c.now vb.esi vb.method s.trust_domain db) i.created in
      let kept = issue_and_record-AuditOnly s c i.ldi csr vb.method 201 i.db₁ in
      SameTokens-step db db' _ (ok res) (SameTokens-AuditOnly db i.db₁ _ first kept) i.issued
  | by_replacement r miss e k ↦
      let first : SameTokens db k.db₁ =
        SameTokens-step db k.db₁ _ (ok k.ldi_uuid)
          (SameTokens-validate_replacement s.replacement s.platform.sha256 r.ticket c.now db)
          k.validated in
      let second : SameTokens k.db₁ k.db₂ =
        SameTokens-step k.db₁ k.db₂ _ (ok k.binding)
          (SameTokens-rebind c.now k.target.uuid vb.esi vb.method k.db₁) k.rebound in
      let both : SameTokens db k.db₂ = record {
        tokens = second.tokens ∙ first.tokens;
        outcomes = second.outcomes ∙ first.outcomes;
      } in
      let kept = revoke_and_issue-AuditOnly s c k.target csr vb.method "replacement" k.db₂ in
      SameTokens-step db db' _ (ok res) (SameTokens-AuditOnly db k.db₂ _ both kept) k.issued
  | again b l found e live k ↦
      let kept = revoke_and_issue-AuditOnly s c l csr vb.method "re-enrollment" db in
      SameTokens-step db db' _ (ok res)
        (SameTokens-AuditOnly db db _ (record { tokens = refl; outcomes = refl }) kept) k.issued
]
