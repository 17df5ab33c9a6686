-- ===== src/Lifecycle/Creation.antt =====
-- What the creation of a key and of a request does to the stage.
use kubeconfig_operator.Base.{
  String, none, some, [], ◌≡◌, refl, sym, ◌∙◌, ap, inl, inr, ◌==◌, arith, Bool-cases, eq_iff,
}
use kubeconfig_operator.K8s.{CsrObject}
use kubeconfig_operator.Api.Types.{Kubeconfig, CertificateSigningRequest}
use kubeconfig_operator.Platform.{Platform}
use kubeconfig_operator.Effects.{World}
use kubeconfig_operator.Effects.Ends.{Exit, Ends}
use kubeconfig_operator.Controllers.Csr.{get_cert_approval_condition, approval_loop}
use kubeconfig_operator.Controllers.Keys.{
  KeyCase, rsa_case, ecdsa_case, ed25519_case, unsupported_case, no_case, key_and_request,
  certificate_request,
}
use kubeconfig_operator.Lifecycle.Stages.{
  Snapshot, with_request, ◌⟶◌, Stage, waiting, submit, stage, csr_stage, open_stage,
}
use kubeconfig_operator.Lifecycle.Server.{Server, CsrCreated}
use kubeconfig_operator.Lifecycle.Copies.{seen, IsOpen, stage-open, Copy, Keeps, Steps}

module _ (P : Platform) (name : String) (V : Server P name) where
  abbrev pub ExitSteps : String → Snapshot → Exit → World P.State → Type 0
  ExitSteps m σ x v = Steps P name V m σ (seen P name V v)

  pub Steps-Keeps :
      (m : String) (σ τ υ : Snapshot)
      → Steps P name V m σ τ
      → Keeps P name V m τ υ
      → Steps P name V m σ υ
  Steps-Keeps m σ τ υ (inl same) (inl still) = inl (still ∙ same)
  Steps-Keeps m σ τ υ (inl same) (inr (own, kept)) = inr (own, inl (sym (kept ∙ ap (stage P) same)))
  Steps-Keeps m σ τ υ (inr (own, moved)) (inl still) = inr (own, rw still moved)
  Steps-Keeps m σ τ υ (inr (own, moved)) (inr (_, kept)) = inr (own, rw kept moved)

  pub move_of : {s t u v : Stage} → u ⟶ v → s ≡ u → t ≡ v → s ⟶ t
  move_of move e f = rw (e, f) move

  -- A request without conditions waits.
  created_waits : (c : CsrObject) → c.conditions ≡ [] → csr_stage c ≡ waiting
  unfolding csr_stage get_cert_approval_condition approval_loop
  created_waits c h = rw h refl

  -- A new request waits, and the Kubeconfig stays unfinished.
  pub created-IsOpen :
      (c : CsrObject) (σ τ : Snapshot)
      → IsOpen P name V σ
      → c.conditions ≡ []
      → CsrCreated c σ τ
      → IsOpen P name V τ × (stage P τ ≡ waiting)
  unfolding open_stage
  created-IsOpen c σ τ kept clean made =
      let opened : IsOpen P name V (with_request made.stored σ) = record {
        stored = kept.stored;
        kept = kept.kept;
        unfinished = kept.unfinished;
      } in
      (
        rw made.becomes opened,
        ap (stage P) made.becomes
            ∙ stage-open P name V _ opened
            ∙ created_waits made.stored (made.conditions ∙ clean),
      )

  -- What the creation of a request leaves.
  pub created-Steps :
      (m : String) (σ : Snapshot) (k : Kubeconfig) (c : CsrObject) (w : World P.State)
      → Copy P name V m σ k w
      → c.meta.name ≡ m
      → c.conditions ≡ []
      → (m ≡ name → σ.request ≡ none)
      → Steps P name V m σ (V.view (P.create_csr c w.server).1)
        × (m ≡ name → IsOpen P name V (V.view (P.create_csr c w.server).1))
  unfolding open_stage
  created-Steps m σ k c w h named clean missing = elim (Bool-cases (m == name)) [
    | inr other ↦
        let same = V.other_csr_create c w.server (rw named other) ∙ h.same in
        (inl same, λ own. rw same (h.mine own))
    | inl equal ↦
        let own : m ≡ name = (eq_iff m name).0 equal in
        elim (V.csr_create c w.server (named ∙ own)) [
          | inl lost ↦ let same = lost.0 ∙ h.same in (inl same, λ _. rw same (h.mine own))
          | inr made ↦
              let opened = created-IsOpen c _ _ (rw h.same (h.mine own)) clean made in
              (
                inr (
                  own,
                  inr (
                      move_of submit
                        (stage-open P name V σ (h.mine own) ∙ ap open_stage (missing own))
                        opened.1),
                ),
                λ _. opened.0,
              )
        ]
  ]

  pub create_csr-Quiet :
      (k : Kubeconfig) (csr : CertificateSigningRequest) (c : KeyCase) (w : World P.State)
      → Ends
          (λ _ v. seen P name V v ≡ seen P name V w)
          (λ _ v. seen P name V v ≡ seen P name V w)
          (key_and_request P k csr c w)
  unfolding key_and_request
  create_csr-Quiet k csr rsa_case w =
      let key = P.rsa_generate_key 4096 w.server in
      ground (
        arith,
        V.rsa_generate_key 4096 w.server,
        V.create_certificate_request (certificate_request P k csr) (some key.0) key.1,
      )
  create_csr-Quiet k csr ecdsa_case w =
      let key = P.ecdsa_generate_key "P-521" w.server in
      ground (
        arith,
        V.ecdsa_generate_key "P-521" w.server,
        V.create_certificate_request (certificate_request P k csr) (some key.0) key.1,
      )
  create_csr-Quiet k csr ed25519_case w =
      let key = P.ed25519_generate_key w.server in
      ground (
        arith,
        V.ed25519_generate_key w.server,
        V.create_certificate_request (certificate_request P k csr) (some key.0) key.1,
      )
  create_csr-Quiet k csr unsupported_case w = refl
  create_csr-Quiet k csr no_case w =
      ground (arith, V.create_certificate_request (certificate_request P k csr) none w.server)
