-- ===== src/Tests/Runs.antt =====
-- Runs of the controllers on the cluster in memory.
use kubeconfig_operator.Base.{none, some, false, [], ◌∷◌, ◌++◌, ◌≡◌, refl}
use kubeconfig_operator.K8s.{NamespacedName, CsrObject}
use kubeconfig_operator.Api.Types.{
  Kubeconfig, CertificateSigningRequest, no_additional_fields, ecdsa_with_sha256,
}
use kubeconfig_operator.Api.Conditions.{phase_failed}
use kubeconfig_operator.Effects.{World, answered, csr_get, ◌>>=◌}
use kubeconfig_operator.Effects.Ends.{returns, Ends}
use kubeconfig_operator.Controllers.Csr
use kubeconfig_operator.Controllers.Csr.{finished, parse_csr, get_cert_approval_condition}
use kubeconfig_operator.Controllers.Kubeconfig
use kubeconfig_operator.Controllers.Kubeconfig.Objects.{Objects}
use kubeconfig_operator.Controllers.Kubeconfig.Request.{find_csr}
use kubeconfig_operator.Controllers.Kubeconfig.Finish.{check_approval, issue}
use kubeconfig_operator.Controllers.Keys.Total.{Returns}
use kubeconfig_operator.Controllers.Panics.{reconcile-Returns}
use kubeconfig_operator.Controllers.Resources.{create_csr_object}
use kubeconfig_operator.Controllers.Safety.{SafeExit}
use kubeconfig_operator.Controllers.Safety.Approval.{csr_reconcile-IsSafe}
use kubeconfig_operator.Controllers.Outcomes.Terminal.{WritesTerminal, find_csr-WritesTerminal}
use kubeconfig_operator.Controllers.Outcomes.AutoApprove.{
  Approves, create_csr_object-Approves, create_csr_object-waits,
}
use kubeconfig_operator.Controllers.Outcomes.Completion.{IsDone, issue-IsDone}
use kubeconfig_operator.Tests.Cluster.{
  platform, sample, fresh, approved, no_secret, stored_secret, open_csr, issued_csr, Store,
}
use kubeconfig_operator.Tests.Laws.{
  platform-HasConditionLaws, platform-HasErrorLaws, platform-HasOwnerLaws, platform-IsSound,
  platform-Accepts, sample-HasPointers,
}

abbrev request : NamespacedName
request = record { namespace = ""; name = "alice" }

-- The cluster in which the request is open.
abbrev opened : World Store
opened = record approved { server = record (approved.server) { csr = some open_csr } }

csr_reconcile-IsSafe_example :
    Ends (λ _ _. Unit {0}) SafeExit (Csr.reconcile platform request opened)
csr_reconcile-IsSafe_example = csr_reconcile-IsSafe platform request opened tt

reconcile-Returns_example :
    Ends (λ _ _. Unit {0}) Returns (Kubeconfig.reconcile platform request approved)
reconcile-Returns_example = reconcile-Returns platform platform-IsSound request approved

issue-IsDone_example :
    Ends
      (λ _ _. ⊥)
      (IsDone platform platform-HasConditionLaws platform-HasErrorLaws platform-Accepts sample)
      (issue platform sample (stored_secret no_secret) "cert" approved)
issue-IsDone_example =
    issue-IsDone platform platform-HasConditionLaws platform-HasErrorLaws platform-Accepts sample
      (stored_secret no_secret) "cert" approved sample-HasPointers refl refl

-- The cluster right after the first run, without the rest of its objects.
abbrev submitted : Kubeconfig → World Store
submitted k = record fresh {
  server = record (fresh.server) { csr = some (create_csr_object platform k "alice") };
}

create_csr_object-Approves_example :
    Ends
      (λ _ _. ⊥)
      (Approves platform
        (create_csr_object platform sample "alice")
        (csr_get request (platform.get_csr request (submitted sample).server).0 ∷ []))
      (Csr.reconcile platform request (submitted sample))
unfolding parse_csr
create_csr_object-Approves_example =
    create_csr_object-Approves platform platform-HasOwnerLaws sample "alice" request
      (submitted sample) refl refl refl refl

abbrev manual : Kubeconfig
manual = record sample { spec = record (sample.spec) { auto_approve_csr = false } }

create_csr_object-waits_example :
    Ends
      (λ _ _. ⊥)
      (λ x v.
        (x ≡ returns finished none)
        × (v.effects ≡ csr_get request (platform.get_csr request (submitted manual).server).0 ∷ []))
      (Csr.reconcile platform request (submitted manual))
create_csr_object-waits_example =
    create_csr_object-waits platform platform-HasOwnerLaws manual "alice" request (submitted manual)
      refl refl refl

-- The algorithm of the sample, with its secret.
abbrev elliptic : CertificateSigningRequest
elliptic = record {
  signature_algorithm = ecdsa_with_sha256;
  additional_fields = no_additional_fields;
}

abbrev prepared : Objects
prepared = record { kubeconfig = sample; secret = stored_secret no_secret }

-- The request of the Kubeconfig was denied after it had been approved.
abbrev denied_csr : CsrObject
denied_csr = record issued_csr {
  conditions =
      issued_csr.conditions
      ++ (record {
        type = "Denied";
        status = "True";
        reason = "";
        message = "";
        last_transition_time = none;
      }
          ∷ []);
}

abbrev rejected : World Store
rejected = record approved { server = record (approved.server) { csr = some denied_csr } }

find_csr-WritesTerminal_example :
    Ends
      (λ _ _. ⊥)
      (WritesTerminal platform phase_failed sample
        (answered (csr_get request) (platform.get_csr request) rejected))
      ((find_csr platform prepared >>= λ csr.
          check_approval platform sample (get_cert_approval_condition csr.conditions) >>= λ k.
          issue platform k (stored_secret no_secret) csr.certificate)
        rejected)
find_csr-WritesTerminal_example =
    find_csr-WritesTerminal platform platform-HasConditionLaws platform-HasErrorLaws prepared
      rejected refl refl
