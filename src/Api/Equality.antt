-- ===== src/Api/Equality.antt =====
-- `reflect.DeepEqual` on the two immutable fields of the spec: a nil pointer equals only nil, and a
-- nil slice only a nil slice.
use mathlib.Core.Bool.{decide, decide_iff}
use kubeconfig_operator.Base.{String, Bool, Option, ◌≡◌, ◌↔◌, true, false, refl, ◌==◌, eq_iff}
use kubeconfig_operator.Api.Types.{SecretRef, CertificateSigningRequest}

-- A Boolean test that reflects a proposition decides it.
decision : {A : Type 0} (b : Bool) → (b ≡ true) ↔ A → Dec A
decision true reflects = yes (reflects.0 refl)
decision false reflects = no (λ a. cc (reflects.1 a))

text-discrete : Discrete String
text-discrete s t = decision (s == t) (eq_iff s t)

csr-discrete : Discrete (Option CertificateSigningRequest)
csr-discrete = hlevel text-discrete

secret_ref-discrete : Discrete (Option SecretRef)
secret_ref-discrete = hlevel text-discrete

pub csr_beq : Option CertificateSigningRequest → Option CertificateSigningRequest → Bool
csr_beq a b = decide (csr-discrete a b)

pub secret_ref_beq : Option SecretRef → Option SecretRef → Bool
secret_ref_beq a b = decide (secret_ref-discrete a b)

pub csr_beq_iff : (a b : Option CertificateSigningRequest) → (csr_beq a b ≡ true) ↔ (a ≡ b)
unfolding csr_beq
csr_beq_iff a b = decide_iff (csr-discrete a b)

pub secret_ref_beq_iff : (a b : Option SecretRef) → (secret_ref_beq a b ≡ true) ↔ (a ≡ b)
unfolding secret_ref_beq
secret_ref_beq_iff a b = decide_iff (secret_ref-discrete a b)
