-- ===== src/Api/Conditions.antt =====
-- api/v1alpha1/conditions.go, and the phases of controllers/phases/phases.go.
use kubeconfig_operator.Base.{String}

abbrev pub condition_type_csr_created : String
condition_type_csr_created = "CSRCreated"

abbrev pub condition_type_csr_approved : String
condition_type_csr_approved = "CSRApproved"

abbrev pub condition_type_user_secret_created : String
condition_type_user_secret_created = "UserSecretCreated"

abbrev pub condition_type_user_secret_finished : String
condition_type_user_secret_finished = "UserSecretFinished"

abbrev pub condition_type_kubeconfig_finished : String
condition_type_kubeconfig_finished = "KubeconfigFinished"

-- `metav1.ConditionTrue`, `metav1.ConditionFalse` and `metav1.ConditionUnknown`.
abbrev pub condition_true : String
condition_true = "True"

abbrev pub condition_false : String
condition_false = "False"

abbrev pub condition_unknown : String
condition_unknown = "Unknown"

abbrev pub phase_pending : String
phase_pending = "Pending"

abbrev pub phase_awaiting_approval : String
phase_awaiting_approval = "Awaiting Approval"

abbrev pub phase_done : String
phase_done = "Done"

abbrev pub phase_failed : String
phase_failed = "Failed"
