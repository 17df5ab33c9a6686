-- ===== src/Controllers/Frames/Traces.antt =====
-- Every run of the Kubeconfig controller leaves alone what it does not have to change.
use kubeconfig_operator.Platform.{Platform}
