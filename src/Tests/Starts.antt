-- ===== src/Tests/Starts.antt =====
-- A start at which every call succeeds, with the default flags.
use kubeconfig_operator.Base.{none, []}
use kubeconfig_operator.Program.{Host, Startup, default_flags, program}
use kubeconfig_operator.Program.Readiness.{IsStarted, program-IsStarted}

abbrev calm : Host
calm = record { State = Unit {0}; answer = λ c s. (none, s) }

abbrev at_start : Startup (Unit {0})
at_start = record { host = tt; calls = [] }

program-IsStarted_example : IsStarted default_flags (program calm default_flags at_start)
program-IsStarted_example = program-IsStarted calm default_flags tt
