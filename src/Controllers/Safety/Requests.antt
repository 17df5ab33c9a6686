-- ===== src/Controllers/Safety/Requests.antt =====
-- The middle of a run: a request is submitted only after the secret with its key was saved.
use kubeconfig_operator.Base.{String, none, some, ◌≡◌, inl, inr, Option-cases, arith}
use kubeconfig_operator.Base.Dict.{Dict, insert, lookup-insert}
use kubeconfig_operator.K8s.{Secret, CsrObject, Reply, Fallible, ok, failed}
use kubeconfig_operator.Api.Types.{Kubeconfig}
use kubeconfig_operator.Platform.{Platform}
use kubeconfig_operator.Effects.{World, csr_get, announced, answered}
use kubeconfig_operator.Effects.Ends.{Ends, Ends-bind_run, Occurs}
use kubeconfig_operator.Controllers.Keys
use kubeconfig_operator.Controllers.Keys.Quiet.{create_csr_keeps}
use kubeconfig_operator.Controllers.Resources.{
  create_csr_object, read_content, certificate_secret_csr_key, certificate_secret_priv_key_key,
}
use kubeconfig_operator.Controllers.Keys.{CsrBuffers}
use kubeconfig_operator.Controllers.Kubeconfig.Objects.{Objects, put_content, mark}
use kubeconfig_operator.Controllers.Kubeconfig.Request.{
  csr_name, find_csr, generated, request_certificate, save_key, key_saved, csr_submitted,
  generation_failed,
}
use kubeconfig_operator.Controllers.Safety.{Shows, ShowsRequestOf, SavesKey, IsSafe, SafeExit}

module _ (P : Platform) where
  -- A run of find_csr that goes on has read the request.
  abbrev pub Found : Kubeconfig → CsrObject → World P.State → Type 0
  Found k csr w =
      IsSafe w.effects
      × Occurs (Shows k) w.effects
      × Occurs (ShowsRequestOf k.meta.name csr) w.effects

  csr_submitted-IsSafe :
      (k : Kubeconfig) (r : Reply CsrObject) (w : World P.State)
      → IsSafe w.effects
      → Ends (Found k) SafeExit (csr_submitted P k r w)
  unfolding csr_submitted mark
  csr_submitted-IsSafe k r w h = ground arith

  key_saved-IsSafe :
      (k : Kubeconfig) (request : String) (r : Reply Secret) (w : World P.State)
      → IsSafe w.effects
      → (r.err ≡ none → Occurs (SavesKey request) w.effects)
      → Ends (Found k) SafeExit (key_saved P k request r w)
  unfolding key_saved csr_submitted create_csr_object mark
  key_saved-IsSafe k request r w h saved = ground arith

  read_saved_key :
      (key request : String) (m : Dict String)
      → read_content certificate_secret_priv_key_key (
          some (
            insert certificate_secret_csr_key request
              (insert certificate_secret_priv_key_key key m)))
        ≡ some key
  read_saved_key key request m = simp lookup-insert

  save_key-IsSafe :
      (o : Objects) (b : CsrBuffers P) (w : World P.State)
      → IsSafe w.effects
      → Ends (Found o.kubeconfig) SafeExit (save_key P o b w)
  unfolding save_key put_content
  save_key-IsSafe o b w h = elim (Option-cases b.key) [
    | inl missing ↦ rw missing h
    | inr (key, made) ↦ rw made (elim (Option-cases o.secret.content) [
      | inl missing ↦ rw missing h
      | inr (m, there) ↦ rw there (
          key_saved-IsSafe o.kubeconfig b.csr _ _ (tt, h)
            (λ ok. inl (ok, rw (read_saved_key key b.csr m) (λ e. cc), simp lookup-insert)))
    ])
  ]

  generated-IsSafe :
      (o : Objects) (b : Fallible (CsrBuffers P)) (w : World P.State)
      → IsSafe w.effects
      → Ends (Found o.kubeconfig) SafeExit (generated P o b w)
  unfolding generated generation_failed mark
  generated-IsSafe o (ok b) w h = save_key-IsSafe o b w h
  generated-IsSafe o (failed e) w h = ground arith

  request_certificate-IsSafe :
      (o : Objects) (w : World P.State)
      → IsSafe w.effects
      → Ends (Found o.kubeconfig) SafeExit (request_certificate P o w)
  unfolding request_certificate
  request_certificate-IsSafe o w h =
      let v : World P.State = announced "Normal" "Generating" "Generating CSR for kubeconfig" w in
      Ends-bind_run (λ _ v. IsSafe v.effects) (Found o.kubeconfig) SafeExit
        (Keys.create_csr P o.kubeconfig v) (generated P o)
        (create_csr_keeps P IsSafe o.kubeconfig v (tt, h)) (generated-IsSafe o)

  pub find_csr-IsSafe :
      (o : Objects) (w : World P.State)
      → IsSafe w.effects
      → Occurs (Shows o.kubeconfig) w.effects
      → Ends (Found o.kubeconfig) SafeExit (find_csr P o w)
  unfolding find_csr
  find_csr-IsSafe o w h k = ground (
    arith,
    request_certificate-IsSafe o
        (answered (csr_get (csr_name o.kubeconfig)) (P.get_csr (csr_name o.kubeconfig)) w) (tt, h),
  )
