-- ===== src/Config/RoundTrip.antt =====
-- A configuration that is written and read back has the same entries under the same names.
use kubeconfig_operator.Base.{
  ap, String, Option, none, some, [], ◌∷◌, ◌≡◌, refl, ◌∙◌, or_else, arith, eq_iff,
}
use kubeconfig_operator.Base.Dict.{Dict, lookup, insert, lookup-insert, NodupKeys}
use kubeconfig_operator.K8s.{ok}
use kubeconfig_operator.Config.{
  Config, Codec, Cluster, Context, User, cluster_entries, context_entries, user_entries,
  SerializedConfig, collect_clusters, collect_contexts, collect_users, serialize, deserialize,
  marshal, unmarshal,
}

-- A walk visits each entry of a map once.
pub record HasRangeLaws (C : Codec) : Type 1 where
  pub range_lookup :
      (V : Type 0) (m : Dict V) (k : String) → NodupKeys m → lookup k (C.range V m) ≡ lookup k m
  pub range_nodup : (V : Type 0) (m : Dict V) → NodupKeys m → NodupKeys (C.range V m)

-- The YAML library reads back this record as it wrote it.
abbrev pub ReadsBack : (C : Codec) → SerializedConfig C.Any → Type 0
ReadsBack C c = C.yaml_unmarshal (C.yaml_marshal c) ≡ record { object = c; err = none }

collect_clusters-lookup :
    (k : String) (es : Dict Cluster) (m : Dict Cluster)
    → NodupKeys es
    → lookup k (collect_clusters m (cluster_entries es)) ≡ or_else (lookup k es) (lookup k m)
unfolding lookup collect_clusters cluster_entries
collect_clusters-lookup k [] m h = refl
collect_clusters-lookup k ((j, v) ∷ es) m h =
    ground (
      arith,
      collect_clusters-lookup k es (insert j v m) h.1,
      lookup-insert m j k v,
      h.0,
      eq_iff j k,
    )

collect_contexts-lookup :
    (k : String) (es : Dict Context) (m : Dict Context)
    → NodupKeys es
    → lookup k (collect_contexts m (context_entries es)) ≡ or_else (lookup k es) (lookup k m)
unfolding lookup collect_contexts context_entries
collect_contexts-lookup k [] m h = refl
collect_contexts-lookup k ((j, v) ∷ es) m h =
    ground (
      arith,
      collect_contexts-lookup k es (insert j v m) h.1,
      lookup-insert m j k v,
      h.0,
      eq_iff j k,
    )

collect_users-lookup :
    (k : String) (es : Dict User) (m : Dict User)
    → NodupKeys es
    → lookup k (collect_users m (user_entries es)) ≡ or_else (lookup k es) (lookup k m)
unfolding lookup collect_users user_entries
collect_users-lookup k [] m h = refl
collect_users-lookup k ((j, v) ∷ es) m h =
    ground
      (arith, collect_users-lookup k es (insert j v m) h.1, lookup-insert m j k v, h.0, eq_iff j k)

or_else-none : {A : Type 0} (o : Option A) → or_else o none ≡ o
or_else-none none = refl
or_else-none (some a) = refl

module _ (C : Codec) where
  -- The two configurations agree on all that a reader can look up.
  pub record Agrees (c d : Config C.Any) : Type 0 where
    pub preferences : d.preferences ≡ c.preferences
    pub current_context : d.current_context ≡ c.current_context
    pub clusters : (k : String) → lookup k d.clusters ≡ lookup k c.clusters
    pub contexts : (k : String) → lookup k d.contexts ≡ lookup k c.contexts
    pub users : (k : String) → lookup k d.users ≡ lookup k c.users

  pub record HasNodupKeys (c : Config C.Any) : Type 0 where
    pub clusters : NodupKeys c.clusters
    pub contexts : NodupKeys c.contexts
    pub users : NodupKeys c.users

  deserialize-serialize :
      HasRangeLaws C
      → (c : Config C.Any) → HasNodupKeys c
      → Agrees c (deserialize C (serialize C c))
  unfolding serialize deserialize lookup
  deserialize-serialize L c h = record {
    preferences = refl;
    current_context = refl;
    clusters = λ k.
        collect_clusters-lookup k (C.range Cluster c.clusters) []
          (L.range_nodup Cluster c.clusters h.clusters)
        ∙ or_else-none _
        ∙ L.range_lookup Cluster c.clusters k h.clusters;
    contexts = λ k.
        collect_contexts-lookup k (C.range Context c.contexts) []
          (L.range_nodup Context c.contexts h.contexts)
        ∙ or_else-none _
        ∙ L.range_lookup Context c.contexts k h.contexts;
    users = λ k.
        collect_users-lookup k (C.range User c.users) [] (L.range_nodup User c.users h.users)
        ∙ or_else-none _
        ∙ L.range_lookup User c.users k h.users;
  }

  unmarshal-read :
      (text : String) (c : SerializedConfig C.Any)
      → C.yaml_unmarshal text ≡ record { object = c; err = none }
      → unmarshal C text ≡ ok (deserialize C c)
  unfolding unmarshal
  unmarshal-read text c h = rw (unmarshal, h) (ap (λ r. ok (deserialize C r.object)) h)

  -- A configuration whose maps list no name twice, written and read back, has the same preferences,
  -- the same current context and, under every name, the same cluster, context and user, where the
  -- YAML library reads back this record and a map walk visits each entry once.
  pub unmarshal-marshal :
      HasRangeLaws C
      → (c : Config C.Any) → HasNodupKeys c
      → ReadsBack C (serialize C c)
      → (d : Config C.Any) × (unmarshal C (marshal C c) ≡ ok d) × Agrees c d
  unfolding marshal
  unmarshal-marshal L c h reads = (
    deserialize C (serialize C c),
    unmarshal-read (marshal C c) (serialize C c) reads,
    deserialize-serialize L c h,
  )
