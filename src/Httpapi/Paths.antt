-- ===== src/Httpapi/Paths.antt =====
-- docs/route-allowlist.md: the upstream paths that the routes may ask for, written out.
use text.Mathlib.TextLemmas.{append-nil}
use tenant_deck.Base.{String, ◌+++◌, ◌≡◌, codes, refl}
use tenant_deck.Capsule.Client.{GroupVersionResource, list_path, get_path}
use tenant_deck.Httpapi.Validate.Labels.{IsLabel}

-- The path of a list of `resource` in the namespace `ns`, which is an RFC 1123 label, under
-- `api_prefix`, and nothing after the resource.
pub record IsListPath (api_prefix resource ns path : String) : Type 0 where
  pub namespace : IsLabel (codes ns)
  pub text : path ≡ "/" +++ (api_prefix +++ ("/namespaces/" +++ (ns +++ ("/" +++ resource))))

-- The path of one object of `resource`; its name is an RFC 1123 label too.
pub record IsDetailPath (api_prefix resource ns name path : String) : Type 0 where
  pub namespace : IsLabel (codes ns)
  pub object : IsLabel (codes name)
  pub text :
      path
      ≡ "/"
        +++ (api_prefix +++ ("/namespaces/" +++ (ns +++ ("/" +++ (resource +++ ("/" +++ name))))))

-- The kinds that can be listed and fetched.
pub data IsKind : String → String → Type 0 where
  deployments : IsKind "apis/apps/v1" "deployments"
  stateful_sets : IsKind "apis/apps/v1" "statefulsets"
  daemon_sets : IsKind "apis/apps/v1" "daemonsets"
  pods : IsKind "api/v1" "pods"
  jobs : IsKind "apis/batch/v1" "jobs"
  cron_jobs : IsKind "apis/batch/v1" "cronjobs"
  services : IsKind "api/v1" "services"
  ingresses : IsKind "apis/networking.k8s.io/v1" "ingresses"
  persistent_volume_claims : IsKind "api/v1" "persistentvolumeclaims"

-- The lists that the overview and the events route ask for.
pub data IsExtraList : String → Type 0 where
  resource_quotas : IsExtraList "resourcequotas"
  limit_ranges : IsExtraList "limitranges"
  events : IsExtraList "events?limit=200"

pub data IsAllowedPath : String → Type 0 where
  namespaces : IsAllowedPath "/api/v1/namespaces"
  listed :
      (api_prefix resource ns path : String)
      → IsKind api_prefix resource
      → IsListPath api_prefix resource ns path
      → IsAllowedPath path
  fetched :
      (api_prefix resource ns name path : String)
      → IsKind api_prefix resource
      → IsDetailPath api_prefix resource ns name path
      → IsAllowedPath path
  extra :
      (resource ns path : String)
      → IsExtraList resource
      → IsListPath "api/v1" resource ns path
      → IsAllowedPath path

-- The client's paths are these.
pub list_path-IsListPath :
    (ns : String) (gvr : GroupVersionResource)
    → IsLabel (codes ns)
    → IsListPath gvr.api_prefix gvr.resource ns (list_path ns gvr 0)
list_path-IsListPath ns gvr label = record {
  namespace = label;
  text = rw (append-nil gvr.resource) refl;
}

pub get_path-IsDetailPath :
    (ns name : String) (gvr : GroupVersionResource)
    → IsLabel (codes ns)
    → IsLabel (codes name)
    → IsDetailPath gvr.api_prefix gvr.resource ns name (get_path ns name gvr)
get_path-IsDetailPath ns name gvr label label' = record {
  namespace = label;
  object = label';
  text = refl;
}
