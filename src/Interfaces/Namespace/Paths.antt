-- ===== src/Interfaces/Namespace/Paths.antt =====
-- Where the file of a namespace is (pkg/interfaces/ns.go), for the names that `Validate` lets
-- through.
use mathlib.Core.List.{append_cancel_left}
use k8slan.Base.{◌≡◌, ◌≢◌, refl, sym, ◌∙◌, true, some, [], ◌++◌, ok, list_eq, nat_eq}
use k8slan.Base.Text.{Text, bytes, has_prefix, trim_space, space_width, is_blank}
use k8slan.Base.Text.Laws.{has_prefix-append}
use k8slan.Base.FilePath.Laws.{IsPlain, join_netns, join_netns_up}
use k8slan.Lan.{LanSpec}
use k8slan.Lan.Validation.{validate}
use k8slan.Lan.Validation.Laws.{Accepted, validate_iff}
use k8slan.Interfaces.Namespace.{get_ns_run_dir, named_path}

named_path-plain : (name : Text) → IsPlain name → named_path name ≡ bytes "/var/run/netns/" ++ name
unfolding named_path
named_path-plain name plain = join_netns name plain

named_path-below : (name : Text) → IsPlain name → has_prefix (named_path name) get_ns_run_dir ≡ true
unfolding get_ns_run_dir
named_path-below name plain =
    rw (named_path-plain name plain)
      (has_prefix-append (bytes "/var/run/netns") (bytes "/" ++ name))

-- Two different names with no slash, neither empty nor one or two dots, have different files, both
-- below the directory of the namespaces.
named_path_apart :
    (a b : Text)
    → IsPlain a
    → IsPlain b
    → a ≢ b
    → (named_path a ≢ named_path b)
      × (has_prefix (named_path a) get_ns_run_dir ≡ true)
      × (has_prefix (named_path b) get_ns_run_dir ≡ true)
named_path_apart a b plain_a plain_b differ = (
  λ h. differ (
      append_cancel_left (bytes "/var/run/netns/") a b
        (sym (named_path-plain a plain_a) ∙ h ∙ named_path-plain b plain_b)),
  named_path-below a plain_a,
  named_path-below b plain_b,
)

up_not_blank : (name : Text) → trim_space (bytes "../" ++ name) ≢ []
unfolding trim_space space_width is_blank nat_eq
up_not_blank name h = cc

-- A LAN that `Validate` accepts is still accepted when its namespace is two dots, a slash and a
-- plain name, and the file of that namespace is outside the directory of the namespaces.
pub named_path_escapes :
    (spec : LanSpec) (name : Text)
    → Accepted spec
    → IsPlain name
    → (validate (record spec { ns = some (bytes "../" ++ name) }) ≡ ok tt)
      × (named_path (bytes "../" ++ name) ≡ bytes "/var/run/" ++ name)
unfolding named_path
named_path_escapes spec name a plain = (
  (validate_iff (record spec { ns = some (bytes "../" ++ name) })).1 (record {
    bridge = a.bridge;
    vxlan = a.vxlan;
    ns = (bytes "../" ++ name, refl, up_not_blank name);
    vni = a.vni;
    group = a.group;
    spoke_count = a.spoke_count;
    spokes_fit = a.spokes_fit;
  }),
  join_netns_up name plain,
)
