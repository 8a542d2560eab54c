-- ===== src/Controller/Index.antt =====
-- The field index of the manager's cache.
use k8slan.Base.{◌≡◌, ap, some, [], list_eq, nat_eq}
use k8slan.Lan.{Lan}
use k8slan.Lan.Nads.{Nad}
use k8slan.Controller.Api.{Client, IsLawful}
use k8slan.Controller.{extract_key}

-- Over a lawful client: an attachment to which the operator has given a LAN as its controller has
-- no index key.
pub extract_key_owned :
    (c : Client)
    → IsLawful c
    → (lan : Lan) (nad : Nad) {owned : Nad} → c.set_controller_reference lan nad ≡ some owned
    → extract_key owned ≡ []
unfolding extract_key
extract_key_owned c l lan nad {owned} e = ap extract_key (l.reference_set lan nad e)
