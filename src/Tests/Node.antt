-- ===== src/Tests/Node.antt =====
-- An API server of LANs, by namespace and name, and a node that keeps what was removed from it.
use mathlib.Core.Path.{subst}
use k8slan.Base.{
  sym, ◌≡◌, ◌≢◌, refl, ap, ◌∙◌, ◌&&◌, List, [], ◌∷◌, ◌++◌, contains, Result, ok, ◌==◌, ==_refl,
  list_eq, nat_eq, arith, if◌then◌else◌,
}
use k8slan.Base.Text.{Text, bytes}
use k8slan.Base.Io.{Error}
use k8slan.Lan.{Lan}
use k8slan.Interfaces.System.{System}
use k8slan.Daemon.Api.{Client, Fetch, found, not_found, failed, IsLawful, without, after_update}

abbrev pub Lans : Type 0
Lans = Text → Text → Fetch Lan

-- A LAN is read under the name that it is kept under.
named : Text → Text → Fetch Lan → Fetch Lan
named ns name (found lan) = found (record lan { namespace = ns; name = name })
named ns name not_found = not_found
named ns name (failed e) = failed e

unfoldable pub put : Lan → Lans → Lans
put lan s ns name = if ns == lan.namespace && name == lan.name then after_update lan else s ns name

unfoldable pub get : Lans → Text → Text → Fetch Lan
unfolding named
get s ns name = named ns name (s ns name)

unfoldable pub add : Lan → Text → Lan
add lan fin =
    if contains lan.finalizers fin
    then lan
    else record lan { finalizers = lan.finalizers ++ (fin ∷ []) }

abbrev pub server : Client
server = record {
  State = Lans;
  get_lan = get;
  update = λ lan s. (ok tt, put lan s);
  contains_finalizer = λ lan fin. contains lan.finalizers fin;
  add_finalizer = add;
  remove_finalizer = λ lan fin. record lan { finalizers = without fin lan.finalizers };
}

get-named :
    (ns name : Text) (r : Fetch Lan) {lan : Lan}
    → named ns name r ≡ found lan
    → (lan.namespace ≡ ns) × (lan.name ≡ name)
unfolding named
get-named ns name (found l) {lan} h = (cc, cc)
get-named ns name not_found {lan} h = cc
get-named ns name (failed e) {lan} h = cc

named-after_update :
    (lan : Lan) → named lan.namespace lan.name (after_update lan) ≡ after_update lan
unfolding named
named-after_update lan = ground arith

put_same : (lan : Lan) (s : Lans) → put lan s lan.namespace lan.name ≡ after_update lan
unfolding put
put_same lan s = rw (==_refl lan.namespace, ==_refl lan.name) refl

put_other :
    (lan : Lan) (s : Lans) (ns name : Text)
    → (lan.namespace ≡ ns → lan.name ≢ name)
    → put lan s ns name ≡ s ns name
unfolding put
put_other lan s ns name h = ground arith

pub server-IsLawful : IsLawful server
unfolding get add
server-IsLawful = record {
  get_named = λ s ns name {lan} h. get-named ns name (s ns name) h;
  get-update = λ s t lan h.
      let e : t ≡ put lan s = cc in
      subst (λ u. named lan.namespace lan.name (u lan.namespace lan.name) ≡ after_update lan)
        (sym e) (ap (named lan.namespace lan.name) (put_same lan s) ∙ named-after_update lan);
  update_other = λ s t lan ns name h other.
      let e : t ≡ put lan s = cc in
      subst (λ u. named ns name (u ns name) ≡ named ns name (s ns name)) (sym e)
        (ap (named ns name) (put_other lan s ns name other));
  update_failed = λ s t lan e h. cc;
  update_returns = λ s lan p. cc;
  contains_lem = λ lan fin. refl;
  add_lem = λ lan fin h. rw h refl;
  remove_lem = λ lan fin. refl;
}

abbrev done : {A : Type 0} → A → List Text → Result Error A × List Text
done a s = (ok a, s)

-- Every call succeeds; what was removed is kept.
abbrev pub node : System
node = record {
  State = List Text;
  NetNs = Text;
  mkdir_all = λ path. done tt;
  mount = λ source target flags. done tt;
  unmount = λ path flags. done tt;
  create_file = λ path. done tt;
  remove = λ path s. (ok tt, path ∷ s);
  remove_all = λ path s. (ok tt, path ∷ s);
  stat = λ path. done tt;
  get_ns = λ path. done path;
  set_ns = λ ns. done tt;
  close_ns = λ ns. done tt;
  ns_path = λ ns. ns;
  thread_ns = λ s. bytes "/proc/1/task/1/ns/net";
  unshare_net = done tt;
}
