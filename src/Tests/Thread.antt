-- ===== src/Tests/Thread.antt =====
-- A system that keeps the namespace of the thread, by its path, and nothing else.
use k8slan.Base.{refl, inl, ok}
use k8slan.Base.Text.{Text, bytes}
use k8slan.Base.Io.{Io}
use k8slan.Interfaces.System.{System}
use k8slan.Interfaces.Namespace.{new_ns}
use k8slan.Interfaces.Namespace.Thread.{IsThreaded, Back, new_ns-returns}

abbrev done : {A : Type 0} → A → Io Text A
done a s = (ok a, s)

abbrev threaded : System
threaded = record {
  State = Text;
  NetNs = Text;
  mkdir_all = λ path. done tt;
  mount = λ source target flags. done tt;
  unmount = λ path flags. done tt;
  create_file = λ path. done tt;
  remove = λ path. done tt;
  remove_all = λ path. done tt;
  stat = λ path. done tt;
  get_ns = λ path. done path;
  set_ns = λ ns s. (ok tt, ns);
  close_ns = λ ns. done tt;
  ns_path = λ ns. ns;
  thread_ns = λ s. s;
  unshare_net = λ s. (ok tt, bytes "new");
}

threaded-IsThreaded : IsThreaded threaded (λ s. s) (λ ns. ns)
threaded-IsThreaded = record {
  opens_own = λ s t {ns} h. cc;
  sets = λ ns s. inl refl;
  unshares = λ s. inl refl;
  opens = λ path s. refl;
  closes = λ ns s. refl;
  mounts = λ source dest flags s. refl;
  makes = λ path s. refl;
  creates = λ path s. refl;
  removes = λ path s. refl;
}

new_ns-returns_example :
    Back threaded
      (λ s. s)
      (λ ns. ns)
      (bytes "old")
      (new_ns threaded (bytes "knlvrf") (bytes "old")).1
new_ns-returns_example =
    new_ns-returns threaded (λ s. s) (λ ns. ns) threaded-IsThreaded (bytes "knlvrf") (bytes "old")
