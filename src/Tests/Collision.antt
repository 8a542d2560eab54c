-- ===== src/Tests/Collision.antt =====
-- A kernel that keeps the names of links, in which the spokes `a` and `ap` collide.
use mathlib.Core.Option.{some-injective}
use k8slan.Base.{
  ℕ, ◌≡◌, ◌≢◌, refl, sym, ap, ◌∙◌, Bool, true, false, Bool-cases, inl, inr, some, List, [], ◌∷◌,
  ◌++◌, ok, err, contains, contains-append, ◌==◌, ◌||◌, ==_ne, ==_iff, list_eq, nat_eq, arith,
  if◌then◌else◌,
}
use k8slan.Base.Int.{ℤ}
use k8slan.Base.Text.{Text, bytes}
use k8slan.Base.Io.{Io, errno, link_not_found}
use k8slan.Netip.{parse_addr}
use k8slan.Daemon.Api.{without}
use k8slan.Daemon.Lifecycle.{contains-without}
use k8slan.Interfaces.Netlink.{
  Link, NewLink, new_bridge, new_veth, new_vxlan, new_macvtap, new_dummy, Netlink,
}
use k8slan.Interfaces.Kernel.{names, KernelLaws}
use k8slan.Interfaces.Macvtap.{link_delete, get_peer_veth_name}
use k8slan.Interfaces.Apply.{inner_mtu, in_ns}
use k8slan.Interfaces.Apply.Collision.{spokes_collide}
use k8slan.Tests.Node.{node}
use k8slan.Tests.Kernel.{link, kernel}
use k8slan.Tests.Data.{lan_example}

unfoldable link_of : Text → Link
unfolding list_eq nat_eq
link_of name = link name (if name == bytes "br2" then bytes "bridge" else bytes "veth")

unfoldable find : Text → Io (List Text) Link
unfolding list_eq nat_eq
find name s = if contains s name then (ok (link_of name), s) else (err link_not_found, s)

abbrev first_name : NewLink → Text
first_name (new_bridge name mtu tx_qlen) = name
first_name (new_veth name peer_name parent mtu tx_qlen) = name
first_name (new_vxlan name mtu tx_qlen ns_fd group vni dev port learning proxy age) = name
first_name (new_macvtap name parent tx_qlen mode) = name
first_name (new_dummy name) = name

unfoldable make : NewLink → Io (List Text) Link
unfolding list_eq nat_eq
make new s =
    if contains s (first_name new)
    then (err (errno 17), s)
    else (ok (link_of (first_name new)), names new ++ s)

abbrev naming : Netlink node
naming = record kernel {
  link_by_name = find;
  link_add = make;
  link_del = λ l s. (ok tt, without l.name s);
  link_set_ns_fd = λ l fd s. (ok tt, without l.name s);
}

abbrev has : List Text → Text → Bool
has s name = contains s name

make_adds :
    (new : NewLink) (s : List Text) (n : Text)
    → contains (names new) n ≡ false
    → has (make new s).1 n ≡ has s n
unfolding make
make_adds new s n other = elim (Bool-cases (contains s (first_name new))) [
  | inl used ↦ rw (used, make) refl
  | inr free ↦ rw (free, make) (contains-append (names new) s n ∙ ap (λ b. b || contains s n) other)
]

make_keeps :
    (new : NewLink) (s : List Text) (n : Text) → has s n ≡ true → has (make new s).1 n ≡ true
unfolding make
make_keeps new s n taken = elim (Bool-cases (contains s (first_name new))) [
  | inl used ↦ rw (used, make) taken
  | inr free ↦
      rw (free, make)
        (contains-append (names new) s n
          ∙ ap (λ b. contains (names new) n || b) taken
          ∙ ground arith)
]

without_others : (m n : Text) (s : List Text) → n ≢ m → contains (without m s) n ≡ contains s n
without_others m n s other = contains-without m n s ∙ rw (==_ne n m other) refl

find_name : (name : Text) (s : List Text) {l : Link} → (find name s).0 ≡ ok l → l.name ≡ name
unfolding find link_of
find_name name s {l} e = elim (Bool-cases (contains s name)) [
  | inl used ↦
      let same : link_of name ≡ l = (let h = rw (used, find) at e in cc) in
      ap (λ k. k.name) (sym same)
  | inr free ↦ let h = rw (free, find) at e in cc
]

make_pair :
    (name peer_name : Text) (parent : ℕ) (mtu tx_qlen : ℤ) (s : List Text) {l : Link}
    {t : List Text}
    → make (new_veth name peer_name parent mtu tx_qlen) s ≡ (ok l, t)
    → (l.name ≡ name) × (has t peer_name ≡ true)
unfolding make link_of
make_pair name peer_name parent mtu tx_qlen s {l} {t} h = elim (Bool-cases (contains s name)) [
  | inl used ↦ let e = rw (used, make) at h in cc
  | inr free ↦
      let e = rw (free, make) at h in
      let same : link_of name ≡ l = cc in
      let after : name ∷ peer_name ∷ s ≡ t = cc in
      (ap (λ k. k.name) (sym same), ap (λ u. contains u peer_name) (sym after) ∙ ground arith)
]

naming-KernelLaws : KernelLaws node naming has
unfolding find make
naming-KernelLaws = record {
  reads = λ name s. ground arith;
  absent = λ name s free. rw (free, find) refl;
  of_name = find_name;
  in_use = λ name peer_name parent mtu tx_qlen s {l} {t} used h. let e = rw (used, make) at h in cc;
  paired = make_pair;
  adds = make_adds;
  keeps = make_keeps;
  deletes = λ l s n veth other. without_others l.name n s other;
  ups = λ l s n. refl;
  attaches = λ l br s n. refl;
  masks = λ l mask s n. refl;
  moves = λ l fd s n other. without_others l.name n s other;
}

some_apart : (a b : Text) → (a == b) ≡ false → some a ≢ some b
some_apart a b differ e = let same = (==_iff a b).1 (some-injective a b e) in cc

first_made :
    in_ns node naming lan_example (bytes "a") (link [] []) (inner_mtu 1500) (bytes "host") []
    ≡ (ok true, bytes "ap" ∷ bytes "br2" ∷ [])
unfolding in_ns find make link_of parse_addr link_delete list_eq nat_eq
first_made = refl

spokes_collide_example :
    in_ns node naming lan_example
      (bytes "ap")
      (link [] [])
      (inner_mtu 1500)
      (bytes "host")
      (bytes "ap" ∷ bytes "br2" ∷ [])
    ≢ (ok true, [])
unfolding get_peer_veth_name list_eq nat_eq
spokes_collide_example =
    spokes_collide node naming has naming-KernelLaws lan_example (bytes "a") (link [] [])
      (link [] []) (inner_mtu 1500) (inner_mtu 1500) (bytes "host") (bytes "host") []
      (bytes "ap" ∷ bytes "br2" ∷ []) [] first_made refl
      (some_apart (bytes "br2") (bytes "app") refl) (some_apart (bytes "vx2") (bytes "ap") refl)
