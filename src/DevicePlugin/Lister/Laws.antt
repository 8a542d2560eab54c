-- ===== src/DevicePlugin/Lister/Laws.antt =====
-- Which resources the lister knows after a message, and what it has told the plugin manager.
use k8slan.Base.{
  ◌≡◌, ◌≢◌, refl, ap, ◌∙◌, Bool, true, false, Option, none, some, List, [], ◌∷◌, ◌++◌, contains,
  arith, ◌==◌, list_eq, nat_eq, if◌then◌else◌,
}
use k8slan.Base.Text.{Text}
use k8slan.Base.Dict
use k8slan.Base.Dict.{keys}
use k8slan.Lan.{LanSpec, spokes}
use k8slan.Lan.Names.{get_dp_resource_name}
use k8slan.Lan.Nads.Laws.{same_kind_eq, other_kind_eq}
use k8slan.DevicePlugin.Lister.{
  DeviceList, add_spokes, add_lan, remove_spokes, remove_lan, report_list, report,
  get_current_plugins, Message, add, remove, handle, discover, plugin_lan,
}

-- Both resources of a spoke are set together, and removed together.
lookup-insert_both :
    (x y : Text) (b : Bool) (lan : LanSpec) (d : DeviceList)
    → Dict.lookup (get_dp_resource_name x b) (
        Dict.insert
          (get_dp_resource_name y false)
          lan
          (Dict.insert (get_dp_resource_name y true) lan d))
      ≡ (if x == y then some lan else Dict.lookup (get_dp_resource_name x b) d)
lookup-insert_both x y true lan d =
    rw (Dict.lookup-insert, Dict.lookup-insert, same_kind_eq x y true, other_kind_eq x y true)
lookup-insert_both x y false lan d =
    rw (Dict.lookup-insert, Dict.lookup-insert, same_kind_eq x y false, other_kind_eq x y false)

lookup-erase_both :
    (x y : Text) (b : Bool) (d : DeviceList)
    → Dict.lookup
        (get_dp_resource_name x b)
        (Dict.erase (get_dp_resource_name y false) (Dict.erase (get_dp_resource_name y true) d))
      ≡ (if x == y then none else Dict.lookup (get_dp_resource_name x b) d)
lookup-erase_both x y true d =
    rw (Dict.lookup-erase, Dict.lookup-erase, same_kind_eq x y true, other_kind_eq x y true)
lookup-erase_both x y false d =
    rw (Dict.lookup-erase, Dict.lookup-erase, same_kind_eq x y false, other_kind_eq x y false)

lookup-add_spokes :
    (lan : LanSpec) (xs : List Text) (d : DeviceList) (x : Text) (b : Bool)
    → Dict.lookup (get_dp_resource_name x b) (add_spokes lan xs d)
      ≡ (if contains xs x then some lan else Dict.lookup (get_dp_resource_name x b) d)
unfolding add_spokes
lookup-add_spokes lan [] d x b = refl
lookup-add_spokes lan (y ∷ xs) d x b =
    rw (lookup-add_spokes lan xs _ x b, lookup-insert_both x y b lan d) (ground arith)

lookup-remove_spokes :
    (xs : List Text) (d : DeviceList) (x : Text) (b : Bool)
    → Dict.lookup (get_dp_resource_name x b) (remove_spokes xs d)
      ≡ (if contains xs x then none else Dict.lookup (get_dp_resource_name x b) d)
unfolding remove_spokes
lookup-remove_spokes [] d x b = refl
lookup-remove_spokes (y ∷ xs) d x b =
    rw (lookup-remove_spokes xs _ x b, lookup-erase_both x y b d) (ground arith)

-- Which LAN a resource belongs to after a message: that of the message if the resource is of one
-- of its spokes, and otherwise the one that it belonged to.
pub plugin_lan-handle :
    (m : Message) (d : DeviceList) (x : Text) (b : Bool)
    → plugin_lan (get_dp_resource_name x b) (handle m d) ≡ elim m [
      | add lan ↦
          if contains (spokes lan) x then some lan else plugin_lan (get_dp_resource_name x b) d
      | remove lan ↦
          if contains (spokes lan) x then none else plugin_lan (get_dp_resource_name x b) d
    ]
unfolding handle plugin_lan add_lan remove_lan
plugin_lan-handle (add lan) d x b = lookup-add_spokes lan (spokes lan) d x b
plugin_lan-handle (remove lan) d x b = lookup-remove_spokes (spokes lan) d x b

-- The LAN that the last message about a spoke leaves for it.
abbrev pub last_lan : List Message → Text → Option LanSpec → Option LanSpec
last_lan [] x known = known
last_lan (add lan ∷ ms) x known =
    last_lan ms x (if contains (spokes lan) x then some lan else known)
last_lan (remove lan ∷ ms) x known = last_lan ms x (if contains (spokes lan) x then none else known)

-- After any messages in the order in which they are taken, a resource belongs to the LAN of the
-- last message about its spoke, or to none if that was a removal, or to the LAN it had before if
-- there was no such message.
pub plugin_lan-discover :
    (ms : List Message) (d : DeviceList) (x : Text) (b : Bool)
    → plugin_lan (get_dp_resource_name x b) (discover ms d).0
      ≡ last_lan ms x (plugin_lan (get_dp_resource_name x b) d)
unfolding discover
plugin_lan-discover [] d x b = refl
plugin_lan-discover (add lan ∷ ms) d x b =
    plugin_lan-discover ms (handle (add lan) d) x b
    ∙ ap (last_lan ms x) (plugin_lan-handle (add lan) d x b)
plugin_lan-discover (remove lan ∷ ms) d x b =
    plugin_lan-discover ms (handle (remove lan) d) x b
    ∙ ap (last_lan ms x) (plugin_lan-handle (remove lan) d x b)

-- If two LANs share a spoke and both are added, the spoke's resources are the later one's, and the
-- removal of the earlier one takes them away.
pub remove_shared :
    (a b : LanSpec) (d : DeviceList) (x : Text) (is_veth : Bool)
    → contains (spokes a) x ≡ true
    → contains (spokes b) x ≡ true
    → (plugin_lan (get_dp_resource_name x is_veth) (discover (add a ∷ add b ∷ []) d).0 ≡ some b)
      × (plugin_lan (get_dp_resource_name x is_veth) (discover (add a ∷ add b ∷ remove a ∷ []) d).0
          ≡ none)
remove_shared a b d x is_veth ha hb = (
  plugin_lan-discover (add a ∷ add b ∷ []) d x is_veth ∙ rw hb,
  plugin_lan-discover (add a ∷ add b ∷ remove a ∷ []) d x is_veth ∙ rw ha,
)

-- What the plugin manager was told last.
abbrev pub told : List Text → List (List Text) → List Text
told before [] = before
told before (names ∷ reports) = told names reports

told-append :
    (before : List Text) (xs ys : List (List Text))
    → told before (xs ++ ys) ≡ told (told before xs) ys
told-append before [] ys = refl
told-append before (x ∷ xs) ys = told-append x xs ys

told-report :
    (before : List Text) (names : List Text) → names ≢ [] → told before (report_list names) ≡ names
unfolding report_list
told-report before [] h = absurd (h refl)
told-report before (n ∷ names) h = refl

-- If some resource is left after the messages, of which there is one at least, the plugin manager
-- was told last exactly the resources that the lister has.
pub discover_tells :
    (m : Message) (ms : List Message) (d : DeviceList) (before : List Text)
    → get_current_plugins (discover (m ∷ ms) d).0 ≢ []
    → told before (discover (m ∷ ms) d).1 ≡ get_current_plugins (discover (m ∷ ms) d).0
unfolding discover report
discover_tells m [] d before h =
    told-append before (report_list (get_current_plugins (handle m d))) []
    ∙ told-report before (get_current_plugins (handle m d)) h
discover_tells m (n ∷ ms) d before h =
    told-append before (report_list (get_current_plugins (handle m d))) _
    ∙ discover_tells n ms (handle m d) _ h
