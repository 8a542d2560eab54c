-- ===== src/Tests/Plugin.antt =====
-- The names, the attachments and the device plugin at the README's LAN.
use k8slan.Base.{
  ℕ, suc, List, ◌≡◌, refl, ◌↔◌, true, false, none, some, [], ◌∷◌, ◌*◌, All, contains, length,
  Distinct, map, ok, list_eq, nat_eq, ◌≢◌,
}
use k8slan.Base.Dict.{insert}
use k8slan.Base.Text.{Text, bytes, contains_text}
use k8slan.Lan.{spokes}
use k8slan.Lan.Names.{get_dp_resource_name, get_spoke_name_from_resource_name}
use k8slan.Lan.Names.Laws.{prefix_of, spoke_name_iff}
use k8slan.Lan.Nads.{get_nads}
use k8slan.Lan.Nads.Laws.{resource_names, nad_name, get_nads-names}
use k8slan.Lan.Nads.Wanted.{IsWanted, get_nads-IsWanted}
use k8slan.DevicePlugin.Lister.{
  add, remove, discover, handle, add_lan, plugin_lan, get_current_plugins,
}
use k8slan.DevicePlugin.Lister.Laws.{
  last_lan, told, plugin_lan-discover, remove_shared, discover_tells,
}
use k8slan.DevicePlugin.Lister.Race.{System, Run, waiting, IsDrained, withdrawn_either_way}
use k8slan.DevicePlugin.Plugin.{new_plugin, device_of, DeviceSpec, Ensure, allocate}
use k8slan.DevicePlugin.Plugin.Laws.{AnswersAll, AlwaysEnsures, allocate-done, new_plugin-add}
use k8slan.Tests.Data.{srl, worker, lan_example, shared, srl_plugin}

abbrev mangled : Text
mangled = bytes "ak8slan-mac-b"

mangled_name : get_spoke_name_from_resource_name (get_dp_resource_name mangled false) ≡ bytes "ab"
unfolding get_spoke_name_from_resource_name get_dp_resource_name list_eq nat_eq
mangled_name = refl

spoke_name_iff_example :
    (get_spoke_name_from_resource_name (get_dp_resource_name mangled false) ≡ mangled)
    ↔ (contains_text mangled (prefix_of false) ≡ false)
spoke_name_iff_example = spoke_name_iff mangled false

get_nads-names_example :
    (length (get_nads lan_example (bytes "default")) ≡ 2 * length (spokes lan_example))
    × (map nad_name (get_nads lan_example (bytes "default")) ≡ resource_names (spokes lan_example))
    × (Distinct (map nad_name (get_nads lan_example (bytes "default")))
        ↔ Distinct (spokes lan_example))
get_nads-names_example = get_nads-names lan_example (bytes "default")

get_nads-IsWanted_example :
    All (IsWanted lan_example (bytes "default")) (get_nads lan_example (bytes "default"))
get_nads-IsWanted_example = get_nads-IsWanted lan_example (bytes "default")

plugin_lan-discover_example :
    plugin_lan (get_dp_resource_name srl true) (discover (add lan_example ∷ add shared ∷ []) []).0
    ≡ last_lan
        (add lan_example ∷ add shared ∷ [])
        srl
        (plugin_lan (get_dp_resource_name srl true) [])
plugin_lan-discover_example = plugin_lan-discover (add lan_example ∷ add shared ∷ []) [] srl true

srl_listed : contains (spokes lan_example) srl ≡ true
unfolding list_eq nat_eq
srl_listed = refl

both_listed : contains (spokes shared) srl ≡ true
unfolding list_eq nat_eq
both_listed = refl

remove_shared_example :
    (plugin_lan (get_dp_resource_name srl false) (discover (add lan_example ∷ add shared ∷ []) []).0
      ≡ some shared)
    × (plugin_lan
          (get_dp_resource_name srl false)
          (discover (add lan_example ∷ add shared ∷ remove lan_example ∷ []) []).0
        ≡ none)
remove_shared_example = remove_shared lan_example shared [] srl false srl_listed both_listed

something_left : get_current_plugins (discover (add lan_example ∷ []) []).0 ≢ []
unfolding discover handle add_lan insert get_dp_resource_name get_current_plugins list_eq nat_eq
something_left h = cc

told_last :
    told [] (discover (add lan_example ∷ []) []).1
    ≡ get_current_plugins (discover (add lan_example ∷ []) []).0
told_last = discover_tells (add lan_example) [] [] [] something_left

withdrawn_either_way_example :
    ((s : System) × Run (waiting lan_example []) s
      × IsDrained s
      × (plugin_lan (get_dp_resource_name srl true) s.devices ≡ some lan_example))
    × ((s : System) × Run (waiting lan_example []) s
        × IsDrained s
        × (plugin_lan (get_dp_resource_name srl true) s.devices ≡ none))
withdrawn_either_way_example = withdrawn_either_way lan_example [] srl true srl_listed

srl_plain : contains_text srl (prefix_of false) ≡ false
unfolding contains_text list_eq nat_eq
srl_plain = refl

srl_plugin_made :
    new_plugin worker (handle (add lan_example) []) (get_dp_resource_name srl false)
    ≡ some srl_plugin
srl_plugin_made = new_plugin-add worker lan_example [] srl false srl_listed srl_plain

-- Each interface gets the next index.
abbrev counting : Ensure ℕ
counting mac spoke lan host mode dummy index = (ok index, suc index)

allocated :
    allocate counting srl_plugin ((bytes "srlM0" ∷ []) ∷ [] ∷ []) 12
    ≡ (ok ((device_of 12 ∷ []) ∷ [] ∷ []), 13)
unfolding allocate
allocated = refl

counting_ensures : AlwaysEnsures counting srl_plugin
counting_ensures id s = (s, suc s, refl)

allocate-done_example :
    (responses : List (List DeviceSpec)) × (t : ℕ) × (allocate counting srl_plugin
        ((bytes "srlM0" ∷ []) ∷ [])
        12
      ≡ (ok responses, t))
    × AnswersAll counting srl_plugin ((bytes "srlM0" ∷ []) ∷ []) responses
allocate-done_example =
    allocate-done counting srl_plugin counting_ensures ((bytes "srlM0" ∷ []) ∷ []) 12
