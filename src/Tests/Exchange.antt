-- ===== src/Tests/Exchange.antt =====
-- The daemon and the lister at the README's LAN.
use k8slan.Base.{◌*◌, ◌≤◌, ◌≡◌, refl, ◌⊎◌, List, [], ◌∷◌, length, arith, list_eq, nat_eq}
use k8slan.DevicePlugin.Lister.{
  Message, add, discover, report, get_current_plugins, handle, add_lan,
}
use k8slan.DevicePlugin.Channels.{
  Exchange, start, Step, send_add, take_add, receive, Run, here, next,
}
use k8slan.DevicePlugin.Channels.Delivery.{adds, removes, IsKept, Run-IsKept, run_done}
use k8slan.DevicePlugin.Channels.Ends.{IsEnded, run_bound}
use k8slan.Lan.Names.{get_dp_resource_name}
use k8slan.Base.Dict.{insert}
use k8slan.Tests.Data.{lan_example}

abbrev messages : List Message
messages = add lan_example ∷ []

-- The list is with the plugin manager.
abbrev last : Exchange
last = record {
  to_send = [];
  add_chan = [];
  remove_chan = [];
  handled = messages;
  devices = (discover messages []).0;
  reporting = [];
}

delivered : Run (start messages []) 3 last
unfolding discover report get_current_plugins handle add_lan get_dp_resource_name insert list_eq
    nat_eq
delivered =
    next
      (next (next here (send_add lan_example [] refl (omega arith)))
        (take_add lan_example [] refl refl))
      (receive (get_current_plugins (discover messages []).0) [] refl)

Run-IsKept_example : IsKept messages [] last
Run-IsKept_example = Run-IsKept messages [] delivered

run_done_example :
    (adds messages ≡ adds messages)
    × (removes messages ≡ removes messages)
    × (last.devices ≡ (discover messages []).0)
run_done_example = run_done messages [] delivered (refl, refl, refl)

run_bound_example : (3 ≤ 3 * length messages) × (IsEnded last ⊎ ((t : Exchange) × Step last t))
run_bound_example = run_bound messages [] delivered
