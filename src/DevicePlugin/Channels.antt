-- ===== src/DevicePlugin/Channels.antt =====
-- The daemon and the lister over their two channels, which hold `chanDepth` LANs each
-- (dset/main.go, pkg/deviceplugin/lister.go). The daemon sends one message after the other, and a
-- send to a full channel waits. Each round of the lister ends with the send of `report`, which waits
-- for the plugin manager; the manager receives whenever something is sent to it.
pub mod Delivery
pub mod Ends
use k8slan.Base.{ℕ, ◌+◌, ◌<◌, ◌≡◌, List, [], ◌∷◌, ◌++◌, length}
use k8slan.Base.Text.{Text}
use k8slan.Lan.{LanSpec}
use k8slan.DevicePlugin.Lister.{DeviceList, Message, add, remove, handle, report}

abbrev pub chan_depth : ℕ
chan_depth = 16

-- What the daemon has still to send, what waits, what the lister has taken, and what it knows; and
-- the list, if any, that the lister is sending to the plugin manager.
pub record Exchange : Type 0 where
  pub to_send : List Message
  pub add_chan : List LanSpec
  pub remove_chan : List LanSpec
  pub handled : List Message
  pub devices : DeviceList
  pub reporting : List (List Text)

abbrev pub start : List Message → DeviceList → Exchange
start messages devices = record {
  to_send = messages;
  add_chan = [];
  remove_chan = [];
  handled = [];
  devices = devices;
  reporting = [];
}

pub data Step (s : Exchange) : Exchange → Type 0 where
  send_add :
      (lan : LanSpec) (rest : List Message)
      → s.to_send ≡ add lan ∷ rest
      → length s.add_chan < chan_depth
      → Step s (record s { to_send = rest; add_chan = s.add_chan ++ (lan ∷ []) })
  send_remove :
      (lan : LanSpec) (rest : List Message)
      → s.to_send ≡ remove lan ∷ rest
      → length s.remove_chan < chan_depth
      → Step s (record s { to_send = rest; remove_chan = s.remove_chan ++ (lan ∷ []) })
  take_add :
      (lan : LanSpec) (rest : List LanSpec)
      → s.add_chan ≡ lan ∷ rest
      → s.reporting ≡ []
      → Step s (record s {
        add_chan = rest;
        handled = s.handled ++ (add lan ∷ []);
        devices = handle (add lan) s.devices;
        reporting = report (handle (add lan) s.devices);
      })
  take_remove :
      (lan : LanSpec) (rest : List LanSpec)
      → s.remove_chan ≡ lan ∷ rest
      → s.reporting ≡ []
      → Step s (record s {
        remove_chan = rest;
        handled = s.handled ++ (remove lan ∷ []);
        devices = handle (remove lan) s.devices;
        reporting = report (handle (remove lan) s.devices);
      })
  -- The plugin manager receives the list.
  receive :
      (names : List Text) (rest : List (List Text))
      → s.reporting ≡ names ∷ rest
      → Step s (record s { reporting = rest })

-- A run, by the number of its steps
pub data Run (s : Exchange) : ℕ → Exchange → Type 0 where
  here : Run s 0 s
  next : {n : ℕ} {t u : Exchange} → Run s n t → Step t u → Run s (n + 1) u

abbrev pub IsDone : Exchange → Type 0
IsDone s = (s.to_send ≡ []) × (s.add_chan ≡ []) × (s.remove_chan ≡ [])
