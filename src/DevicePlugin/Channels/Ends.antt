-- ===== src/DevicePlugin/Channels/Ends.antt =====
-- The exchange of the daemon and the lister never stops before all is delivered, and it ends.
use k8slan.Base.{
  ℕ, zero, suc, ◌+◌, ◌*◌, ◌≤◌, ◌≡◌, refl, ap, ◌⊎◌, inl, inr, List, [], ◌∷◌, length, length-append,
  arith,
}
use k8slan.Base.Text.{Text}
use k8slan.Lan.{LanSpec}
use k8slan.DevicePlugin.Lister.{
  DeviceList, Message, add, remove, handle, report, report_list, get_current_plugins,
}
use k8slan.DevicePlugin.Channels.{
  Exchange, start, Step, send_add, send_remove, take_add, take_remove, receive, Run, here, next,
  IsDone,
}

-- At most one list is being sent.
report_short : (d : DeviceList) → length (report d) ≤ 1
unfolding report get_current_plugins report_list
report_short d = short (get_current_plugins d)
  where
    short : (names : List Text) → length (report_list names) ≤ 1
    short [] = omega arith
    short (name ∷ names) = omega arith

-- A bound on the steps that are left: a message is sent and taken, and its report is received.
abbrev pub steps_left : Exchange → ℕ
steps_left s =
    3 * length s.to_send + 2 * (length s.add_chan + length s.remove_chan) + length s.reporting

measure_falls : {s t : Exchange} → Step s t → steps_left t + 1 ≤ steps_left s
measure_falls {s} (send_add lan rest e room) =
    omega (arith, ap length e, length-append s.add_chan (lan ∷ []))
measure_falls {s} (send_remove lan rest e room) =
    omega (arith, ap length e, length-append s.remove_chan (lan ∷ []))
measure_falls {s} (take_add lan rest e idle) =
    omega (arith, ap length e, ap length idle, report_short (handle (add lan) s.devices))
measure_falls {s} (take_remove lan rest e idle) =
    omega (arith, ap length e, ap length idle, report_short (handle (remove lan) s.devices))
measure_falls {s} (receive names rest e) = omega (arith, ap length e)

measure_spent : {s : Exchange} {n : ℕ} {t : Exchange} → Run s n t → n + steps_left t ≤ steps_left s
measure_spent here = omega arith
measure_spent (next r st) = omega (arith, measure_spent r, measure_falls st)

-- All is delivered and the last report was received.
abbrev pub IsEnded : Exchange → Type 0
IsEnded s = IsDone s × (s.reporting ≡ [])

-- The exchange has ended, or some step can be taken.
progress : (s : Exchange) → IsEnded s ⊎ ((t : Exchange) × Step s t)
progress s = reporting s.reporting refl
  where
    sending :
        (ms : List Message)
        → s.to_send ≡ ms
        → s.reporting ≡ []
        → s.add_chan ≡ []
        → s.remove_chan ≡ []
        → IsEnded s ⊎ ((t : Exchange) × Step s t)
    sending [] e idle a r = inl ((e, a, r), idle)
    sending (add lan ∷ rest) e idle a r = inr (_, send_add lan rest e (omega (arith, ap length a)))
    sending (remove lan ∷ rest) e idle a r =
        inr (_, send_remove lan rest e (omega (arith, ap length r)))

    removing :
        (c : List LanSpec)
        → s.remove_chan ≡ c
        → s.reporting ≡ []
        → s.add_chan ≡ []
        → IsEnded s ⊎ ((t : Exchange) × Step s t)
    removing [] r idle a = sending s.to_send refl idle a r
    removing (lan ∷ rest) e idle a = inr (_, take_remove lan rest e idle)

    taking :
        (c : List LanSpec)
        → s.add_chan ≡ c
        → s.reporting ≡ []
        → IsEnded s ⊎ ((t : Exchange) × Step s t)
    taking [] a idle = removing s.remove_chan refl idle a
    taking (lan ∷ rest) e idle = inr (_, take_add lan rest e idle)

    reporting :
        (lists : List (List Text)) → s.reporting ≡ lists → IsEnded s ⊎ ((t : Exchange) × Step s t)
    reporting [] idle = taking s.add_chan refl idle
    reporting (names ∷ rest) e = inr (_, receive names rest e)

-- If the plugin manager receives what is sent to it: a run of the daemon and the lister over their
-- channels has at most three steps for each message, and it never stops before all is delivered and
-- the last report was received: until then some step can be taken.
pub run_bound :
    (messages : List Message) (d : DeviceList) {n : ℕ} {s : Exchange}
    → Run (start messages d) n s
    → (n ≤ 3 * length messages) × (IsEnded s ⊎ ((t : Exchange) × Step s t))
run_bound messages d {n} {s} r = (omega (arith, measure_spent r), progress s)

extend :
    (k : ℕ) (messages : List Message) (d : DeviceList) {n : ℕ} {s : Exchange}
    → Run (start messages d) n s
    → steps_left s ≤ k
    → (m : ℕ) × (t : Exchange) × Run (start messages d) m t × IsEnded t
extend zero messages d {n} {s} r few = elim (progress s) [
  | inl done ↦ (n, s, r, done)
  | inr (t, st) ↦ absurd (omega (arith, measure_falls st))
]
extend (suc k) messages d {n} {s} r few = elim (progress s) [
  | inl done ↦ (n, s, r, done)
  | inr (t, st) ↦ extend k messages d (next r st) (omega (arith, measure_falls st))
]

-- There is a run that delivers all messages.
run_ends :
    (messages : List Message) (d : DeviceList)
    → (m : ℕ) × (t : Exchange) × Run (start messages d) m t × IsEnded t
run_ends messages d = extend (3 * length messages) messages d here (omega arith)
