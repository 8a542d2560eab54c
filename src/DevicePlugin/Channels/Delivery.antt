-- ===== src/DevicePlugin/Channels/Delivery.antt =====
-- Nothing is lost on the channels, and each keeps its order.
use mathlib.Core.List.{append_assoc, append-nil}
use k8slan.Base.{
  ℕ, ◌+◌, ◌≤◌, ◌<◌, ◌≡◌, refl, sym, ap, ◌∙◌, List, [], ◌∷◌, ◌++◌, length, length-append, arith,
}
use k8slan.Lan.{LanSpec}
use k8slan.DevicePlugin.Lister.{DeviceList, Message, add, remove, handle, discover}
use k8slan.DevicePlugin.Channels.{
  chan_depth, Exchange, start, Step, send_add, send_remove, take_add, take_remove, receive, Run,
  here, next, IsDone,
}

-- The LANs that are added, and those that are removed, in order
abbrev pub adds : List Message → List LanSpec
adds [] = []
adds (add lan ∷ ms) = lan ∷ adds ms
adds (remove lan ∷ ms) = adds ms

abbrev pub removes : List Message → List LanSpec
removes [] = []
removes (add lan ∷ ms) = removes ms
removes (remove lan ∷ ms) = lan ∷ removes ms

adds-append : (ms ns : List Message) → adds (ms ++ ns) ≡ adds ms ++ adds ns
adds-append [] ns = refl
adds-append (add lan ∷ ms) ns = ap (λ l. lan ∷ l) (adds-append ms ns)
adds-append (remove lan ∷ ms) ns = adds-append ms ns

removes-append : (ms ns : List Message) → removes (ms ++ ns) ≡ removes ms ++ removes ns
removes-append [] ns = refl
removes-append (remove lan ∷ ms) ns = ap (λ l. lan ∷ l) (removes-append ms ns)
removes-append (add lan ∷ ms) ns = removes-append ms ns

discover-append :
    (ms : List Message) (m : Message) (d : DeviceList)
    → (discover (ms ++ (m ∷ [])) d).0 ≡ handle m (discover ms d).0
unfolding discover
discover-append [] m d = refl
discover-append (k ∷ ms) m d = discover-append ms m (handle k d)

-- What holds at every moment, for these messages and this list at the start
pub record IsKept (messages : List Message) (d : DeviceList) (s : Exchange) : Type 0 where
  pub all_adds : adds s.handled ++ (s.add_chan ++ adds s.to_send) ≡ adds messages
  pub all_removes : removes s.handled ++ (s.remove_chan ++ removes s.to_send) ≡ removes messages
  pub add_fits : length s.add_chan ≤ chan_depth
  pub remove_fits : length s.remove_chan ≤ chan_depth
  pub known : s.devices ≡ (discover s.handled d).0

-- A LAN that is sent goes to the end of what waits.
sent_on :
    (handled waiting : List LanSpec) (lan : LanSpec) (rest all : List LanSpec)
    → all ≡ lan ∷ rest
    → handled ++ ((waiting ++ (lan ∷ [])) ++ rest) ≡ handled ++ (waiting ++ all)
sent_on handled waiting lan rest all e =
    ap (λ l. handled ++ l) (append_assoc waiting (lan ∷ []) rest ∙ ap (λ l. waiting ++ l) (sym e))

-- A LAN that is taken comes from the front.
taken_on :
    (handled waiting : List LanSpec) (lan : LanSpec) (rest all : List LanSpec)
    → waiting ≡ lan ∷ rest
    → (handled ++ (lan ∷ [])) ++ (rest ++ all) ≡ handled ++ (waiting ++ all)
taken_on handled waiting lan rest all e =
    append_assoc handled (lan ∷ []) (rest ++ all) ∙ ap (λ l. handled ++ (l ++ all)) (sym e)

nothing_left : (waiting all : List LanSpec) → waiting ≡ [] → all ≡ [] → waiting ++ all ≡ []
nothing_left waiting all e e' = ap (λ l. waiting ++ l) e' ∙ ap (λ l. l ++ []) e

fits_after :
    (waiting : List LanSpec) (lan : LanSpec)
    → length waiting < chan_depth
    → length (waiting ++ (lan ∷ [])) ≤ chan_depth
fits_after waiting lan room = omega (arith, length-append waiting (lan ∷ []))

fits_before :
    (waiting : List LanSpec) (lan : LanSpec) (rest : List LanSpec)
    → waiting ≡ lan ∷ rest
    → length waiting ≤ chan_depth
    → length rest ≤ chan_depth
fits_before waiting lan rest e fits =
    let longer : length waiting ≡ length rest + 1 = ap length e ∙ omega arith in
    omega (arith, longer)

module _ (messages : List Message) (d : DeviceList) where
  Step-IsKept : {s t : Exchange} → IsKept messages d s → Step s t → IsKept messages d t
  Step-IsKept {s} k (send_add lan rest e room) = record {
    all_adds = sent_on (adds s.handled) s.add_chan lan (adds rest) _ (ap adds e) ∙ k.all_adds;
    all_removes =
        ap (λ l. removes s.handled ++ (s.remove_chan ++ l)) (sym (ap removes e)) ∙ k.all_removes;
    add_fits = fits_after s.add_chan lan room;
    remove_fits = k.remove_fits;
    known = k.known;
  }
  Step-IsKept {s} k (send_remove lan rest e room) = record {
    all_adds = ap (λ l. adds s.handled ++ (s.add_chan ++ l)) (sym (ap adds e)) ∙ k.all_adds;
    all_removes =
        sent_on (removes s.handled) s.remove_chan lan (removes rest) _ (ap removes e)
        ∙ k.all_removes;
    add_fits = k.add_fits;
    remove_fits = fits_after s.remove_chan lan room;
    known = k.known;
  }
  Step-IsKept {s} k (take_add lan rest e idle) = record {
    all_adds =
        ap (λ l. l ++ (rest ++ adds s.to_send)) (adds-append s.handled (add lan ∷ []))
        ∙ taken_on (adds s.handled) s.add_chan lan rest (adds s.to_send) e
        ∙ k.all_adds;
    all_removes =
        ap (λ l. l ++ (s.remove_chan ++ removes s.to_send))
          (removes-append s.handled (add lan ∷ []) ∙ append-nil (removes s.handled))
        ∙ k.all_removes;
    add_fits = fits_before s.add_chan lan rest e k.add_fits;
    remove_fits = k.remove_fits;
    known = ap (handle (add lan)) k.known ∙ sym (discover-append s.handled (add lan) d);
  }
  Step-IsKept {s} k (take_remove lan rest e idle) = record {
    all_adds =
        ap (λ l. l ++ (s.add_chan ++ adds s.to_send))
          (adds-append s.handled (remove lan ∷ []) ∙ append-nil (adds s.handled))
        ∙ k.all_adds;
    all_removes =
        ap (λ l. l ++ (rest ++ removes s.to_send)) (removes-append s.handled (remove lan ∷ []))
        ∙ taken_on (removes s.handled) s.remove_chan lan rest (removes s.to_send) e
        ∙ k.all_removes;
    add_fits = k.add_fits;
    remove_fits = fits_before s.remove_chan lan rest e k.remove_fits;
    known = ap (handle (remove lan)) k.known ∙ sym (discover-append s.handled (remove lan) d);
  }
  Step-IsKept k (receive names rest e) = record {
    all_adds = k.all_adds;
    all_removes = k.all_removes;
    add_fits = k.add_fits;
    remove_fits = k.remove_fits;
    known = k.known;
  }

  -- At every moment what the lister has taken, what waits on the two channels and what is still to
  -- be sent make up the messages, each kind in its order; no channel holds more than 16 LANs; and
  -- the lister knows what `Discover` makes of the messages taken.
  pub Run-IsKept : {n : ℕ} {s : Exchange} → Run (start messages d) n s → IsKept messages d s
  unfolding discover
  Run-IsKept here = record {
    all_adds = refl;
    all_removes = refl;
    add_fits = omega arith;
    remove_fits = omega arith;
    known = refl;
  }
  Run-IsKept (next r st) = Step-IsKept (Run-IsKept r) st

  -- Every run of the daemon and the lister over their two bounded channels that has delivered all
  -- messages leaves the lister as `Discover` leaves it that takes one merge of the messages, in
  -- which the additions keep their order and the removals keep theirs.
  pub run_done :
      {n : ℕ} {s : Exchange}
      → Run (start messages d) n s
      → IsDone s
      → (adds s.handled ≡ adds messages)
        × (removes s.handled ≡ removes messages)
        × (s.devices ≡ (discover s.handled d).0)
  run_done {s = s} r (sent, no_add, no_remove) =
      let k = Run-IsKept r in
      (
        sym (append-nil (adds s.handled))
            ∙ ap (λ l. adds s.handled ++ l) (sym (nothing_left s.add_chan _ no_add (ap adds sent)))
            ∙ k.all_adds,
        sym (append-nil (removes s.handled))
            ∙ ap (λ l. removes s.handled ++ l)
                (sym (nothing_left s.remove_chan _ no_remove (ap removes sent)))
            ∙ k.all_removes,
        k.known,
      )
