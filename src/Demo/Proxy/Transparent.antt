-- ===== src/Demo/Proxy/Transparent.antt =====
-- What the proxy of examples/mqtt_demo/demo.py forwards while it is not armed.
use moon_mqtt_client.Base.{
  ℕ, zero, suc, Bool, true, false, ◌&&◌, not, ◌≡◌, refl, ◌∙◌, sym, ap, List, ◌∷◌, ◌++◌, take, drop,
  take-drop, length, Option-cases, inl, inr, arith,
}
use mathlib.Core.List.{append_assoc}
use moon_mqtt_client.Demo.Proxy.{Line, Relay, packet_end, is_puback, forward, drain, receive}
use moon_mqtt_client.Demo.Proxy.Drain.{more, receive_open}

-- What has been received and not been lost.
abbrev pub stream : Relay → List ℕ
stream relay = relay.sent ++ relay.buffer

module _ (line : Line) (quiet : (n : ℕ) → line.armed n ≡ false)
    (sends : (n : ℕ) → line.sends n ≡ true) where
  unarmed : (b c : Bool) (n : ℕ) → (b && (line.armed n && c)) ≡ false
  unarmed b c n = rw (quiet n) (ground arith)

  stream-forward : (end : ℕ) (relay : Relay) → stream (forward line end relay) ≡ stream relay
  unfolding forward
  stream-forward end relay =
      rw
        (
          unarmed (is_puback (take end relay.buffer)) (not relay.dropped) relay.packets,
          sends relay.packets,
        )
        (append_assoc relay.sent (take end relay.buffer) (drop end relay.buffer)
          ∙ ap (λ l. relay.sent ++ l) (take-drop end relay.buffer))

  open-forward : (end : ℕ) (relay : Relay) → (forward line end relay).is_open ≡ relay.is_open
  unfolding forward
  open-forward end relay =
      rw
        (
          unarmed (is_puback (take end relay.buffer)) (not relay.dropped) relay.packets,
          sends relay.packets,
        )
        refl

  abbrev Kept : Relay → Relay → Type 0
  Kept relay relay' = (stream relay' ≡ stream relay) × (relay'.is_open ≡ relay.is_open)

  drain-Kept : (fuel : ℕ) (relay : Relay) → Kept relay (drain line fuel relay)
  unfolding drain
  drain-Kept zero relay = (refl, refl)
  drain-Kept (suc fuel) relay = elim (Option-cases (packet_end relay.buffer)) [
    | inl e ↦ rw (e, drain) (refl, refl)
    | inr (end, e) ↦
        let (same, still) = drain-Kept fuel (forward line end relay) in
        rw (e, drain) (same ∙ stream-forward end relay, still ∙ open-forward end relay)
  ]

  received :
      (byte : ℕ) (chunk : List ℕ) (relay : Relay)
      → relay.is_open ≡ true
      → (stream (receive line (byte ∷ chunk) relay) ≡ stream relay ++ (byte ∷ chunk))
        × ((receive line (byte ∷ chunk) relay).is_open ≡ true)
  received byte chunk relay h =
      let extended = more (byte ∷ chunk) relay in
      let (same, still) = drain-Kept (length extended.buffer) extended in
      rw (receive_open line byte chunk relay h)
        (same ∙ sym (append_assoc relay.sent relay.buffer (byte ∷ chunk)), still ∙ h)

-- As long as the proxy is not armed and the client takes what is sent, nothing is lost, added or
-- reordered: what was sent and what is kept are together what they were before and the new bytes, and
-- the thread goes on.
pub receive-stream :
    (line : Line) (byte : ℕ) (chunk : List ℕ) (relay : Relay)
    → ((n : ℕ) → line.armed n ≡ false)
    → ((n : ℕ) → line.sends n ≡ true)
    → relay.is_open ≡ true
    → (stream (receive line (byte ∷ chunk) relay) ≡ stream relay ++ (byte ∷ chunk))
      × ((receive line (byte ∷ chunk) relay).is_open ≡ true)
receive-stream line byte chunk relay quiet sends h = received line quiet sends byte chunk relay h
