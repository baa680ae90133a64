-- ===== src/Demo/Proxy/Chunks.antt =====
-- How `recv` cuts the broker's bytes into chunks does not matter to the proxy of
-- examples/mqtt_demo/demo.py.
use moon_mqtt_client.Base.{
  ℕ, zero, suc, ◌+◌, ◌≤◌, true, ◌≡◌, ◌∙◌, sym, ap, List, [], ◌∷◌, ◌++◌, none, length, length-append,
  arith, Option-cases, Bool-cases, inl, inr,
}
use mathlib.Core.List.{append_assoc}
use moon_mqtt_client.Demo.Proxy.{Line, Relay, packet_end, forward, drain, receive}
use moon_mqtt_client.Demo.Proxy.Drain.{
  shorter, drain-more, length-zero, drain-zero, drain-some, more, resume_enough, receive_closed,
  emptied, length-drain, receive-resume, packet_end-empty, drain-none, receive_open,
}

module _ (line : Line) where
  -- Fuel that is the length of the buffer leads to the end of the loop.
  drain-packet_end :
      (fuel : ℕ) (relay : Relay)
      → length relay.buffer ≤ fuel
      → packet_end (drain line fuel relay).buffer ≡ none
  drain-packet_end zero relay h =
      rw (drain-zero line relay) (packet_end-empty relay.buffer (length-zero relay.buffer h))
  drain-packet_end (suc fuel) relay h = elim (Option-cases (packet_end relay.buffer)) [
    | inl e ↦ rw (drain-none line fuel relay e) e
    | inr (end, e) ↦
        rw (drain-some line fuel end relay e)
          (drain-packet_end fuel (forward line end relay) (shorter line end fuel relay e h))
  ]

-- Bytes that arrive in two chunks, where neither is empty, leave the proxy as if they had come in one:
-- what was forwarded, what is kept, whether an acknowledgement was dropped and whether the thread goes
-- on do not depend on how the stream is cut.
pub receive-append :
    (line : Line) (x : ℕ) (xs : List ℕ) (y : ℕ) (ys : List ℕ) (relay : Relay)
    → receive line ((x ∷ xs) ++ (y ∷ ys)) relay
      ≡ receive line (y ∷ ys) (receive line (x ∷ xs) relay)
receive-append line x xs y ys relay = elim (Bool-cases relay.is_open) [
  | inl e ↦
      let first = more (x ∷ xs) relay in
      let t = drain line (length first.buffer) first in
      let total = length (relay.buffer ++ ((x ∷ xs) ++ (y ∷ ys))) in
      let room : length first.buffer + length (y ∷ ys) ≤ total = omega (
        arith,
        length-append relay.buffer (x ∷ xs),
        length-append (x ∷ xs) (y ∷ ys),
        length-append relay.buffer ((x ∷ xs) ++ (y ∷ ys)),
      ) in
      receive_open line x (xs ++ (y ∷ ys)) relay e
      ∙ ap (λ b. drain line total (record relay { buffer = b }))
          (sym (append_assoc relay.buffer (x ∷ xs) (y ∷ ys)))
      ∙ drain-more line (length first.buffer) total first (y ∷ ys) e (omega arith) room
      ∙ resume_enough line total (length t.buffer + length (y ∷ ys)) (y ∷ ys) t
          (omega (arith, room, length-drain line (length first.buffer) first)) (omega arith)
      ∙ sym (receive-resume line y ys t)
      ∙ ap (receive line (y ∷ ys)) (sym (receive_open line x xs relay e))
  | inr e ↦
      receive_closed line ((x ∷ xs) ++ (y ∷ ys)) relay e
      ∙ sym (
          ap (receive line (y ∷ ys)) (receive_closed line (x ∷ xs) relay e)
          ∙ receive_closed line (y ∷ ys) relay e)
]

-- Whatever `recv` returns, the inner loop ends: if the thread still runs after the round, no whole packet
-- is left in its buffer.
pub receive-packet_end :
    (line : Line) (chunk : List ℕ) (relay : Relay)
    → (receive line chunk relay).is_open ≡ true
    → packet_end (receive line chunk relay).buffer ≡ none
receive-packet_end line chunk relay runs = elim (Bool-cases relay.is_open) [
  | inl e ↦ received chunk e
  | inr e ↦
      absurd
        (ground (arith, e, ap (λ (r : Relay). r.is_open) (receive_closed line chunk relay e), runs))
]
  where
    received :
        (chunk : List ℕ)
        → relay.is_open ≡ true
        → packet_end (receive line chunk relay).buffer ≡ none
    received [] e = packet_end-empty _ (emptied line relay e)
    received (byte ∷ chunk) e = rw (receive_open line byte chunk relay e) (
        drain-packet_end line (length (relay.buffer ++ (byte ∷ chunk))) (more (byte ∷ chunk) relay)
          (omega arith))
