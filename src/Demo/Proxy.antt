-- ===== src/Demo/Proxy.antt =====
-- The proxy that loses one acknowledgement: examples/mqtt_demo/demo.py, `DropPubackProxy`. It is the
-- direction from the broker to the client; a byte is a number. What other threads and the sockets decide
-- is in `Line`, by the number of packets that were handled before.
pub mod Framing
pub mod Drain
pub mod Chunks
pub mod Transparent
pub mod Packets
pub mod Refined
use moon_mqtt_client.Base.{
  ℕ, zero, suc, ◌+◌, ◌*◌, ◌/◌, ◌%◌, Bool, true, false, not, ◌&&◌, Option, none, some, List, [], ◌∷◌,
  ◌++◌, ltb, leb, ◌==◌, length, take, drop, if◌then◌else◌,
}

-- `armed` when packet `n` is tested, and whether `sendall` of packet `n` works. Bytes of a packet whose
-- `sendall` fails do not count as sent.
pub record Line : Type 0 where
  pub armed : ℕ → Bool
  pub sends : ℕ → Bool

-- The thread of `_copy`: its local variable `buf`, what the client has been sent, and whether the thread
-- still runs, with its sockets open. A thread that has returned has no `buf` any more, whatever was in it;
-- the field is then empty.
pub record Relay : Type 0 where
  pub buffer : List ℕ
  pub sent : List ℕ
  pub packets : ℕ
  pub dropped : Bool
  pub is_open : Bool

-- The loop of `_packet_end`, over `buf[pos:]`, with `len(buf)` for `size`.
unfoldable pub length_loop : ℕ → List ℕ → ℕ → ℕ → ℕ → Option ℕ
length_loop size [] pos remaining multiplier = none
length_loop size (digit ∷ rest) pos remaining multiplier =
    let total = remaining + (digit % 128) * multiplier in
    let more = length_loop size rest (pos + 1) total (multiplier * 128) in
    if ltb digit 128
    then if leb (pos + 1 + total) size then some (pos + 1 + total) else none
    else more

-- _packet_end(buf)
unfoldable pub packet_end : List ℕ → Option ℕ
unfolding length_loop
packet_end [] = none
packet_end (header ∷ rest) = length_loop (length (header ∷ rest)) rest 1 0 1

-- `packet[0] >> 4 == 4`
abbrev pub is_puback : List ℕ → Bool
is_puback [] = false
is_puback (header ∷ rest) = header / 16 == 4

-- `return` and the `finally` block: the thread ends with its local variables, and the sockets are closed.
abbrev pub finish : Relay → Relay
finish relay = record relay { buffer = []; is_open = false }

module _ (line : Line) where
  -- The body of the inner loop, for a packet that ends at `end`.
  unfoldable pub forward : ℕ → Relay → Relay
  forward end relay =
      let packet = take end relay.buffer in
      if is_puback packet && (line.armed relay.packets && not relay.dropped)
      then record (finish relay) { dropped = true }
      else if line.sends relay.packets
      then record relay {
        buffer = drop end relay.buffer;
        sent = relay.sent ++ packet;
        packets = suc relay.packets;
      }
      else finish relay

  -- The inner loop. A round takes a byte at least, so the length of the buffer is fuel enough. After
  -- `finish` there is nothing to go on with, which is how the `return` leaves the loop.
  unfoldable pub drain : ℕ → Relay → Relay
  unfolding forward packet_end
  drain zero relay = relay
  drain (suc fuel) relay = elim (packet_end relay.buffer) [
    | none ↦ relay
    | some end ↦ drain fuel (forward end relay)
  ]

  -- A round of the outer loop, with what `recv` has returned. An `OSError` of `recv` and a `stop_event`
  -- that is set end the thread as the empty chunk does.
  unfoldable pub receive : List ℕ → Relay → Relay
  unfolding drain
  receive [] relay = if relay.is_open then finish relay else relay
  receive (byte ∷ chunk) relay =
      let buffer = relay.buffer ++ (byte ∷ chunk) in
      if relay.is_open then drain (length buffer) (record relay { buffer = buffer }) else relay
