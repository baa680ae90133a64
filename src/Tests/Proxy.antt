-- ===== src/Tests/Proxy.antt =====
-- Runs of the proxy of examples/mqtt_demo/demo.py on concrete packets.
use moon_mqtt_client.Base.{
  List, arith, true, false, ◌≡◌, refl, [], ◌∷◌, ◌++◌, none, if◌then◌else◌, ◌==◌,
}
use moon_mqtt_client.Demo.Proxy.{Line, Relay, length_loop, packet_end, forward, drain, receive}
use moon_mqtt_client.Demo.Proxy.Chunks.{receive-append, receive-packet_end}
use moon_mqtt_client.Demo.Proxy.Packets.{Packet, length_bytes}
use moon_mqtt_client.Demo.Proxy.Refined.{Link, TakesAll, Shows, Keeps, receive-TakesAll}
use moon_mqtt_client.Demo.Proxy.Transparent.{stream, receive-stream}

-- The proxy is armed from its second packet on.
abbrev armed_line : Line
armed_line = record { armed = λ n. if n == 0 then false else true; sends = λ n. true }

abbrev quiet_line : Line
quiet_line = record { armed = λ n. false; sends = λ n. true }

abbrev start : Relay
start = record { buffer = []; sent = []; packets = 0; dropped = false; is_open = true }

-- A PUBACK and the first bytes of another.
two_pubacks : (receive armed_line (64 ∷ 2 ∷ 0 ∷ 1 ∷ 64 ∷ 2 ∷ 0 ∷ []) start).buffer ≡ 64 ∷ 2 ∷ 0 ∷ []
unfolding receive drain forward packet_end length_loop
two_pubacks = refl

-- The rest of the second one arrives, and it is dropped.
second_dropped :
    receive armed_line (2 ∷ []) (receive armed_line (64 ∷ 2 ∷ 0 ∷ 1 ∷ 64 ∷ 2 ∷ 0 ∷ []) start)
    ≡ record {
      buffer = [];
      sent = 64 ∷ 2 ∷ 0 ∷ 1 ∷ [];
      packets = 1;
      dropped = true;
      is_open = false;
    }
unfolding receive drain forward packet_end length_loop
second_dropped = refl

receive-append_example :
    receive armed_line ((64 ∷ 2 ∷ 0 ∷ []) ++ (1 ∷ 64 ∷ 2 ∷ 0 ∷ 2 ∷ [])) start
    ≡ receive armed_line (1 ∷ 64 ∷ 2 ∷ 0 ∷ 2 ∷ []) (receive armed_line (64 ∷ 2 ∷ 0 ∷ []) start)
receive-append_example = receive-append armed_line 64 (2 ∷ 0 ∷ []) 1 (64 ∷ 2 ∷ 0 ∷ 2 ∷ []) start

-- A whole packet and the first bytes of the next one.
still_runs : (receive quiet_line (144 ∷ 2 ∷ 0 ∷ 1 ∷ 64 ∷ 2 ∷ []) start).is_open ≡ true
unfolding receive drain forward packet_end length_loop
still_runs = refl

receive-packet_end_example :
    packet_end (receive quiet_line (144 ∷ 2 ∷ 0 ∷ 1 ∷ 64 ∷ 2 ∷ []) start).buffer ≡ none
receive-packet_end_example =
    receive-packet_end quiet_line (144 ∷ 2 ∷ 0 ∷ 1 ∷ 64 ∷ 2 ∷ []) start still_runs

receive-stream_example :
    (stream (receive quiet_line (64 ∷ 2 ∷ 0 ∷ 1 ∷ 64 ∷ []) start)
      ≡ stream start ++ (64 ∷ 2 ∷ 0 ∷ 1 ∷ 64 ∷ []))
    × ((receive quiet_line (64 ∷ 2 ∷ 0 ∷ 1 ∷ 64 ∷ []) start).is_open ≡ true)
receive-stream_example =
    receive-stream quiet_line 64 (2 ∷ 0 ∷ 1 ∷ 64 ∷ []) start (λ n. refl) (λ n. refl) refl

-- A SUBACK, a PUBACK while the proxy is armed, and one byte more.
abbrev up_link : Link
up_link = record { handed = []; packets = 0; lost = false; is_up = true }

abbrev broker_packets : List Packet
broker_packets =
    record { header = 144; body = 0 ∷ 1 ∷ 0 ∷ [] } ∷ record { header = 64; body = 0 ∷ 1 ∷ [] } ∷ []

receive-TakesAll_example :
    (link' : Link) × TakesAll armed_line up_link broker_packets link'
    × Shows (receive armed_line (144 ∷ 3 ∷ 0 ∷ 1 ∷ 0 ∷ 64 ∷ 2 ∷ 0 ∷ 1 ∷ 48 ∷ []) start) link'
    × Keeps link'
        (48 ∷ [])
        (receive armed_line (144 ∷ 3 ∷ 0 ∷ 1 ∷ 0 ∷ 64 ∷ 2 ∷ 0 ∷ 1 ∷ 48 ∷ []) start)
unfolding packet_end length_loop length_bytes
receive-TakesAll_example =
    receive-TakesAll armed_line 144 (3 ∷ 0 ∷ 1 ∷ 0 ∷ 64 ∷ 2 ∷ 0 ∷ 1 ∷ 48 ∷ []) broker_packets
      (48 ∷ []) up_link start (omega arith, (omega arith, tt)) refl
      (record { sent_eq = refl; packets_eq = refl; dropped_eq = refl; open_eq = refl }) refl
