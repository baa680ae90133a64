-- ===== src/Identity.antt =====
-- The identity of a durable session: scripts/durable_recovery.py, `durable_identity`.
pub mod Digits
pub mod Injective
use Prim.Native.Char.{Char}
use Prim.Native.String.{◌++◌}
use moon_mqtt_client.Base.{
  ℕ, zero, suc, ◌/◌, ◌%◌, String, Option, none, some, ltb, ◌==◌, length, if◌then◌else◌,
}
use moon_mqtt_client.Base.Text.{encode}
use moon_mqtt_client.Request.{Protocol, mqtt311, mqtt5, Broker, Session}

-- The decimal digit of a number below 10.
abbrev pub digit : ℕ → Char
digit n =
    if n == 0
    then "0"
    else if n == 1
    then "1"
    else if n == 2
    then "2"
    else if n == 3
    then "3"
    else if n == 4
    then "4"
    else if n == 5
    then "5"
    else if n == 6
    then "6"
    else if n == 7
    then "7"
    else if n == 8
    then "8"
    else "9"

-- The digits of `n` in front of `acc`. More digits than the fuel are never needed.
unfoldable pub digits : ℕ → ℕ → String → String
digits zero n acc = acc
digits (suc fuel) n acc =
    let rest = digits fuel (n / 10) (String.◌∷◌ (digit (n % 10)) acc) in
    if ltb n 10 then String.◌∷◌ (digit n) acc else rest

-- `str(n)`
unfoldable pub decimal : ℕ → String
unfolding digits
decimal n = digits (suc n) n ""

-- `f"{len(s.encode())}:{s}"`
unfoldable pub sized : String → String
unfolding decimal
sized s = decimal (length (encode s)) ++ (":" ++ s)

abbrev pub protocol_text : Protocol → String
protocol_text mqtt311 = "311"
protocol_text mqtt5 = "5"

abbrev pub user_text : Option String → String
user_text none = "none"
user_text (some username) = "some:" ++ sized username

unfoldable pub durable_identity : Broker → Session → String
unfolding sized
durable_identity broker session =
    "moon-mqtt-durable-v2|"
    ++ (protocol_text broker.protocol
        ++ ("|resume|"
            ++ (decimal session.session_expiry_secs
                ++ ("|mqtt|"
                    ++ (sized broker.host
                        ++ ("|"
                            ++ (decimal broker.port
                                ++ ("||"
                                    ++ (sized session.client_id
                                        ++ ("|" ++ user_text broker.username))))))))))
