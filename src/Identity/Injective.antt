-- ===== src/Identity/Injective.antt =====
-- Two sessions with one durable identity are one session: scripts/durable_recovery.py,
-- `durable_identity`. The lengths in front of the texts make it so, whatever the texts hold.
use Prim.Native.Char.{Char, code}
use Prim.Native.String.{◌++◌}
use package.text.Mathlib.TextLemmas.{
  cons-append, nil-append, append-nil, append_assoc, append_cancel_left, head-eq_of_cons-eq,
  tail-eq_of_cons-eq,
}
use moon_mqtt_client.Base.{
  ℕ, ◌+◌, ◌<◌, String, ◌≡◌, refl, ◌∙◌, sym, ap, length, length-append, Option, none, some, arith,
  false,
}
use moon_mqtt_client.Base.Text.{codes, utf8_char, utf8, encode}
use moon_mqtt_client.Request.{Protocol, mqtt311, mqtt5, Broker, Session}
use moon_mqtt_client.Identity.{decimal, sized, protocol_text, user_text, durable_identity}
use moon_mqtt_client.Identity.Digits.{is_digit, decimal-injective}

utf8_char-pos : (c : ℕ) → 0 < length (utf8_char c)
utf8_char-pos c = ground arith

length-encode :
    (c : Char) (s : String)
    → length (encode (String.◌∷◌ c s)) ≡ length (utf8_char (code c)) + length (encode s)
length-encode c s = length-append (utf8_char (code c)) (utf8 (codes s))

-- Texts of as many bytes in front of a text agree.
encode-prefix :
    (s s' t t' : String)
    → length (encode s) ≡ length (encode s')
    → s ++ t ≡ s' ++ t'
    → (s ≡ s') × (t ≡ t')
encode-prefix String.[] String.[] t t' h e = (refl, sym (nil-append t) ∙ e ∙ nil-append t')
encode-prefix String.[] (String.◌∷◌ d s') t t' h e =
    absurd (omega (arith, length-encode d s', utf8_char-pos (code d)))
encode-prefix (String.◌∷◌ c s) String.[] t t' h e =
    absurd (omega (arith, length-encode c s, utf8_char-pos (code c)))
encode-prefix (String.◌∷◌ c s) (String.◌∷◌ d s') t t' h e =
    let (same, rest) =
      encode-prefix s s' t t'
        (omega (
          arith,
          length-encode c s,
          length-encode d s',
          ap (λ x. length (utf8_char (code x))) (head-eq_of_cons-eq split),
        ))
        (tail-eq_of_cons-eq split) in
    (ap (λ x. String.◌∷◌ x s) (head-eq_of_cons-eq split) ∙ ap (String.◌∷◌ d) same, rest)
  where
    split : String.◌∷◌ c (s ++ t) ≡ String.◌∷◌ d (s' ++ t')
    split = sym (cons-append c s t) ∙ e ∙ cons-append d s' t'

sized-injective : (s s' t t' : String) → sized s ++ t ≡ sized s' ++ t' → (s ≡ s') × (t ≡ t')
unfolding sized
sized-injective s s' t t' e =
    let (lengths, rest) =
      decimal-injective (length (encode s)) (length (encode s')) ":" (s ++ t) (s' ++ t') refl
        (sym (shape s t) ∙ e ∙ shape s' t') in
    encode-prefix s s' t t' lengths rest
  where
    shape :
        (x y : String)
        → (decimal (length (encode x)) ++ (":" ++ x)) ++ y
          ≡ decimal (length (encode x)) ++ String.◌∷◌ ":" (x ++ y)
    shape x y =
        append_assoc (decimal (length (encode x))) (":" ++ x) y
        ∙ ap (λ z. decimal (length (encode x)) ++ z)
            (append_assoc ":" x y
              ∙ cons-append ":" "" (x ++ y)
              ∙ ap (String.◌∷◌ ":") (nil-append (x ++ y)))

-- A number, a separator that does not begin with a digit, and a rest.
field-injective :
    (n m : ℕ) (c : Char) (sep x y : String)
    → is_digit c ≡ false
    → decimal n ++ (String.◌∷◌ c sep ++ x) ≡ decimal m ++ (String.◌∷◌ c sep ++ y)
    → (n ≡ m) × (x ≡ y)
field-injective n m c sep x y h e =
    let (same, rest) = decimal-injective n m c (sep ++ x) (sep ++ y) h (
      ap (λ z. decimal n ++ z) (sym (cons-append c sep x))
      ∙ e
      ∙ ap (λ z. decimal m ++ z) (cons-append c sep y)) in
    (same, append_cancel_left sep x y rest)

user_text-injective : (a b : Option String) → user_text a ≡ user_text b → a ≡ b
user_text-injective none none e = refl
user_text-injective none (some s) e = absurd (
    omega (
      arith,
      ap code (head-eq_of_cons-eq {x = "n"} {xs = "one"} (e ∙ cons-append "s" "ome:" (sized s))),
    ))
user_text-injective (some s) none e = absurd (
    omega (
      arith,
      ap code
          (head-eq_of_cons-eq {y = "n"} {ys = "one"} (sym (cons-append "s" "ome:" (sized s)) ∙ e)),
    ))
user_text-injective (some s) (some t) e =
    ap some
      (sized-injective s t "" "" (
        append-nil (sized s)
        ∙ append_cancel_left "some:" (sized s) (sized t) e
        ∙ sym (append-nil (sized t)))).0

-- `311` and `5` are numbers.
version : Protocol → ℕ
version mqtt311 = 311
version mqtt5 = 5

protocol_text-decimal : (p : Protocol) → protocol_text p ≡ decimal (version p)
unfolding version decimal
protocol_text-decimal mqtt311 = refl
protocol_text-decimal mqtt5 = refl

version-injective : (p q : Protocol) → version p ≡ version q → p ≡ q
unfolding version
version-injective mqtt311 mqtt311 e = refl
version-injective mqtt311 mqtt5 e = absurd (omega (arith, e))
version-injective mqtt5 mqtt311 e = absurd (omega (arith, e))
version-injective mqtt5 mqtt5 e = refl

-- The parts that the identity is made of.
pub record IsSame (b b' : Broker) (s s' : Session) : Type 0 where
  pub protocol : b.protocol ≡ b'.protocol
  pub expiry : s.session_expiry_secs ≡ s'.session_expiry_secs
  pub host : b.host ≡ b'.host
  pub port : b.port ≡ b'.port
  pub client_id : s.client_id ≡ s'.client_id
  pub username : b.username ≡ b'.username

-- What follows the protocol in an identity.
abbrev after_protocol : Broker → Session → String
after_protocol b s =
    "|resume|"
    ++ (decimal s.session_expiry_secs
        ++ ("|mqtt|"
            ++ (sized b.host
                ++ ("|"
                    ++ (decimal b.port
                        ++ ("||" ++ (sized s.client_id ++ ("|" ++ user_text b.username))))))))

-- Two brokers and sessions with the same durable identity have the same protocol, expiry, host, port,
-- client ID and user name, whatever characters those hold.
pub durable_identity-injective :
    (b b' : Broker) (s s' : Session)
    → durable_identity b s ≡ durable_identity b' s'
    → IsSame b b' s s'
unfolding durable_identity
durable_identity-injective b b' s s' e =
    let e0 = append_cancel_left "moon-mqtt-durable-v2|" _ _ e in
    let e1 = field-injective (version b.protocol) (version b'.protocol) "|" "resume|" _ _ refl (
      ap (λ z. z ++ after_protocol b s) (sym (protocol_text-decimal b.protocol))
      ∙ e0
      ∙ ap (λ z. z ++ after_protocol b' s') (protocol_text-decimal b'.protocol)) in
    let e2 =
      field-injective s.session_expiry_secs s'.session_expiry_secs "|" "mqtt|" _ _ refl e1.1 in
    let e3 = sized-injective b.host b'.host _ _ e2.1 in
    let e4 = field-injective b.port b'.port "|" "|" _ _ refl (append_cancel_left "|" _ _ e3.1) in
    let e5 = sized-injective s.client_id s'.client_id _ _ e4.1 in
    record {
      protocol = version-injective b.protocol b'.protocol e1.0;
      expiry = e2.0;
      host = e3.0;
      port = e4.0;
      client_id = e5.0;
      username = user_text-injective b.username b'.username (append_cancel_left "|" _ _ e5.1);
    }
