-- ===== src/Demo/Proxy/Refined.antt =====
-- What the proxy of examples/mqtt_demo/demo.py does to whole packets, as steps of an abstract link, and
-- that `_copy` on the bytes takes those steps.
use moon_mqtt_client.Base.{
  ℕ, zero, suc, ◌≤◌, ◌/◌, ◌==◌, Bool, true, false, not, ◌&&◌, ◌≡◌, refl, ◌∙◌, sym, ap, ◌⊎◌, List,
  [], ◌∷◌, ◌++◌, none, length, length-append, take, drop, arith, Bool-cases, inl, inr, if_true,
  if_false, if◌then◌else◌,
}
use mathlib.Core.List.{append_assoc, append-nil}
use moon_mqtt_client.Demo.Proxy.{Line, Relay, is_puback, packet_end, forward, drain, receive}
use moon_mqtt_client.Demo.Proxy.Drain.{
  more, drain-zero, drain-none, drain-some, drain-closed, receive_open, receive_closed,
}
use moon_mqtt_client.Demo.Proxy.Packets.{Packet, Fits, print, print_all, packet_end-print}

-- A link that hands on whole packets: those that the client has, and whether one was lost.
pub record Link : Type 0 where
  pub handed : List Packet
  pub packets : ℕ
  pub lost : Bool
  pub is_up : Bool

-- The next packet is an acknowledgement, the link is armed, and none was lost before.
abbrev pub is_victim : Line → Link → Packet → Bool
is_victim line link p = p.header / 16 == 4 && (line.armed link.packets && not link.lost)

-- A step of the link, for a packet of the broker.
pub data Takes (line : Line) : Link → Packet → Link → Type 0 where
  hands_on :
      (link : Link) (p : Packet)
      → link.is_up ≡ true
      → is_victim line link p ≡ false
      → line.sends link.packets ≡ true
      → Takes line link p
          (record link { handed = link.handed ++ (p ∷ []); packets = suc link.packets })
  loses :
      (link : Link) (p : Packet)
      → link.is_up ≡ true
      → is_victim line link p ≡ true
      → Takes line link p (record link { lost = true; is_up = false })
  breaks :
      (link : Link) (p : Packet)
      → link.is_up ≡ true
      → is_victim line link p ≡ false
      → line.sends link.packets ≡ false
      → Takes line link p (record link { is_up = false })
  ignores : (link : Link) (p : Packet) → link.is_up ≡ false → Takes line link p link

-- The steps for a list of packets.
pub data TakesAll (line : Line) : Link → List Packet → Link → Type 0 where
  done : (link : Link) → TakesAll line link [] link
  next :
      (link mid link' : Link) (p : Packet) (ps : List Packet)
      → Takes line link p mid
      → TakesAll line mid ps link'
      → TakesAll line link (p ∷ ps) link'

-- The thread's variables show the link.
pub record Shows (relay : Relay) (link : Link) : Type 0 where
  pub sent_eq : relay.sent ≡ print_all link.handed
  pub packets_eq : relay.packets ≡ link.packets
  pub dropped_eq : relay.dropped ≡ link.lost
  pub open_eq : relay.is_open ≡ link.is_up

-- The link is down, or the bytes that are not yet a packet are in the buffer.
abbrev pub Keeps : Link → List ℕ → Relay → Type 0
Keeps link rest relay = (link.is_up ≡ false) ⊎ (relay.buffer ≡ rest)

abbrev pub AllFit : List Packet → Type 0
AllFit [] = Unit
AllFit (p ∷ ps) = Fits p × AllFit ps

print_all-snoc :
    (ps : List Packet) (p : Packet) → print_all (ps ++ (p ∷ [])) ≡ print_all ps ++ print p
print_all-snoc [] p = append-nil (print p)
print_all-snoc (q ∷ ps) p =
    ap (λ l. print q ++ l) (print_all-snoc ps p)
    ∙ sym (append_assoc (print q) (print_all ps) (print p))

take_all {ℓ} : {A : Type ℓ} (xs ys : List A) → take (length xs) (xs ++ ys) ≡ xs
take_all [] ys = refl
take_all (x ∷ xs) ys = ap (λ l. x ∷ l) (take_all xs ys)

drop_all {ℓ} : {A : Type ℓ} (xs ys : List A) → drop (length xs) (xs ++ ys) ≡ ys
drop_all [] ys = refl
drop_all (x ∷ xs) ys = drop_all xs ys

module _ (line : Line) where
  -- Where the loop ends.
  record Ends (ps : List Packet) (rest : List ℕ) (link : Link) (relay : Relay) : Type 0 where
    link' : Link
    takes : TakesAll line link ps link'
    shows : Shows relay link'
    kept : Keeps link' rest relay

  -- A link that is down ignores the rest.
  ignores_all : (ps : List Packet) (link : Link) → link.is_up ≡ false → TakesAll line link ps link
  ignores_all [] link down = done link
  ignores_all (p ∷ ps) link down =
      next link link link p ps (ignores link p down) (ignores_all ps link down)

  closed-Ends :
      (ps : List Packet) (rest : List ℕ) (link : Link) (relay : Relay)
      → link.is_up ≡ false
      → Shows relay link
      → Ends ps rest link relay
  closed-Ends ps rest link relay down shows = record {
    link' = link;
    takes = ignores_all ps link down;
    shows = shows;
    kept = inl down;
  }

  -- One packet.
  record Handles (p : Packet) (later : List ℕ) (link : Link) (relay : Relay) : Type 0 where
    mid : Link
    takes : Takes line link p mid
    shows : Shows relay mid
    buffer_eq : relay.buffer ≡ (if mid.is_up then later else [])

  module _ (p : Packet) (later : List ℕ) (link : Link) (relay : Relay) (shows : Shows relay link)
      (whole : relay.buffer ≡ print p ++ later) where
    packet_eq : take (length (print p)) relay.buffer ≡ print p
    packet_eq = ap (take (length (print p))) whole ∙ take_all (print p) later

    rest_eq : drop (length (print p)) relay.buffer ≡ later
    rest_eq = ap (drop (length (print p))) whole ∙ drop_all (print p) later

    test_eq :
        (is_puback (take (length (print p)) relay.buffer)
          && (line.armed relay.packets && not relay.dropped))
        ≡ is_victim line link p
    test_eq = rw (packet_eq, shows.packets_eq, shows.dropped_eq) refl

    sends_eq : line.sends relay.packets ≡ line.sends link.packets
    sends_eq = ap line.sends shows.packets_eq

    forward-loses :
        link.is_up ≡ true
        → is_victim line link p ≡ true
        → Handles p later link (forward line (length (print p)) relay)
    unfolding forward
    forward-loses up victim = rw (test_eq ∙ victim) (record {
      mid = record link { lost = true; is_up = false };
      takes = loses link p up victim;
      shows = record {
        sent_eq = shows.sent_eq;
        packets_eq = shows.packets_eq;
        dropped_eq = refl;
        open_eq = refl;
      };
      buffer_eq = refl;
    })

    forward-hands_on :
        link.is_up ≡ true
        → is_victim line link p ≡ false
        → line.sends link.packets ≡ true
        → Handles p later link (forward line (length (print p)) relay)
    unfolding forward
    forward-hands_on up safe sends =
        rw (test_eq ∙ safe, sends_eq ∙ sends)
          (record {
            mid = record link { handed = link.handed ++ (p ∷ []); packets = suc link.packets };
            takes = hands_on link p up safe sends;
            shows = record {
              sent_eq =
                  rw packet_eq
                    (ap (λ l. l ++ print p) shows.sent_eq ∙ sym (print_all-snoc link.handed p));
              packets_eq = ap suc shows.packets_eq;
              dropped_eq = shows.dropped_eq;
              open_eq = shows.open_eq;
            };
            buffer_eq = rw up rest_eq;
          })

    forward-breaks :
        link.is_up ≡ true
        → is_victim line link p ≡ false
        → line.sends link.packets ≡ false
        → Handles p later link (forward line (length (print p)) relay)
    unfolding forward
    forward-breaks up safe fails =
        rw (test_eq ∙ safe, sends_eq ∙ fails)
          (record {
            mid = record link { is_up = false };
            takes = breaks link p up safe fails;
            shows = record {
              sent_eq = shows.sent_eq;
              packets_eq = shows.packets_eq;
              dropped_eq = shows.dropped_eq;
              open_eq = refl;
            };
            buffer_eq = refl;
          })

    forward-Handles :
        link.is_up ≡ true → Handles p later link (forward line (length (print p)) relay)
    forward-Handles up = elim (Bool-cases (is_victim line link p)) [
      | inl victim ↦ forward-loses up victim
      | inr safe ↦ elim (Bool-cases (line.sends link.packets)) [
        | inl sends ↦ forward-hands_on up safe sends
        | inr fails ↦ forward-breaks up safe fails
      ]
    ]

  drain-rest :
      (fuel : ℕ) (relay : Relay) → packet_end relay.buffer ≡ none → drain line fuel relay ≡ relay
  drain-rest zero relay e = drain-zero line relay
  drain-rest (suc fuel) relay e = drain-none line fuel relay e

  -- The loop takes the steps of the packets in the buffer.
  drain-Ends :
      (ps : List Packet) (rest : List ℕ) (fuel : ℕ) (link : Link) (relay : Relay)
      → AllFit ps
      → packet_end rest ≡ none
      → link.is_up ≡ true
      → Shows relay link
      → relay.buffer ≡ print_all ps ++ rest
      → length relay.buffer ≤ fuel
      → Ends ps rest link (drain line fuel relay)
  drain-Ends [] rest fuel link relay fit over up shows whole room =
      rw (drain-rest fuel relay (ap packet_end whole ∙ over))
        (record { link' = link; takes = done link; shows = shows; kept = inr whole })
  drain-Ends (p ∷ ps) rest zero link relay fit over up shows whole room =
      absurd (omega (arith, ap length whole))
  drain-Ends (p ∷ ps) rest (suc fuel) link relay fit over up shows whole room =
      let later = print_all ps ++ rest in
      let split : relay.buffer ≡ print p ++ later =
        whole ∙ append_assoc (print p) (print_all ps) rest in
      let h = forward-Handles p later link relay shows split up in
      let found = ap packet_end split ∙ packet_end-print p later fit.0 in
      rw (drain-some line fuel (length (print p)) relay found) (elim (Bool-cases h.mid.is_up) [
        | inl still ↦
            let same : (forward line (length (print p)) relay).buffer ≡ later =
              h.buffer_eq ∙ if_true _ _ still in
            let e =
              drain-Ends ps rest fuel h.mid (forward line (length (print p)) relay) fit.1 over still
                h.shows same
                (omega
                  (arith, room, ap length same, ap length split, length-append (print p) later)) in
            record {
              link' = e.link';
              takes = next link h.mid e.link' p ps h.takes e.takes;
              shows = e.shows;
              kept = e.kept;
            }
        | inr down ↦
            let s' = forward line (length (print p)) relay in
            let e = closed-Ends ps rest h.mid s' down h.shows in
            rw (drain-closed line fuel s' (h.buffer_eq ∙ if_false _ _ down)) (record {
              link' = e.link';
              takes = next link h.mid e.link' p ps h.takes e.takes;
              shows = e.shows;
              kept = e.kept;
            })
      ])

-- However `recv` cuts the broker's bytes, a round of `_copy` takes the steps of the abstract link for the
-- packets that are then whole: the client has been sent just the bytes of the packets that the link has
-- handed on, one acknowledgement at most is lost and only while the proxy is armed, after it the link is
-- down, and while the link is up the bytes of the packet that is not whole are kept. It is so for packets
-- whose length fits in four bytes.
pub receive-TakesAll :
    (line : Line) (byte : ℕ) (chunk : List ℕ) (ps : List Packet) (rest : List ℕ) (link : Link)
    (relay : Relay)
    → AllFit ps
    → packet_end rest ≡ none
    → Shows relay link
    → relay.buffer ++ (byte ∷ chunk) ≡ print_all ps ++ rest
    → (link' : Link) × TakesAll line link ps link'
      × Shows (receive line (byte ∷ chunk) relay) link'
      × Keeps link' rest (receive line (byte ∷ chunk) relay)
receive-TakesAll line byte chunk ps rest link relay fit over shows whole =
    elim (Bool-cases link.is_up) [
      | inl up ↦
          let extended = more (byte ∷ chunk) relay in
          let e =
            drain-Ends line ps rest (length extended.buffer) link extended fit over up
              (record {
                sent_eq = shows.sent_eq;
                packets_eq = shows.packets_eq;
                dropped_eq = shows.dropped_eq;
                open_eq = shows.open_eq;
              })
              whole (omega arith) in
          rw (receive_open line byte chunk relay (shows.open_eq ∙ up))
            (e.link', e.takes, e.shows, e.kept)
      | inr down ↦
          let e = closed-Ends line ps rest link relay down shows in
          rw (receive_closed line (byte ∷ chunk) relay (shows.open_eq ∙ down))
            (e.link', e.takes, e.shows, e.kept)
    ]
