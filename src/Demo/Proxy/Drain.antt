-- ===== src/Demo/Proxy/Drain.antt =====
-- The inner loop of the proxy's thread in examples/mqtt_demo/demo.py: more fuel changes nothing, and later
-- bytes can be added before it or after it.
use moon_mqtt_client.Base.{
  if_true, if_false, ℕ, zero, suc, ◌+◌, ◌≤◌, ◌<◌, true, false, not, ◌&&◌, ◌≡◌, refl, ◌∙◌, sym, ap,
  List, [], ◌∷◌, ◌++◌, some, none, length, length-append, take, take-append, drop-append,
  length-drop_lt, arith, Option-cases, Bool-cases, ◌⊎◌, inl, inr, if◌then◌else◌,
}
use moon_mqtt_client.Demo.Proxy.{Line, Relay, packet_end, is_puback, forward, drain, receive}
use moon_mqtt_client.Demo.Proxy.Framing.{packet_end-bounds, packet_end-append}

-- Bytes that come later.
abbrev pub more : List ℕ → Relay → Relay
more later relay = record relay { buffer = relay.buffer ++ later }

-- The thread goes on with later bytes, or has returned.
abbrev resume : Line → ℕ → List ℕ → Relay → Relay
resume line fuel later relay = if relay.is_open then drain line fuel (more later relay) else relay

pub length-zero : (xs : List ℕ) → length xs ≤ 0 → xs ≡ []
length-zero [] h = refl
length-zero (x ∷ xs) h = absurd (omega arith)

pub packet_end-empty : (xs : List ℕ) → xs ≡ [] → packet_end xs ≡ none
unfolding packet_end
packet_end-empty [] h = refl
packet_end-empty (x ∷ xs) h = absurd (omega (arith, ap length h))

module _ (line : Line) where
  length-forward :
      (end : ℕ) (relay : Relay)
      → 0 < end
      → end ≤ length relay.buffer
      → length (forward line end relay).buffer < length relay.buffer
  unfolding forward
  length-forward end relay pos le = ground (arith, length-drop_lt end relay.buffer pos le)

  -- A thread that has returned has no bytes left.
  pub IsSettled : Relay → Type 0
  IsSettled relay = relay.is_open ≡ false → relay.buffer ≡ []

  forward-more :
      (end : ℕ) (relay : Relay) (later : List ℕ)
      → relay.is_open ≡ true
      → end ≤ length relay.buffer
      → ((forward line end relay).is_open ≡ true)
          × (forward line end (more later relay) ≡ more later (forward line end relay))
        ⊎ ((forward line end relay).is_open ≡ false)
          × ((forward line end relay).buffer ≡ [])
          × (forward line end (more later relay) ≡ forward line end relay)
  unfolding forward
  forward-more end relay later is_open le =
      rw (take-append end relay.buffer later le, drop-append end relay.buffer later le)
        (elim (Bool-cases
          (is_puback (take end relay.buffer) && (line.armed relay.packets && not relay.dropped))) [
            | inl lost ↦ rw lost (inr (refl, refl, refl))
            | inr kept ↦ rw kept (elim (Bool-cases (line.sends relay.packets)) [
              | inl sent ↦ rw sent (inl (is_open, refl))
              | inr failed ↦ rw failed (inr (refl, refl, refl))
            ])
          ])

  pub drain-closed : (fuel : ℕ) (relay : Relay) → relay.buffer ≡ [] → drain line fuel relay ≡ relay
  unfolding drain packet_end
  drain-closed zero relay h = refl
  drain-closed (suc fuel) relay h = rw h refl

  pub drain-zero : (relay : Relay) → drain line zero relay ≡ relay
  unfolding drain
  drain-zero relay = refl

  pub drain-none :
      (fuel : ℕ) (relay : Relay)
      → packet_end relay.buffer ≡ none
      → drain line (suc fuel) relay ≡ relay
  unfolding drain
  drain-none fuel relay e = rw (e, drain) refl

  pub drain-some :
      (fuel end : ℕ) (relay : Relay)
      → packet_end relay.buffer ≡ some end
      → drain line (suc fuel) relay ≡ drain line fuel (forward line end relay)
  unfolding drain
  drain-some fuel end relay e = rw (e, drain) refl

  pub shorter :
      (end fuel : ℕ) (relay : Relay)
      → packet_end relay.buffer ≡ some end
      → length relay.buffer ≤ suc fuel
      → length (forward line end relay).buffer ≤ fuel
  shorter end fuel relay e h =
      let (pos, le) = packet_end-bounds relay.buffer end e in
      omega (arith, length-forward end relay pos le)

  -- More fuel than the length of the buffer changes nothing.
  drain_enough :
      (fuel fuel' : ℕ) (relay : Relay)
      → length relay.buffer ≤ fuel
      → length relay.buffer ≤ fuel'
      → drain line fuel relay ≡ drain line fuel' relay
  drain_enough zero fuel' relay h k =
      drain-closed zero relay empty ∙ sym (drain-closed fuel' relay empty)
    where
      empty : relay.buffer ≡ []
      empty = length-zero relay.buffer (omega arith)
  drain_enough (suc fuel) zero relay h k =
      drain-closed (suc fuel) relay empty ∙ sym (drain-closed zero relay empty)
    where
      empty : relay.buffer ≡ []
      empty = length-zero relay.buffer (omega arith)
  drain_enough (suc fuel) (suc fuel') relay h k = elim (Option-cases (packet_end relay.buffer)) [
    | inl e ↦ drain-none fuel relay e ∙ sym (drain-none fuel' relay e)
    | inr (end, e) ↦
        drain-some fuel end relay e
        ∙ drain_enough fuel fuel' (forward line end relay) (shorter end fuel relay e h)
            (shorter end fuel' relay e k)
        ∙ sym (drain-some fuel' end relay e)
  ]

  pub length-drain :
      (fuel : ℕ) (relay : Relay) → length (drain line fuel relay).buffer ≤ length relay.buffer
  length-drain zero relay = rw (drain-zero relay) (omega arith)
  length-drain (suc fuel) relay = elim (Option-cases (packet_end relay.buffer)) [
    | inl e ↦ rw (drain-none fuel relay e) (omega arith)
    | inr (end, e) ↦
        let (pos, le) = packet_end-bounds relay.buffer end e in
        rw (drain-some fuel end relay e) (
          omega
            (arith, length-forward end relay pos le, length-drain fuel (forward line end relay)))
  ]

  resume_open :
      (fuel : ℕ) (later : List ℕ) (relay : Relay)
      → relay.is_open ≡ true
      → resume line fuel later relay ≡ drain line fuel (more later relay)
  resume_open fuel later relay h = if_true _ _ h

  pub resume_enough :
      (fuel fuel' : ℕ) (later : List ℕ) (relay : Relay)
      → length relay.buffer + length later ≤ fuel
      → length relay.buffer + length later ≤ fuel'
      → resume line fuel later relay ≡ resume line fuel' later relay
  resume_enough fuel fuel' later relay h k = elim (Bool-cases relay.is_open) [
    | inl e ↦
        resume_open fuel later relay e
        ∙ drain_enough fuel fuel' (more later relay)
            (omega (arith, length-append relay.buffer later))
            (omega (arith, length-append relay.buffer later))
        ∙ sym (resume_open fuel' later relay e)
    | inr e ↦ if_false _ _ e ∙ sym (if_false _ _ e)
  ]

  -- Later bytes can be added before the loop or after it.
  pub drain-more :
      (fuel fuel' : ℕ) (relay : Relay) (later : List ℕ)
      → relay.is_open ≡ true
      → length relay.buffer ≤ fuel
      → length relay.buffer + length later ≤ fuel'
      → drain line fuel' (more later relay) ≡ resume line fuel' later (drain line fuel relay)
  drain-more zero fuel' relay later is_open h k = rw (drain-zero relay) (rw is_open refl)
  drain-more (suc fuel) zero relay later is_open h k =
      rw (drain-closed (suc fuel) relay (length-zero relay.buffer (omega arith))) (rw is_open refl)
  drain-more (suc fuel) (suc fuel') relay later is_open h k =
      elim (Option-cases (packet_end relay.buffer)) [
        | inl e ↦ rw (drain-none fuel relay e) (rw is_open refl)
        | inr (end, e) ↦
            let (pos, le) = packet_end-bounds relay.buffer end e in
            let e' = packet_end-append relay.buffer later end e in
            drain-some fuel' end (more later relay) e'
            ∙ elim (forward-more end relay later is_open le) [
              | inl (still, same) ↦
                  let s' = forward line end relay in
                  let t = drain line fuel s' in
                  let room : length t.buffer + length later ≤ fuel' =
                    omega (arith, length-drain fuel s', length-forward end relay pos le) in
                  rw (drain-some fuel end relay e, same)
                    (drain-more fuel fuel' s' later still (shorter end fuel relay e h)
                        (omega (arith, length-forward end relay pos le))
                      ∙ resume_enough fuel' (suc fuel') later t room (omega arith))
              | inr (closed, empty, same) ↦
                  let s' = forward line end relay in
                  rw (drain-some fuel end relay e, same)
                    (rw (drain-closed fuel' s' empty, drain-closed fuel s' empty) (rw closed refl))
            ]
      ]

  pub receive_open :
      (byte : ℕ) (chunk : List ℕ) (relay : Relay)
      → relay.is_open ≡ true
      → receive line (byte ∷ chunk) relay
        ≡ drain line (length (relay.buffer ++ (byte ∷ chunk))) (more (byte ∷ chunk) relay)
  unfolding receive
  receive_open byte chunk relay h = rw h refl

  pub emptied : (relay : Relay) → relay.is_open ≡ true → (receive line [] relay).buffer ≡ []
  unfolding receive
  emptied relay h = rw h refl

  pub receive_closed :
      (chunk : List ℕ) (relay : Relay) → relay.is_open ≡ false → receive line chunk relay ≡ relay
  unfolding receive
  receive_closed [] relay h = rw h refl
  receive_closed (byte ∷ chunk) relay h = rw h refl

  pub receive-resume :
      (byte : ℕ) (chunk : List ℕ) (relay : Relay)
      → receive line (byte ∷ chunk) relay
        ≡ resume line (length relay.buffer + length (byte ∷ chunk)) (byte ∷ chunk) relay
  receive-resume byte chunk relay = elim (Bool-cases relay.is_open) [
    | inl e ↦
        receive_open byte chunk relay e
        ∙ ap (λ n. drain line n (more (byte ∷ chunk) relay))
            (length-append relay.buffer (byte ∷ chunk))
        ∙ sym (resume_open _ (byte ∷ chunk) relay e)
    | inr e ↦ receive_closed (byte ∷ chunk) relay e ∙ sym (if_false _ _ e)
  ]
