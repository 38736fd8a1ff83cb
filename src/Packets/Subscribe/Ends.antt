-- ===== src/Packets/Subscribe/Ends.antt =====
-- ReadFrom of Subscribe on any connection: the loop over the topics ends.
use mqttie.Prelude.{ℕ, zero, suc, ◌+◌, ◌≤◌, ◌<◌, ◌^◌, ◌≡◌, List, [], ◌∷◌, ◌++◌, arith, All}
use mqttie.Prelude.{ltb, leb, length, get_or, drop, ltb→lt, not-ltb→le, not-leb→lt}
use mqttie.Mqtt.{Topic}
use mqttie.Go.Slice.{make}
use mqttie.Go.Stream.{Reader, ByteReader}
use mqttie.Go.Stream.Ensures.{
  Ensures, IsBytes, IsBytes-make, IsBytes-append, IsBytes-drop, Ensures-read, Ensures->>=,
  Ensures-counted, Ensures-if, Ensures-fail, Ensures-pure, Ensures-weaken,
}
use mqttie.Util.Varint.Bounds.{read_varint_bounds}
use mqttie.Util.Utf8.Bounds.{read_utf8_bounds}
use mqttie.Packets.Subscribe.{Subscribe, read_topics, read_from}

-- A topic that was read: its name has at most 65535 bytes and its QoS byte is a byte.
abbrev pub IsReadTopic : Topic → Type 0
IsReadTopic t = (length t.name < 2 ^ 16) × IsBytes t.name × (t.qos < 256)

first-IsByte : (b : List ℕ) → IsBytes b → get_or b 0 0 < 256
first-IsByte [] h = omega arith
first-IsByte (x ∷ b) h = h.0

snoc-All :
    (ts : List Topic) (t : Topic)
    → All IsReadTopic ts
    → IsReadTopic t
    → All IsReadTopic (ts ++ t ∷ [])
snoc-All [] t h g = (g, tt)
snoc-All (x ∷ ts) t h g = (h.0, snoc-All ts t h.1 g)

module _ (R : Reader) (D : ByteReader R) where
  -- Every round takes two bytes at least of the remaining length, so the fuel suffices, and the
  -- loop stops exactly at the end of the packet.
  read_topics_ends :
      (fuel rem used : ℕ) (buf : List ℕ) (done : List Topic)
      → rem ≤ used + fuel
      → used ≤ rem
      → IsBytes buf
      → All IsReadTopic done
      → Ensures
          (read_topics R fuel rem used buf done)
          (λ n ts. (used + n ≡ rem) × All IsReadTopic ts)
  unfolding read_topics
  read_topics_ends zero rem used buf done hf hu hb hd =
      Ensures-if (ltb used rem) (λ e. absurd (omega (arith, ltb→lt used rem e)))
        (λ e. Ensures-pure done (omega (arith, not-ltb→le used rem e), hd))
  read_topics_ends (suc fuel) rem used buf done hf hu hb hd =
      Ensures-if (ltb used rem)
        (λ more. Ensures->>= _ _ (Ensures-counted _ (read_utf8_bounds R D)) λ n r h.
          Ensures->>= _ _
            (Ensures-counted _ (Ensures-read R D (get_or buf 0 0 ∷ []) (first-IsByte buf hb, tt)))
            λ k q g.
              Ensures-if (ltb rem (used + r.1 + q.1)) (λ _. Ensures-fail _)
                λ fits.
                  Ensures-weaken _
                    (read_topics_ends fuel rem (used + r.1 + q.1) (q.0 ++ drop 1 buf)
                      (done ++ record { name = r.0; qos = get_or q.0 0 0 } ∷ [])
                      (omega (arith, h.1, h.0.0)) (not-ltb→le rem (used + r.1 + q.1) fits)
                      (IsBytes-append q.0 (drop 1 buf) g.0.2 (IsBytes-drop 1 buf hb))
                      (snoc-All done _ hd (h.0.3, h.0.4, first-IsByte q.0 g.0.2)))
                    (λ j ts w. (omega (arith, w.0, h.1, g.1), w.1)))
        (λ e. Ensures-pure done (omega (arith, not-ltb→le used rem e), hd))

  -- On any connection ReadFrom returns a packet or an error: the loop over the topics ends. A packet
  -- that is returned took less than 2 ^ 28 + 4 bytes, and its topics are as the wire can hold them.
  pub read_from_ends :
      (s : Subscribe) → Ensures (read_from R s) (λ n p. (n < 2 ^ 28 + 4) × All IsReadTopic p.topics)
  unfolding read_from
  read_from_ends s = Ensures->>= _ _ (read_varint_bounds R D) λ n rem h.
      Ensures->>= _ _ (Ensures-counted _ (Ensures-read R D (make 2) (IsBytes-make 2))) λ k q g.
        Ensures-if (leb rem q.1) (λ _. Ensures-fail _)
          λ fits.
            Ensures->>= _ _
              (read_topics_ends rem rem q.1 q.0 [] (omega arith)
                (omega (arith, not-leb→lt rem q.1 fits)) g.0.2 tt)
              λ j ts w. Ensures-pure _ (omega (arith, h.0, h.1, g.1, w.0), w.1)
