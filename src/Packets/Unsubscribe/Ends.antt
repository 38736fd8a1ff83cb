-- ===== src/Packets/Unsubscribe/Ends.antt =====
-- ReadFrom of Unsubscribe on any connection: the loop over the topics ends.
use mqttie.Prelude.{ℕ, zero, suc, ◌+◌, ◌≤◌, ◌<◌, ◌^◌, ◌≡◌, List, [], ◌∷◌, ◌++◌, arith}
use mqttie.Prelude.{ltb, leb, ltb→lt, not-ltb→le, not-leb→lt}
use mqttie.Go.Slice.{make}
use mqttie.Go.Stream.{Reader, ByteReader}
use mqttie.Go.Stream.Ensures.{
  Ensures, IsBytes-make, Ensures-read, Ensures->>=, Ensures-counted, Ensures-if, Ensures-fail,
  Ensures-pure, Ensures-weaken,
}
use mqttie.Util.Varint.Bounds.{read_varint_bounds}
use mqttie.Util.Utf8.Bounds.{read_utf8_bounds}
use mqttie.Packets.Unsubscribe.{Unsubscribe, read_topics, read_from}

module _ (R : Reader) (D : ByteReader R) where
  read_topics_ends :
      (fuel rem used : ℕ) (done : List (List ℕ))
      → rem ≤ used + fuel
      → used ≤ rem
      → Ensures (read_topics R fuel rem used done) (λ n ts. used + n ≡ rem)
  unfolding read_topics
  read_topics_ends zero rem used done hf hu =
      Ensures-if (ltb used rem) (λ e. absurd (omega (arith, ltb→lt used rem e)))
        (λ e. Ensures-pure done (omega (arith, not-ltb→le used rem e)))
  read_topics_ends (suc fuel) rem used done hf hu =
      Ensures-if (ltb used rem)
        (λ more. Ensures->>= _ _ (Ensures-counted _ (read_utf8_bounds R D)) λ n r h.
          Ensures-if (ltb rem (used + r.1)) (λ _. Ensures-fail _)
            λ fits.
              Ensures-weaken _
                (read_topics_ends fuel rem (used + r.1) (done ++ r.0 ∷ [])
                  (omega (arith, h.1, h.0.0)) (not-ltb→le rem (used + r.1) fits))
                (λ j ts w. omega (arith, w, h.1)))
        (λ e. Ensures-pure done (omega (arith, not-ltb→le used rem e)))

  -- On any connection ReadFrom returns a packet, of less than 2 ^ 28 + 4 bytes, or an error.
  pub unsubscribe_read_from_ends :
      (u : Unsubscribe) → Ensures (read_from R u) (λ n p. n < 2 ^ 28 + 4)
  unfolding read_from
  unsubscribe_read_from_ends u = Ensures->>= _ _ (read_varint_bounds R D) λ n rem h.
      Ensures->>= _ _ (Ensures-counted _ (Ensures-read R D (make 2) (IsBytes-make 2))) λ k q g.
        Ensures-if (leb rem q.1) (λ _. Ensures-fail _)
          λ fits.
            Ensures->>= _ _
              (read_topics_ends rem rem q.1 [] (omega arith)
                (omega (arith, not-leb→lt rem q.1 fits)))
              λ j ts w. Ensures-pure _ (omega (arith, h.0, h.1, g.1, w))
