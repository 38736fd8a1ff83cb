-- ===== src/Util/Varint/Decode.antt =====
-- ReadVarint reads back what the encoder wrote, and leaves what follows it.
use mqttie.Prelude.{ℕ, zero, suc, ◌+◌, ◌*◌, ◌/◌, ◌%◌, ◌^◌, ◌≤◌, ◌<◌, ◌≡◌, refl, ap, List, [], ◌∷◌}
use mqttie.Prelude.{some, arith, ltb, lt→ltb, length, inl, inr, Bool-cases, bit_and}
use mqttie.Prelude.Bits.{low_bits, top_bit, set_top_bit}
use mqttie.Go.Outcome.{ok}
use mqttie.Go.Slice.{uvarint_bytes, uvarint}
use mqttie.Go.Stream.{Reader}
use mqttie.Go.Stream.Reads.{Buffered, Reads, Reads-pure, Reads->>=, Reads-read, Reads-eq}
use mqttie.Util.Varint.{varint_rounds, read_varint}
use native.Mathlib.Nat.{div-add-mod, mod-eq_of_lt}
use native.Mathlib.Numerals.{towards_suc}

shift_up : (s : ℕ) → 2 ^ (s + 7) ≡ 128 * 2 ^ s
shift_up s = simp towards_suc (omega arith)

-- A number is its lowest group and the rest, each at its place.
groups : (w s : ℕ) → w % 128 * 2 ^ s + w / 128 * 2 ^ (s + 7) ≡ w * 2 ^ s
groups w s = omega (
  arith,
  ap (λ (step : ℕ). w / 128 * step) (shift_up s),
  ap (λ (whole : ℕ). whole * 2 ^ s) (div-add-mod w 128),
)

stop_bit : (w : ℕ) → w < 128 → bit_and w 0x80 ≡ 0
stop_bit w h = omega (arith, top_bit w)

more_bit : (w : ℕ) → bit_and (w % 128 + 128) 0x80 ≡ 128
more_bit w = omega (arith, top_bit (w % 128 + 128))

group_of_last : (w : ℕ) → w < 128 → bit_and w 0x7F ≡ w
group_of_last w h = omega (arith, low_bits w)

group_of_inner : (w : ℕ) → bit_and (w % 128 + 128) 0x7F ≡ w % 128
group_of_inner w = omega (arith, low_bits (w % 128 + 128))

module _ {R : Reader} (B : Buffered R) where
  -- A last byte ends the loop, a byte with the top bit set goes on.
  last_round :
      (k shift v b0 w : ℕ)
      → w < 128
      → Reads B (varint_rounds R (suc k) shift v (b0 ∷ [])) (w ∷ []) (some (v + w * 2 ^ shift))
  unfolding varint_rounds
  last_round k shift v b0 w h =
      Reads->>= B _ (Reads-read B (b0 ∷ []) (w ∷ []) refl)
        (rw (stop_bit w h, group_of_last w h) (Reads-pure B _))

  next_round :
      (k shift v b0 w x : ℕ) (bs : List ℕ)
      → Reads B
          (varint_rounds R k (shift + 7) (v + w % 128 * 2 ^ shift) ((w % 128 + 128) ∷ []))
          bs
          (some x)
      → Reads B (varint_rounds R (suc k) shift v (b0 ∷ [])) ((w % 128 + 128) ∷ bs) (some x)
  unfolding varint_rounds
  next_round k shift v b0 w x bs r =
      Reads->>= B _ (Reads-read B (b0 ∷ []) ((w % 128 + 128) ∷ []) refl)
        (rw (more_bit w, group_of_inner w) r)

  varint_rounds_lem :
      (k fuel shift v b0 w : ℕ)
      → k ≤ fuel
      → w < 128 ^ suc k
      → Reads B
          (varint_rounds R (suc k) shift v (b0 ∷ []))
          (uvarint_bytes fuel w)
          (some (v + w * 2 ^ shift))
  unfolding uvarint_bytes
  varint_rounds_lem zero zero shift v b0 w hk hw =
      rw (mod-eq_of_lt {n = w} {m = 256} (omega arith)) (last_round 0 shift v b0 w hw)
  varint_rounds_lem zero (suc fuel) shift v b0 w hk hw =
      rw (lt→ltb w 128 hw, mod-eq_of_lt {n = w} {m = 256} (omega arith))
        (last_round 0 shift v b0 w hw)
  varint_rounds_lem (suc k) zero shift v b0 w hk hw = elim hk [ ]
  varint_rounds_lem (suc k) (suc fuel) shift v b0 w hk hw = elim (Bool-cases (ltb w 128)) [
    | inl small ↦
        rw (small, mod-eq_of_lt {n = w} {m = 256} (ground arith))
          (last_round (suc k) shift v b0 w (ground arith))
    | inr large ↦
        rw (large, set_top_bit (w % 256) (omega arith), mod_mod_128)
          (next_round (suc k) shift v b0 w (v + w * 2 ^ shift) (uvarint_bytes fuel (w / 128)) (
            Reads-eq B refl (ap some (omega (arith, groups w shift))) (
              varint_rounds_lem k fuel (shift + 7) (v + w % 128 * 2 ^ shift) (w % 128 + 128)
                (w / 128) (omega arith) (omega arith))))
  ]
    where
      mod_mod_128 : w % 256 % 128 ≡ w % 128
      mod_mod_128 = omega arith

  -- ReadVarint reads back every number below 2 ^ 28 from its encoding.
  pub Reads-read_varint : (v : ℕ) → v < 2 ^ 28 → Reads B (read_varint R) (uvarint v) v
  unfolding read_varint
  Reads-read_varint v h = record {
    at = λ rest.
        rw ((varint_rounds_lem 3 9 0 0 0 v (omega arith) h).at rest)
          (ap (λ (x : ℕ). (length (uvarint v), ok x, B.feed rest)) (omega arith));
  }
