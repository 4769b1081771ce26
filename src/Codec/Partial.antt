-- ===== src/Codec/Partial.antt =====
-- `mqtt_codec::channel_read` (handler/mqtt_codec.cpp) on a buffer that holds a part of a packet.
use shan_mqtt_broker.Packet.Bits.{top_bit}
use shan_mqtt_broker.Wire.Bind.{run_lift, run_err, run_passed}
use shan_mqtt_broker.Wire.Decoder.{run_bytes}
use shan_mqtt_broker.Packet.FixedHeader.{
  malformed_length, decode_length_loop, FixedHeader, check_flags, decode_remaining_length,
  decode_fixed_header,
}
use shan_mqtt_broker.Codec.{run, buffer, FixedHeader, codec_channel_read}
use shan_mqtt_broker.Wire.Buffer.{marked-run, run-run_bytes, run, Agrees, StreamBuf}
use shan_mqtt_broker.Base.{
  ◌==◌, All, zero, suc, ◌+◌, ◌*◌, ℕ, ◌/◌, ◌<◌, ◌≤◌, ◌≡◌, refl, ap, subst, ◌∙◌, true, false, [], ◌∷◌,
  Bytes, length, arith, ltb,
}
use Prim.Native.Nat.{bit_and}
use shan_mqtt_broker.Outcome.{ok, err, not_enough}
use shan_mqtt_broker.Codec.RoundTrip.{with_first, header_takes_two}

-- A byte of a remaining length behind which it goes on.
abbrev pub GoesOn : ℕ → Type 0
GoesOn y = (128 ≤ y) × (y < 256)

length_cut :
    (ys : Bytes) (rounds value shift : ℕ)
    → All GoesOn ys
    → length ys < rounds
    → shift + 7 * length ys ≤ 21
    → run_bytes (decode_length_loop rounds value shift) ys ≡ err not_enough
unfolding decode_length_loop
length_cut [] zero value shift g r s = absurd (omega (arith, r))
length_cut [] (suc rounds) value shift g r s = refl
length_cut (y ∷ ys) zero value shift g r s = absurd (omega (arith, r))
length_cut (y ∷ ys) (suc rounds) value shift g r s =
    let short : ltb 21 (shift + 7) ≡ false = ground (arith, s) in
    let more : (bit_and y 0x80 == 0) ≡ false = ground (arith, top_bit y, g.0) in
    run_passed (ltb 21 (shift + 7)) malformed_length _ ys short
    ∙ rw more (length_cut ys rounds _ (shift + 7) g.1 (omega (arith, r)) (omega (arith, s)))

module _ (S : StreamBuf) where
  open S use {Buf, unread, marked, mark, size_call}

  -- A header that is whole, before fewer bytes than it announces: `channel_read` calls `done`, and
  -- every byte is unread again.
  pub body_missing :
      (b : Buf) (xs : Bytes) (fh : FixedHeader) (part : Bytes)
      → unread b ≡ xs
      → run_bytes decode_fixed_header xs ≡ ok (fh, part)
      → length part < fh.remaining_length
      → (left : Buf) × (codec_channel_read S (buffer b)
          ≡ ok (record { passed = buffer left; left = left; is_done = true }))
        × (unread left ≡ xs)
  unfolding codec_channel_read
  body_missing b xs fh part u d few =
      let first : Agrees S (run S decode_fixed_header (mark b)) (ok (fh, part)) =
        subst (Agrees S (run S decode_fixed_header (mark b))) d
          (run-run_bytes S decode_fixed_header (mark b) xs ((S.unread-mark b).0 ∙ u)) in
      let b1 = (run S decode_fixed_header (mark b)).1 in
      let two : ltb (size_call b) 2 ≡ false =
        ground (arith, S.size_lem b, ap length u, header_takes_two xs fh part d) in
      let short : ltb (size_call b1) fh.remaining_length ≡ true =
        ground (arith, S.size_lem b1, ap length first.1) in
      (
        S.reset b1,
        rw (two, with_first (run S decode_fixed_header (mark b)) first.0, short) refl,
        S.unread-reset b1 ∙ marked-run S decode_fixed_header (mark b) ∙ (S.unread-mark b).1 ∙ u,
      )

  header_cut :
      (x : ℕ) (ys : Bytes)
      → check_flags (x / 16) (bit_and x 0x0f) ≡ ok tt
      → All GoesOn ys
      → length ys ≤ 3
      → run_bytes decode_fixed_header (x ∷ ys) ≡ err not_enough
  unfolding decode_fixed_header decode_remaining_length decode_length_loop
  header_cut x ys c g h =
      run_lift (check_flags (x / 16) (bit_and x 0x0f)) _ ys c
      ∙ run_err (decode_length_loop 4 0 0) _ ys
          (length_cut ys 4 0 0 g (omega (arith, h)) (omega (arith, h)))

  -- A header with good flags that is cut in its remaining length, behind one, two or three bytes of
  -- it, all of which say that it goes on: every byte is unread again, but `done` is not called, so
  -- the buffer itself is passed on as if it were a packet.
  pub header_cut_passed_on :
      (b : Buf) (x : ℕ) (ys : Bytes)
      → unread b ≡ x ∷ ys
      → check_flags (x / 16) (bit_and x 0x0f) ≡ ok tt
      → All GoesOn ys
      → 1 ≤ length ys
      → length ys ≤ 3
      → (left : Buf) × (codec_channel_read S (buffer b)
          ≡ ok (record { passed = buffer left; left = left; is_done = false }))
        × (unread left ≡ x ∷ ys)
  unfolding codec_channel_read
  header_cut_passed_on b x ys u c g l h =
      let first : Agrees S (run S decode_fixed_header (mark b)) (err not_enough) =
        subst (Agrees S (run S decode_fixed_header (mark b))) (header_cut x ys c g h)
          (run-run_bytes S decode_fixed_header (mark b) (x ∷ ys) ((S.unread-mark b).0 ∙ u)) in
      let b1 = (run S decode_fixed_header (mark b)).1 in
      let two : ltb (size_call b) 2 ≡ false = ground (arith, S.size_lem b, ap length u) in
      (
        S.reset b1,
        rw (two, with_first (run S decode_fixed_header (mark b)) first) refl,
        S.unread-reset b1 ∙ marked-run S decode_fixed_header (mark b) ∙ (S.unread-mark b).1 ∙ u,
      )
