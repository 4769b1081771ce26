-- ===== src/Codec/RoundTrip.antt =====
-- `mqtt_codec::channel_write` and `channel_read` (handler/mqtt_codec.cpp) together.
use Prim.Native.Nat.{bit_and}
use shan_mqtt_broker.Base.{
  append-nil, subst, ◌/◌, ◌≤◌, ◌≡◌, refl, ap, sym, ◌∙◌, false, List, [], ◌∷◌, ◌++◌, Bytes, length,
  length-append, arith, some, ltb, append_assoc,
}
use shan_mqtt_broker.Outcome.{Result, ok, err, stuck, not_enough}
use shan_mqtt_broker.Wire.Decoder.{run_bytes, written, Write, Decoder, lift, ◌>>=◌}
use shan_mqtt_broker.Wire.Buffer.{
  StreamBuf, run, write_all, run-run_bytes, unread-write_all, Agrees,
}
use shan_mqtt_broker.Packet.FixedHeader.{
  decode_length_loop, FixedHeader, check_flags, decode_remaining_length, decode_fixed_header,
  serialize_fixed_header,
}
use shan_mqtt_broker.Packet.HeaderTrip.{decode-serialize_header}
use shan_mqtt_broker.Packet.Travels.{Travels, written-append}
use shan_mqtt_broker.Packet.Any.{Packet, header, decode_packet, serialize}
use shan_mqtt_broker.Codec.{buffer, packet, codec_channel_read, codec_channel_write}

pub with_first : {A B : Type 0} (p : A × B) {a : A} → p.0 ≡ a → p ≡ (a, p.1)
with_first (x, b) h = ap (λ t. (t, b)) h

nothing_behind :
    (r : Result (Unit {0})) (k : Unit {0} → Decoder FixedHeader) (fh : FixedHeader) (rest : Bytes)
    → ((u : Unit {0}) → run_bytes (k u) [] ≡ err not_enough)
    → run_bytes (lift r >>= k) [] ≡ ok (fh, rest)
    → ⊥
nothing_behind (ok u) k fh rest short h = cc (short u)
nothing_behind (err e) k fh rest short h = cc
nothing_behind stuck k fh rest short h = cc

pub header_takes_two :
    (xs : Bytes) (fh : FixedHeader) (rest : Bytes)
    → run_bytes decode_fixed_header xs ≡ ok (fh, rest)
    → 2 ≤ length xs
unfolding decode_fixed_header decode_remaining_length decode_length_loop
header_takes_two [] fh rest h = absurd (cc)
header_takes_two (x ∷ []) fh rest h =
    absurd (nothing_behind (check_flags (x / 16) (bit_and x 0x0f)) _ fh rest (λ u. refl) h)
header_takes_two (x ∷ (y ∷ xs)) fh rest h = omega arith

ok_injective : {A : Type 0} {a b : A} → ok a ≡ ok b → a ≡ b
ok_injective h = cc

module _ (S : StreamBuf) (p : Packet) (t : Travels p) where
  open S use {Buf, unread, mark, size_call}

  pub read_packet :
      (hw : List Write) (b : Buf) (rest : Bytes)
      → serialize_fixed_header (header p) ≡ ok hw
      → unread b ≡ written hw ++ (written t.body ++ rest)
      → (left : Buf) × (codec_channel_read S (buffer b)
          ≡ ok (record { passed = packet p; left = left; is_done = false }))
        × (unread left ≡ rest)
  unfolding codec_channel_read
  read_packet hw b rest e u =
      let tail = written t.body ++ rest in
      let (ws, e', d') = decode-serialize_header (header p) tail t.has_header in
      let d : run_bytes decode_fixed_header (written hw ++ tail) ≡ ok (header p, tail) =
        subst (λ v. run_bytes decode_fixed_header (written v ++ tail) ≡ ok (header p, tail))
          (ok_injective (sym e' ∙ e)) d' in
      let first : Agrees S (run S decode_fixed_header (mark b)) (ok (header p, tail)) =
        subst (Agrees S (run S decode_fixed_header (mark b))) d
          (run-run_bytes S decode_fixed_header (mark b) _ ((S.unread-mark b).0 ∙ u)) in
      let b1 = (run S decode_fixed_header (mark b)).1 in
      let second : Agrees S (run S (decode_packet (header p)) b1) (ok (some p, rest)) =
        subst (Agrees S (run S (decode_packet (header p)) b1)) (t.decoded rest)
          (run-run_bytes S (decode_packet (header p)) b1 _ first.1) in
      let two : ltb (size_call b) 2 ≡ false =
        ground (arith, S.size_lem b, ap length u, header_takes_two _ _ _ d) in
      let whole : ltb (size_call b1) (header p).remaining_length ≡ false = ground (
        arith,
        S.size_lem b1,
        ap length first.1,
        t.body_length,
        length-append (written t.body) rest,
      ) in
      (
        (run S (decode_packet (header p)) b1).1,
        rw
            (
              two,
              with_first (run S decode_fixed_header (mark b)) first.0,
              whole,
              with_first (run S (decode_packet (header p)) b1) second.0,
            )
            refl,
        second.1,
      )

  header_writes : (hw : List Write) × (serialize_fixed_header (header p) ≡ ok hw)
  header_writes = let (hw, e, _) = decode-serialize_header (header p) [] t.has_header in (hw, e)

  -- Where the bytes of a packet wait in the buffer, in front of any others, `channel_read` passes on
  -- the packet, leaves the others, and does not call `done`.
  pub channel_read-serialize :
      (ws : List Write) (b : Buf) (rest : Bytes)
      → serialize p ≡ ok ws
      → unread b ≡ written ws ++ rest
      → (left : Buf) × (codec_channel_read S (buffer b)
          ≡ ok (record { passed = packet p; left = left; is_done = false }))
        × (unread left ≡ rest)
  channel_read-serialize ws b rest e u =
      let (hw, eh) = header_writes in
      let split : hw ++ t.body ≡ ws = ok_injective (sym (t.serialized hw eh) ∙ e) in
      read_packet hw b rest eh (
        u
        ∙ ap (λ v. written v ++ rest) (sym split)
        ∙ rw (written-append hw t.body) (append_assoc (written hw) (written t.body) rest))

  -- What `channel_write` makes of a packet that travels in a new buffer, `channel_read` takes back
  -- whole.
  pub channel_read-channel_write :
      (empty : Buf)
      → unread empty ≡ []
      → (out left : Buf) × (codec_channel_write S empty (packet p) ≡ ok (buffer out))
        × (codec_channel_read S (buffer out)
            ≡ ok (record { passed = packet p; left = left; is_done = false }))
        × (unread left ≡ [])
  unfolding codec_channel_write
  channel_read-channel_write empty new =
      let (hw, eh) = header_writes in
      let ws = hw ++ t.body in
      let e : serialize p ≡ ok ws = t.serialized hw eh in
      let out = write_all S ws empty in
      let u : unread out ≡ written ws ++ [] =
        unread-write_all S ws empty ∙ rw (new, append-nil) refl in
      let (left, r, l) = channel_read-serialize ws out [] e u in (out, left, rw e refl, r, l)
